-- ===== src/Node/Threads/Justified.antt =====
-- What the node sends, however its goroutines interleave.
use c_bridge_node.Base.{◌⊎◌, inl, inr, List}
use c_bridge_node.Base.Int.{◌+ℤ◌}
use c_bridge_node.Base.Places.{All-at}
use c_bridge_node.Base.Lists.{All, All-mono, All-Among, Among}
use c_bridge_node.Transfer.{Row}
use c_bridge_node.World.{World, Env, Sent}
use c_bridge_node.Exec.Keeps.{keeps_rules}
use c_bridge_node.Exec.Views.{View, On, Both}
use c_bridge_node.Exec.Threads.{Pool}
use c_bridge_node.Dal.Evolution.{HasKeys, HasTotal, All-HasTotal}
use c_bridge_node.Dal.Lookups.{FindsOnlyRows}
use c_bridge_node.Dal.Queries.{
  startable, confirmable, refundable, get_all_start_transfer_in,
  get_all_confirmable_locked_transfer, get_all_refund_able_transfer_in,
}
use c_bridge_node.Dal.Reads.{IsRow, IsRowNow, Yields-query, Yields-query-now}
use c_bridge_node.Chain.Answers.{ClockSaid, Yields-now}
use c_bridge_node.Chain.Sends.{Sending, Sends-nothing, SentSince}
use c_bridge_node.Server.{Server}
use c_bridge_node.Server.Send.{try_send, process_try_send_transfer_in}
use c_bridge_node.Server.Send.Payments.{IsPayment, try_send-Paying}
use c_bridge_node.Server.Confirm.{try_confirm, process_try_confirm_transfer}
use c_bridge_node.Server.Confirm.Claims.{IsClaim, try_confirm-Claiming}
use c_bridge_node.Server.Refund.{try_refund, process_try_refund_transfer_in}
use c_bridge_node.Server.Refund.Settlements.{IsSettlement, try_refund-Settling}
use c_bridge_node.Node.{
  Event, ping_tick, send_tick, confirm_tick, refund_tick, recover_tick, transfer_out_log,
  transfer_in_log, confirm_log, refund_log, summary_request, transfer_request, handle,
}
use c_bridge_node.Node.Progress.Reports.{
  ping_and_refresh_fee-Keeps, get_total_summary-Keeps, get_transfer_page-Keeps,
}
use c_bridge_node.Node.Threads.{Reach, start, arrive, turn, Reach-Evolves}
use c_bridge_node.Dal.Rows.{Rows}
use c_bridge_node.Dal.{now}
use c_bridge_node.Exec.{M}
use c_bridge_node.Exec.Keeps.{Yields}
use c_bridge_node.Exec.Relies.{
  Relies, KeepsUnder, Relies-Yields, Relies-Keeps, Relies-loop, AllUnder, Turn-Under,
}
use c_bridge_node.Node.Threads.Quiet.{
  monitor_log_transfer_out-Sending, monitor_log_transfer_in-Sending, monitor_log_confirm-Sending,
  monitor_log_refund-Sending, process_recover-Sending,
}

-- The row stood in the table at some moment of a run that the node has come to: when it started, or
-- after one of the turns.
abbrev pub Stood :
    {s : Server} {w₀ : World} {pool : Pool} {w : World} → Reach s w₀ pool w → Row → Type 0
Stood {w₀} start r = Among r w₀.table
Stood (arrive d ev) r = Stood d r
Stood {w} (turn d t) r = Stood d r ⊎ Among r w.table

-- It stood there with the sum of amount and fee that its transfer had at first, if it was there.
abbrev pub StoodWhole :
    {s : Server} {w₀ : World} {pool : Pool} {w : World} → Reach s w₀ pool w → Row → Type 0
StoodWhole {w₀} d r = Stood d r × HasTotal w₀.table r.tid (r.amount +ℤ r.fee)

-- A transaction pays, claims or settles a transfer, by rows which had `S` when they were read.
abbrev pub IsJustified : Server → Env → (Row → Type 0) → Sent → Type 0
IsJustified s e S sent = IsPayment s e S sent ⊎ (IsClaim s e S sent ⊎ IsSettlement s e S S sent)

module _ (s : Server) (e : Env) (S : Row → Type 0) (s₀ : List Sent) where
  abbrev Justifying : View
  Justifying = Sending e s₀ (IsJustified s e S)

  abbrev Rely : World → Type 0
  Rely = On (Rows S)

  abbrev Reading : View
  Reading = Both Justifying (Rows S)

  rows_have : (w : World) → On Reading w → All S w.table
  unfolding Rows
  rows_have w h = h.holds.1

  read-Justifying :
      {A : Type 0} (m : M A) (F : A → Type 0)
      → Yields (On Reading) m F
      → Relies Rely (On Justifying) m F
  read-Justifying m F y =
      Relies-Yields Rely (On Justifying) (On Reading) F
        (λ w t p. record { holds = (p.holds, t.holds) }) (λ w r. record { holds = r.holds.0 }) y

  clock-known : Yields (On Reading) now (ClockSaid e)
  clock-known = Yields-now e (λ env t sent h. h.0.same_env)

  sending-Justifying : KeepsUnder Rely (On Justifying) (process_try_send_transfer_in s)
  unfolding process_try_send_transfer_in get_all_start_transfer_in
  sending-Justifying =
      Relies-loop get_all_start_transfer_in (try_send s) (IsRowNow (ClockSaid e) S startable)
        (read-Justifying _ _ (Yields-query-now startable (ClockSaid e) S clock-known rows_have))
        (λ tx found.
          Relies-Keeps (try_send-Paying s e S s₀ (IsJustified s e S) (λ x h. inl h) tx found))

  confirming-Justifying : KeepsUnder Rely (On Justifying) (process_try_confirm_transfer s)
  unfolding process_try_confirm_transfer get_all_confirmable_locked_transfer
  confirming-Justifying =
      Relies-loop get_all_confirmable_locked_transfer (try_confirm s) (IsRow S confirmable)
        (read-Justifying _ _ (Yields-query confirmable S rows_have))
        (λ tx found.
          Relies-Keeps
            (try_confirm-Claiming s e S s₀ (IsJustified s e S) (λ x h. inr (inl h)) tx found))

  module _ (finds : FindsOnlyRows e) where
    refunding-Justifying : KeepsUnder Rely (On Justifying) (process_try_refund_transfer_in s)
    unfolding process_try_refund_transfer_in get_all_refund_able_transfer_in
    refunding-Justifying =
        Relies-loop get_all_refund_able_transfer_in (try_refund s)
          (IsRowNow (ClockSaid e) S refundable)
          (read-Justifying _ _ (Yields-query-now refundable (ClockSaid e) S clock-known rows_have))
          (try_refund-Settling s e S S s₀ (IsJustified s e S) (λ x h. inr (inr h)) finds)

    handle-Justifying : (ev : Event) → KeepsUnder Rely (On Justifying) (handle s ev)
    unfolding handle
    handle-Justifying send_tick = sending-Justifying
    handle-Justifying confirm_tick = confirming-Justifying
    handle-Justifying refund_tick = refunding-Justifying
    handle-Justifying ping_tick = Relies-Keeps (search (keeps_rules, ping_and_refresh_fee-Keeps))
    handle-Justifying recover_tick = Relies-Keeps (process_recover-Sending e s₀ (IsJustified s e S))
    handle-Justifying (transfer_out_log bc parsed h) =
        Relies-Keeps (search (keeps_rules, monitor_log_transfer_out-Sending))
    handle-Justifying (transfer_in_log parsed h) =
        Relies-Keeps (search (keeps_rules, monitor_log_transfer_in-Sending))
    handle-Justifying (confirm_log parsed h) =
        Relies-Keeps (search (keeps_rules, monitor_log_confirm-Sending))
    handle-Justifying (refund_log parsed h) =
        Relies-Keeps (search (keeps_rules, monitor_log_refund-Sending))
    handle-Justifying (summary_request addr_string) =
        Relies-Keeps (search (keeps_rules, get_total_summary-Keeps))
    handle-Justifying (transfer_request limit) =
        Relies-Keeps (search (keeps_rules, get_transfer_page-Keeps))

module _ {s : Server} {w₀ : World} where
  rows_now : {pool : Pool} {w : World} (d : Reach s w₀ pool w) → All (Stood d) w.table
  rows_now start = All-Among w₀.table
  rows_now (arrive d ev) = rows_now d
  rows_now {w} (turn d t) = All-mono _ w.table (λ r there. inr there) (All-Among w.table)

  totals_now :
      {pool : Pool} {w : World}
      → HasKeys w₀.table
      → Reach s w₀ pool w
      → All (λ r. HasTotal w₀.table r.tid (r.amount +ℤ r.fee)) w.table
  totals_now {w} keys d =
      let (evolved, keyed) = Reach-Evolves s w₀ keys d in
      All-HasTotal w₀.table w.table evolved keyed

  whole_since :
      {pool : Pool} {w : World}
      → HasKeys w₀.table
      → (d : Reach s w₀ pool w) → (r : Row) → Stood d r
      → HasTotal w₀.table r.tid (r.amount +ℤ r.fee)
  whole_since keys start r there = All-at _ r w₀.table (totals_now keys start) there
  whole_since keys (arrive d ev) r there = whole_since keys d r there
  whole_since keys (turn d t) r (inl before) = whole_since keys d r before
  whole_since keys (turn {w' = w'} d t) r (inr there) =
      All-at _ r w'.table (totals_now keys (turn d t)) there

  module _ (finds : FindsOnlyRows w₀.env) (S : Row → Type 0) where
    Reach-Justifying :
        {pool : Pool} {w : World}
        → (d : Reach s w₀ pool w) → ((r : Row) → Stood d r → S r)
        → On (Justifying s w₀.env S w₀.sent) w
          × AllUnder (On (Rows S)) (On (Justifying s w₀.env S w₀.sent)) pool
    unfolding Rows
    Reach-Justifying start in_S =
        (record { holds = Sends-nothing w₀.env w₀.sent (IsJustified s w₀.env S) }, tt)
    Reach-Justifying (arrive d ev) in_S =
        let (p, all) = Reach-Justifying d in_S in
        (p, ((handle-Justifying s w₀.env S w₀.sent finds ev).always, all))
    Reach-Justifying (turn {w = w} d t) in_S =
        let (p, all) = Reach-Justifying d (λ r before. in_S r (inl before)) in
        Turn-Under (On (Rows S)) (On (Justifying s w₀.env S w₀.sent)) t
          (record { holds = All-mono _ w.table (λ r there. in_S r (inl there)) (rows_now d) }) all p

-- However the statements, questions and transactions of the handlers interleave, from a table whose
-- primary key holds, and given that sqldb.ChkQueryRow finds only rows: every transaction that was
-- sent since pays a planned transfer in, less a fee of the gateway, or claims a locked transfer with
-- its preimage, or refunds or confirms an expired one by its related row, each as its job does
-- alone, for rows that stood so in the table at some moment of the run, with the sum of amount and
-- fee that their transfers had at first, if they were there.
pub Reach-IsJustified :
    (s : Server) (w₀ : World) {pool : Pool} {w : World}
    → HasKeys w₀.table
    → FindsOnlyRows w₀.env
    → (d : Reach s w₀ pool w) → SentSince w₀.sent (IsJustified s w₀.env (StoodWhole d)) w.sent
Reach-IsJustified s w₀ keys finds d =
    let (p, all) =
      Reach-Justifying finds (StoodWhole d) d (λ r there. (there, whole_since keys d r there)) in
    p.holds.since
