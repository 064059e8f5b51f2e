-- ===== src/Server/Recover/Resumes.antt =====
-- What a tick of ProcessRecoverTimeoutPendingTransfer achieves for a payment, where the database answers.
use c_bridge_node.Base.{
  ℕ, suc, ◌≡◌, refl, sym, ap, ◌∙◌, Bool, true, false, ◌&&◌, ◌==◌, Bool-cases, none, List, [], ◌∷◌,
  map, ◌⊎◌, inl, inr, arith,
}
use mathlib.Core.Path.{subst}
use c_bridge_node.Base.Lists.{Among, select}
use c_bridge_node.Base.Places.{Among-map, Among-select}
use c_bridge_node.Wire.{
  Hash, TransferStatus, locked, transfer_in_start, transfer_in_pending, confirm_pending,
  refund_pending, same_status, same_status-eq,
}
use c_bridge_node.Transfer.{Row, Time, Transfer, scan_transfer}
use c_bridge_node.World.{World, Env, ok}
use c_bridge_node.Exec.{perform, pure, ask, gets, for_each, ◌>>=◌}
use c_bridge_node.Exec.Ends.{Ends, Ends-after, Ends-or_skip}
use c_bridge_node.Exec.Keeps.{Keeps, Keeps-bind, Keeps-perform, keeps_rules}
use c_bridge_node.Exec.Views.{View, On}
use c_bridge_node.Dal.{now, update_where, set_transfer_status_by_from, status_by_from}
use c_bridge_node.Dal.Inserts.{Among-changed, Among-kept}
use c_bridge_node.Dal.Queries.{
  query, rows_unless, timeout_pending_transfer_in, get_recover_timeout_pending_transfer_in,
}
use c_bridge_node.Dal.Reads.{read_rules}
use c_bridge_node.Dal.Statements.{Keeps-now}
use c_bridge_node.Dal.Tables.{Keeps-exec_table, perform-exec_table}
use c_bridge_node.Server.Recover.{
  put_back, process_recover_timeout_pending_transfer_in, process_recover_timeout_pending_confirm,
  process_recover_timeout_pending_refund, process_recover,
}

module _ (e : Env) (row : Row) where
  -- The row at its first status again, since this time.
  abbrev pub resumed : Time → Row
  resumed stamp = record row { status = transfer_in_start; update_ts = stamp }

  unfoldable pub Resumed : View
  Resumed env t s = (env ≡ e) × ((stamp : Time) × Among (resumed stamp) t)

  -- A statement that asks for another status leaves it so.
  put_back-Resumed :
      (to from : TransferStatus) (tx : Transfer)
      → same_status transfer_in_start from ≡ false
      → Keeps (On Resumed) (put_back to from tx)
  unfolding put_back set_transfer_status_by_from status_by_from Resumed
  put_back-Resumed to from tx other =
      Keeps-bind _ _
        (Keeps-bind now _ Keeps-now λ ts. Keeps-exec_table _ λ env t s h. (
          h.0,
          (
            h.1.0,
            Among-kept (λ r. r.tid == tx.transfer_id && same_status r.status from) _ (resumed h.1.0)
                t (ground arith) h.1.1,
          ),
        ))
        (λ u. search keeps_rules)

  put_back_claim : (tx : Transfer) → Keeps (On Resumed) (put_back locked confirm_pending tx)
  put_back_claim tx = put_back-Resumed locked confirm_pending tx refl

  put_back_refund : (tx : Transfer) → Keeps (On Resumed) (put_back locked refund_pending tx)
  put_back_refund tx = put_back-Resumed locked refund_pending tx refl

  claims_and_refunds-Resumed :
      Keeps
        (On Resumed)
        (process_recover_timeout_pending_confirm >>= λ u. process_recover_timeout_pending_refund)
  unfolding process_recover_timeout_pending_confirm process_recover_timeout_pending_refund
  claims_and_refunds-Resumed =
      search (keeps_rules, read_rules, put_back_claim, put_back_refund) depth 12

  -- While the loop runs: the row is put back, or it waits and one of these rows is it.
  abbrev Places : List Transfer → List Row → Type 0
  Places txs t =
      ((stamp : Time) × Among (resumed stamp) t) ⊎ (Among row t × Among (scan_transfer row) txs)

  abbrev Under : List Transfer → World → Type 0
  Under txs w = (w.env ≡ e) × Places txs w.table

  module _ (waits : row.status ≡ transfer_in_pending) where
    abbrev asked : Hash → Row → Bool
    asked tid r = r.tid == tid && same_status r.status transfer_in_pending

    abbrev put : Time → Row → Row
    put ts r = record r { status = transfer_in_start; update_ts = ts }

    updated :
        (tx : Transfer) (txs : List Transfer) (t : List Row) (ts : Time)
        → Places (tx ∷ txs) t
        → Places txs (update_where (asked tx.transfer_id) (put ts) t)
    unfolding scan_transfer
    updated tx txs t ts (inl (stamp, there)) =
        inl
          (stamp, Among-kept (asked tx.transfer_id) (put ts) (resumed stamp) t (ground arith) there)
    updated tx txs t ts (inr (there, place)) = elim (Bool-cases (asked tx.transfer_id row)) [
      | inl hit ↦ inl (ts, Among-changed (asked tx.transfer_id) (put ts) row t hit there)
      | inr miss ↦
          inr (Among-kept (asked tx.transfer_id) (put ts) row t miss there, elsewhere place miss)
    ]
      where
        elsewhere :
            Among (scan_transfer row) (tx ∷ txs)
            → asked tx.transfer_id row ≡ false
            → Among (scan_transfer row) txs
        elsewhere (inl same) miss =
            let eq : tx.transfer_id ≡ row.tid = ap (λ t. t.transfer_id) same in
            absurd (ground (arith, eq, waits, miss))
        elsewhere (inr later) miss = later

    module _ (answers : (n : ℕ) → e.db_fault n ≡ none) where
      put_back_payment :
          (tx : Transfer) (txs : List Transfer) (w : World)
          → Under (tx ∷ txs) w
          → Ends (put_back transfer_in_start transfer_in_pending tx) w (λ u w'. Under txs w')
      unfolding put_back set_transfer_status_by_from status_by_from now ask pure
      put_back_payment tx txs w h =
          Ends-after _ (λ r w'. Under txs w') _ _ w
            (Ends-after _ (λ ts w'. Under (tx ∷ txs) w') now _ w (record { ends = h })
              λ ts w₁ h₁. record {
                ends =
                    rw
                      (perform-exec_table (update_where (asked tx.transfer_id) (put ts)) w₁
                        (ap (λ x. x.db_fault w₁.steps) h₁.0 ∙ answers w₁.steps))
                      (h₁.0, updated tx txs w₁.table ts h₁.1);
              })
            λ r w' h'. record { ends = h' }

      put_back_payments :
          (txs : List Transfer) (w : World)
          → Under txs w
          → Ends
              (for_each (put_back transfer_in_start transfer_in_pending) txs)
              w
              (λ u w'. On Resumed w')
      unfolding for_each pure Resumed
      put_back_payments [] w (env, inl put) = record { ends = record { holds = (env, put) } }
      put_back_payments [] w (env, inr place) = elim place.1 [ ]
      put_back_payments (tx ∷ txs) w h =
          Ends-after _ (λ u w'. Under txs w') _ _ w (put_back_payment tx txs w h)
            λ u w' h'. put_back_payments txs w' h'

-- The rows whose payments the tick takes for pending for too long.
abbrev waiting_in : World → List Transfer
waiting_in w =
    map scan_transfer (select (timeout_pending_transfer_in (w.env.clock w.steps)) w.table)

read_payments :
    (w : World)
    → ((n : ℕ) → w.env.db_fault n ≡ none)
    → Ends get_recover_timeout_pending_transfer_in w
        (λ r w'. (r ≡ ok (waiting_in w)) × ((w'.env ≡ w.env) × (w'.table ≡ w.table)))
unfolding get_recover_timeout_pending_transfer_in query rows_unless now ask gets pure ◌>>=◌
read_payments w answers = record {
  ends = (ap (λ f. rows_unless f (waiting_in w)) (answers (suc w.steps)), (refl, refl));
}

-- Where the database answers, a tick of the recovering job, alone, takes each row whose payment has been
-- pending for too long back to the status from which it is tried again, and changes nothing else of it.
pub process_recover-Resumed :
    (w : World) (row : Row)
    → ((n : ℕ) → w.env.db_fault n ≡ none)
    → Among row w.table
    → timeout_pending_transfer_in (w.env.clock w.steps) row ≡ true
    → On (Resumed w.env row) (perform process_recover w).1
unfolding process_recover process_recover_timeout_pending_transfer_in timeout_pending_transfer_in
process_recover-Resumed w row answers there due =
    (Ends-after (λ (u : Unit {0}) w'. On (Resumed w.env row) w') (λ u w'. On (Resumed w.env row) w')
      process_recover_timeout_pending_transfer_in
      (λ u.
        process_recover_timeout_pending_confirm >>= λ u'. process_recover_timeout_pending_refund)
      w
      (Ends-after _ _ _ _ w (read_payments w answers) λ r w' read.
        Ends-or_skip _ r _ w' (waiting_in w) read.0 (
          put_back_payments w.env row (same_status-eq row.status transfer_in_pending (ground arith))
            answers (waiting_in w) w'
            (
              read.1.0,
              inr (
                subst (Among row) (sym read.1.1) there,
                Among-map scan_transfer row _ (
                    Among-select (timeout_pending_transfer_in (w.env.clock w.steps)) row w.table
                      there due),
              ),
            )))
      λ u w' h. record { ends = Keeps-perform (claims_and_refunds-Resumed w.env row) w' h }).ends
