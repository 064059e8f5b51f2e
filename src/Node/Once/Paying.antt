-- ===== src/Node/Once/Paying.antt =====
-- processTrySendTransferIn (server/server.go), effect by effect: a row that was read waiting is
-- marked before it is paid, and paid once more only if its transaction was not accepted.
use c_bridge_node.Base.{
  ℕ, not, ◌*◌, ◌≡◌, refl, sym, Bool, false, ◌&&◌, Option, none, some, List, [], ◌∷◌, arith, ◌==◌,
  inl, inr, Bool-cases,
}
use mathlib.Core.Path.{subst}
use c_bridge_node.Base.Int.{ℤ, pos, ltb_ℤ, ◌+ℤ◌, ◌-ℤ◌}
use c_bridge_node.Wire.{Hash, transfer_in_start, transfer_in_pending, same_status}
use c_bridge_node.Transfer.{Time, Row, Transfer, minute}
use c_bridge_node.World.{World, Sent, Call, Fault, Result, ok, err, TransferInfo}
use c_bridge_node.Exec.{skip, or_skip, ask, modify, pure, ◌>>=◌}
use c_bridge_node.Exec.Steps.{Steps, Steps-pure}
use c_bridge_node.Exec.Views.{On, Keeps-ask}
use c_bridge_node.Exec.Outlines.{
  Outline, Outline-bind, Outline-Keeps-bind, Outline-Keeps, Outline-if, Anywhere, Outline-or_skip,
  Outline-if_found,
}
use c_bridge_node.Dal.{update_where, now, status_by_from, set_pending_transfer_in}
use c_bridge_node.Dal.Tables.{Outline-exec_table}
use c_bridge_node.Dal.Evolution.{has_tid-update_where, update_where-HasKeys}
use c_bridge_node.Dal.Statements.{Keeps-now}
use c_bridge_node.Chain.{BridgeConfig, transact, transfer_in, result_of, get_transfer}
use c_bridge_node.Chain.Keeps.{Keeps-get_transfer, Keeps-get_fee}
use c_bridge_node.Gateway.{get_fee}
use c_bridge_node.Server.{Server}
use c_bridge_node.Server.Send.{mark_existing, again, pay, send, charge, try_send}
use c_bridge_node.Node.Once.Phases.{
  Seen, pays, payments, is_waiting, Phase, unpaid, marked, over, InPhase,
}
use c_bridge_node.Node.Once.Calm.{
  Steady, Steady-Keeps, calm_rules, transact-Steady, set_transfer_in_amount_and_fee-Steps,
  same_payments,
}

abbrev waits : Hash → Row → Bool
waits tid r = r.tid == tid && same_status r.status transfer_in_start

abbrev mark : Time → Row → Row
mark ts r = record r { status = transfer_in_pending; update_ts = ts }

is_waiting-mark :
    (tid : Hash) (ts : Time) (rs : List Row)
    → is_waiting tid (update_where (waits tid) (mark ts) rs) ≡ false
unfolding is_waiting update_where
is_waiting-mark tid ts [] = refl
is_waiting-mark tid ts (r ∷ rs) = ground (arith, is_waiting-mark tid ts rs)

module _ (tid : Hash) (k : ℕ) where
  abbrev pub In : Phase → World → Type 0
  In p = On (Seen tid k p)

  unpaid-marked :
      (ts : Time) (t : List Row) (s : List Sent)
      → InPhase tid k unpaid t s
      → InPhase tid k marked (update_where (waits tid) (mark ts) t) s
  unpaid-marked ts t s h = (
    update_where-HasKeys (waits tid) (mark ts) t (λ r. refl) h.0,
    h.1,
    record {
      present = rw (has_tid-update_where tid (waits tid) (mark ts) t (λ r. refl)) h.2;
      not_waiting = is_waiting-mark tid ts t;
    },
  )

  -- The statement that marks the row, if it returned no error, has marked it.
  abbrev Marked : Result (Unit {0}) → Phase → Type 0
  Marked (ok u) p = p ≡ marked
  Marked (err e) p = Unit

  set_pending-Marked :
      Outline In unpaid Marked (set_pending_transfer_in tid transfer_in_pending transfer_in_start)
  unfolding set_pending_transfer_in status_by_from
  set_pending-Marked = Outline-Keeps-bind In unpaid Marked now _ Keeps-now λ ts.
      Outline-exec_table (Seen tid k) unpaid Marked (update_where (waits tid) (mark ts))
        (λ env t s h. (marked, unpaid-marked ts t s h, refl)) (λ e. tt)

  -- A payment that was not accepted leaves the row as marked.
  abbrev Paid : Result (Unit {0}) → Phase → Type 0
  Paid (ok u) p = Unit
  Paid (err e) p = p ≡ marked

  marked-over :
      (x : Sent) (t : List Row) (s : List Sent)
      → InPhase tid k marked t s
      → InPhase tid k over t (x ∷ s)
  unfolding payments
  marked-over x t s h = elim (Bool-cases (pays tid x)) [
    | inl e ↦ (h.0, rw e (inr (rw h.1 refl, h.2)))
    | inr e ↦ (h.0, rw e (inl h.1))
  ]

  recorded :
      (x : Sent) (outcome : Option Fault)
      → x.outcome ≡ outcome
      → Outline In marked Paid
          (modify (λ w. record w { sent = x ∷ w.sent }) >>= λ _. pure (result_of outcome))
  unfolding modify pure ◌>>=◌ result_of pays
  recorded x none eq = λ w h. (over, record { holds = marked-over x w.table w.sent h.holds }, tt)
  recorded x (some e) eq = λ w h. (
    marked,
    record { holds = same_payments tid k marked x w.table w.sent (rw eq (ground arith)) h.holds },
    refl,
  )

  transact-Paid :
      (bc : BridgeConfig) (id : Hash) (call : Call) → Outline In marked Paid (transact bc id call)
  unfolding transact
  transact-Paid bc id call =
      Outline-Keeps-bind In marked Paid (ask _) _ (Keeps-ask _) λ outcome. recorded _ outcome refl

  module _ (bc : BridgeConfig) (tx : Transfer) (this : tx.transfer_id ≡ tid) where
    pay-Paid : (amount : ℤ) → Outline In marked Paid (pay bc tx amount)
    unfolding pay transfer_in
    pay-Paid amount = transact-Paid bc tx.transfer_id _

    again-Anywhere :
        (amount : ℤ) (r : Result (Unit {0})) (p : Phase)
        → Paid r p
        → Outline In p Anywhere (again r (pay bc tx amount))
    unfolding again pure
    again-Anywhere amount (ok u) p paid = tt
    again-Anywhere amount (err e) p paid =
        subst (λ q. Outline In q Anywhere (again (err e) (pay bc tx amount))) (sym paid)
          (Outline-bind In marked Paid Anywhere (pay bc tx amount) _ (pay-Paid amount) λ r p' h. tt)

    paying-Anywhere :
        (amount : ℤ) (r : Result (Unit {0})) (p : Phase)
        → Marked r p
        → Outline In p Anywhere
            (or_skip r λ _. do sent ← pay bc tx amount; again sent (pay bc tx amount))
    unfolding or_skip pure
    paying-Anywhere amount (err e) p h = tt
    paying-Anywhere amount (ok u) p h =
        subst
          (λ q. Outline In q Anywhere (pay bc tx amount >>= λ sent. again sent (pay bc tx amount)))
          (sym h)
          (Outline-bind In marked Paid Anywhere (pay bc tx amount) _ (pay-Paid amount)
            (again-Anywhere amount))

    send-Anywhere : (amount fee : ℤ) → Outline In unpaid Anywhere (send bc tx amount fee)
    unfolding send
    send-Anywhere amount fee =
        Outline-Keeps-bind In unpaid Anywhere _ _
          (Steady-Keeps tid k unpaid _
            (set_transfer_in_amount_and_fee-Steps tid k tx.transfer_id amount fee))
          λ set. Outline-or_skip In unpaid set _ λ u.
            Outline-bind In unpaid Marked Anywhere _ _
              (subst
                (λ id.
                  Outline In unpaid Marked
                    (set_pending_transfer_in id transfer_in_pending transfer_in_start))
                (sym this) set_pending-Marked)
              (paying-Anywhere amount)

    charge-Anywhere : Outline In unpaid Anywhere (charge bc tx)
    unfolding charge pure
    charge-Anywhere =
        Outline-Keeps-bind In unpaid Anywhere (get_fee tx.related_tid) _
          (Keeps-get_fee tx.related_tid)
          λ fee. Outline-or_skip In unpaid fee _ λ final_fee.
            let amount = tx.amount +ℤ tx.fee -ℤ final_fee in
            Outline-if In unpaid Anywhere (ltb_ℤ (tx.amount +ℤ tx.fee) final_fee) skip
              (send bc tx amount final_fee) tt (send-Anywhere amount final_fee)

  mark_existing-Steps :
      (tx : Transfer) (info : TransferInfo) → Steps (Steady tid k) (mark_existing tx info)
  unfolding mark_existing
  mark_existing-Steps tx info = search calm_rules

  -- The row that was read is the transfer's: its payment goes through the phases.
  pub try_send-Anywhere :
      (s : Server) (tx : Transfer)
      → tx.transfer_id ≡ tid
      → Outline In unpaid Anywhere (try_send s tx)
  unfolding try_send pure
  try_send-Anywhere s tx this = Outline-if_found In unpaid _ _ λ bc.
      Outline-Keeps-bind In unpaid Anywhere now _ Keeps-now λ ts.
        Outline-if In unpaid Anywhere (ltb_ℤ (tx.time_lock -ℤ pos (6 * minute)) ts) skip _ tt (
          Outline-Keeps-bind In unpaid Anywhere (get_transfer bc tx.transfer_id) _
            (Keeps-get_transfer bc tx.transfer_id)
            λ remote. Outline-or_skip In unpaid remote _ λ info.
              Outline-if In unpaid Anywhere (not (info.status == 0)) (mark_existing tx info)
                (charge bc tx)
                (Outline-Keeps In unpaid Anywhere _
                  (Steady-Keeps tid k unpaid _ (mark_existing-Steps tx info)) (λ u. tt))
                (charge-Anywhere bc tx this))

  -- The row is another's: its payment keeps every phase.
  module _ (tx : Transfer) (other : (tx.transfer_id == tid) ≡ false) where
    pay-Steps : (bc : BridgeConfig) (amount : ℤ) → Steps (Steady tid k) (pay bc tx amount)
    unfolding pay transfer_in pays
    pay-Steps bc amount = transact-Steady tid k bc tx.transfer_id _ (λ outcome. rw other)

    again-Steps :
        (bc : BridgeConfig) (amount : ℤ) (r : Result (Unit {0}))
        → Steps (Steady tid k) (again r (pay bc tx amount))
    unfolding again
    again-Steps bc amount (ok u) = Steps-pure tt
    again-Steps bc amount (err e) = search (calm_rules, pay-Steps)

    charge-Steps : (bc : BridgeConfig) → Steps (Steady tid k) (charge bc tx)
    unfolding charge send
    charge-Steps bc = search (calm_rules, pay-Steps, again-Steps) depth 14

    pub try_send-Steps : (s : Server) → Steps (Steady tid k) (try_send s tx)
    unfolding try_send
    try_send-Steps s = search (calm_rules, mark_existing-Steps, charge-Steps) depth 14
