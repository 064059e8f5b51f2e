-- ===== src/Node/Progress/Sending.antt =====
-- The paying job keeps the rows' identities and the direction of their status.
use c_bridge_node.Base.{List, arith}
use c_bridge_node.Base.Int.{ℤ, ◌+ℤ◌, ◌-ℤ◌, sub-add_cancel}
use c_bridge_node.Base.Lists.{All, All-mono}
use c_bridge_node.Wire.{
  Hash, locked, refunded, transfer_in_start, transfer_in_pending, confirm_pending, refund_pending,
}
use c_bridge_node.Transfer.{Row, Transfer, scan_transfer}
use c_bridge_node.World.{Result, ok, err, Call, TransferInfo}
use c_bridge_node.Chain.{BridgeConfig, transact, transfer_in}
use c_bridge_node.Chain.Keeps.{Keeps-get_transfer, Keeps-get_fee, Keeps-transact}
use c_bridge_node.Exec.{M}
use c_bridge_node.Exec.Keeps.{
  Keeps, Keeps-pure, Yields, OnOk, OnOk-mono, Yields-mono, Yields-Unit, Keeps-loop, keeps_rules,
}
use c_bridge_node.Exec.Views.{On}
use c_bridge_node.Dal.{set_transfer_status_by_from, set_pending_transfer_in, update_transfer_status}
use c_bridge_node.Dal.Queries.{startable, get_all_start_transfer_in}
use c_bridge_node.Dal.Reads.{Yields-query-now, read_rules}
use c_bridge_node.Dal.Evolution.{HasTotal, All-HasTotal}
use c_bridge_node.Dal.Statements.{
  Keeps-now, Progressed, Progressed-update_transfer_status,
  Progressed-set_transfer_in_amount_and_fee, Progressed-set_pending_transfer_in,
  Progressed-set_transfer_status_by_from,
}
use c_bridge_node.Server.{Server}
use c_bridge_node.Server.Send.{
  mark_existing, again, pay, send, charge, try_send, process_try_send_transfer_in,
}

module _ (t₀ : List Row) where
  -- The steps that the handlers take, by the statuses before and after.
  pub start-pending :
      (tid : Hash)
      → Keeps
          (On (Progressed t₀))
          (set_pending_transfer_in tid transfer_in_pending transfer_in_start)
  start-pending tid =
      Progressed-set_pending_transfer_in t₀ tid transfer_in_pending transfer_in_start (omega arith)

  pub start-locked :
      (tid : Hash)
      → Keeps (On (Progressed t₀)) (set_transfer_status_by_from tid locked transfer_in_start)
  start-locked tid =
      Progressed-set_transfer_status_by_from t₀ tid locked transfer_in_start (omega arith)

  pub locked-confirm_pending :
      (tid : Hash)
      → Keeps (On (Progressed t₀)) (set_transfer_status_by_from tid confirm_pending locked)
  locked-confirm_pending tid =
      Progressed-set_transfer_status_by_from t₀ tid confirm_pending locked (omega arith)

  pub locked-refund_pending :
      (tid : Hash)
      → Keeps (On (Progressed t₀)) (set_transfer_status_by_from tid refund_pending locked)
  locked-refund_pending tid =
      Progressed-set_transfer_status_by_from t₀ tid refund_pending locked (omega arith)

  pub any-refunded : (tid : Hash) → Keeps (On (Progressed t₀)) (update_transfer_status tid refunded)
  any-refunded tid = Progressed-update_transfer_status t₀ tid refunded (omega arith)

  pub transact-Progressed :
      (bc : BridgeConfig) (tid : Hash) (call : Call)
      → Keeps (On (Progressed t₀)) (transact bc tid call)
  unfolding Progressed
  transact-Progressed bc tid call = Keeps-transact bc tid call (λ env t s o v. v)

  pay-Progressed :
      (bc : BridgeConfig) (tx : Transfer) (amount : ℤ)
      → Keeps (On (Progressed t₀)) (pay bc tx amount)
  unfolding pay transfer_in
  pay-Progressed bc tx amount = transact-Progressed bc _ _

  again-Progressed :
      (r : Result (Unit {0})) (m : M (Result (Unit {0})))
      → Keeps (On (Progressed t₀)) m
      → Keeps (On (Progressed t₀)) (again r m)
  unfolding again
  again-Progressed (ok u) m h = Keeps-pure tt
  again-Progressed (err e) m h = search keeps_rules

  send-Progressed :
      (bc : BridgeConfig) (tx : Transfer) (amount fee : ℤ)
      → HasTotal t₀ tx.transfer_id (amount +ℤ fee)
      → Keeps (On (Progressed t₀)) (send bc tx amount fee)
  unfolding send
  send-Progressed bc tx amount fee total =
      search
        (
          keeps_rules, Progressed-set_transfer_in_amount_and_fee, pay-Progressed, again-Progressed,
          start-pending,
        )
        depth 9

  mark_existing-Progressed :
      (tx : Transfer) (remote : TransferInfo) → Keeps (On (Progressed t₀)) (mark_existing tx remote)
  unfolding mark_existing
  mark_existing-Progressed tx remote = search (keeps_rules, start-locked)

  -- The amount that is sent and the fee are what the row's amount and fee add up to.
  charge-Progressed :
      (bc : BridgeConfig) (tx : Transfer)
      → HasTotal t₀ tx.transfer_id (tx.amount +ℤ tx.fee)
      → Keeps (On (Progressed t₀)) (charge bc tx)
  unfolding charge
  charge-Progressed bc tx total = search (
    keeps_rules,
    Keeps-get_fee,
    λ (fee : ℤ).
        send-Progressed bc tx (tx.amount +ℤ tx.fee -ℤ fee) fee
          (rw (sub-add_cancel (tx.amount +ℤ tx.fee) fee) total),
  )

  pub try_send-Progressed :
      (s : Server) (tx : Transfer)
      → HasTotal t₀ tx.transfer_id (tx.amount +ℤ tx.fee)
      → Keeps (On (Progressed t₀)) (try_send s tx)
  unfolding try_send
  try_send-Progressed s tx total =
      search
        (keeps_rules, read_rules, Keeps-get_transfer, mark_existing-Progressed, charge-Progressed)
        depth 9

  abbrev Totals : Row → Type 0
  Totals r = HasTotal t₀ r.tid (r.amount +ℤ r.fee)

  pub process_try_send_transfer_in-Progressed :
      (s : Server) → Keeps (On (Progressed t₀)) (process_try_send_transfer_in s)
  unfolding process_try_send_transfer_in get_all_start_transfer_in scan_transfer Progressed
  process_try_send_transfer_in-Progressed s =
      Keeps-loop get_all_start_transfer_in (try_send s)
        (λ tx. HasTotal t₀ tx.transfer_id (tx.amount +ℤ tx.fee)) started
        (λ tx total. try_send-Progressed s tx total)
    where
      started :
          Yields
            (On (Progressed t₀))
            get_all_start_transfer_in
            (OnOk (All (λ tx. HasTotal t₀ tx.transfer_id (tx.amount +ℤ tx.fee))))
      started =
          Yields-mono _ _ _
            (λ r.
              OnOk-mono _ _ r λ txs. All-mono _ txs λ tx h. rw h.at_time.scanned h.at_time.known)
            (Yields-query-now startable (λ ts. Unit {0}) Totals (Yields-Unit _ Keeps-now)
              (λ w h. All-HasTotal t₀ w.table h.holds.0 h.holds.1))
