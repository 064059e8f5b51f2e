-- ===== src/Node/Rows/Jobs.antt =====
-- The jobs (server/server.go) keep a predicate of rows that each change of a row keeps.
use c_bridge_node.Base.Int.{ℤ}
use c_bridge_node.Wire.{Hash}
use c_bridge_node.Transfer.{Row, Transfer}
use c_bridge_node.World.{Result, ok, err, Call}
use c_bridge_node.Exec.{M}
use c_bridge_node.Exec.Keeps.{Keeps, Keeps-pure, keeps_rules}
use c_bridge_node.Exec.Views.{On}
use c_bridge_node.Chain.{BridgeConfig, transact, transfer_in, confirm, refund}
use c_bridge_node.Chain.Keeps.{Keeps-get_transfer, Keeps-get_fee, Keeps-transact}
use c_bridge_node.Dal.Reads.{read_rules}
use c_bridge_node.Dal.Rows.{
  RowLaws, Rows, start-pending, start-locked, pending-start, locked-confirming, locked-refunding,
  confirming-locked, refunding-locked, Rows-confirm_transfer, Rows-refunded,
  Rows-set_transfer_in_amount_and_fee, Rows-set_pending_transfer_in,
  Rows-set_transfer_status_by_from,
}
use c_bridge_node.Server.{Server}
use c_bridge_node.Server.Send.{
  mark_existing, again, pay, send, charge, try_send, process_try_send_transfer_in,
}
use c_bridge_node.Server.Confirm.{claim, act_on_remote, try_confirm, process_try_confirm_transfer}
use c_bridge_node.Server.Refund.{
  refund_unless_confirmed, confirm_or_refund, settle, try_refund, process_try_refund_transfer_in,
}
use c_bridge_node.Server.Recover.{
  put_back, process_recover_timeout_pending_transfer_in, process_recover_timeout_pending_confirm,
  process_recover_timeout_pending_refund, process_recover,
}

module _ (P : Row → Type 0) (laws : RowLaws P) where
  transact-Rows :
      (bc : BridgeConfig) (tid : Hash) (call : Call) → Keeps (On (Rows P)) (transact bc tid call)
  unfolding Rows
  transact-Rows bc tid call = Keeps-transact bc tid call (λ env t s o v. v)

  again-Rows :
      (r : Result (Unit {0})) (m : M (Result (Unit {0})))
      → Keeps (On (Rows P)) m
      → Keeps (On (Rows P)) (again r m)
  unfolding again
  again-Rows (ok u) m h = Keeps-pure tt
  again-Rows (err e) m h = search keeps_rules

  send-Rows :
      (bc : BridgeConfig) (tx : Transfer) (amount fee : ℤ)
      → Keeps (On (Rows P)) (send bc tx amount fee)
  unfolding send pay transfer_in
  send-Rows bc tx amount fee =
      search
        (
          keeps_rules, Rows-set_transfer_in_amount_and_fee, transact-Rows, again-Rows,
          Rows-set_pending_transfer_in, start-pending,
        )
        depth 12

  charge-Rows : (bc : BridgeConfig) (tx : Transfer) → Keeps (On (Rows P)) (charge bc tx)
  unfolding charge
  charge-Rows bc tx = search (keeps_rules, Keeps-get_fee, send-Rows)

  try_send-Rows : (s : Server) (tx : Transfer) → Keeps (On (Rows P)) (try_send s tx)
  unfolding try_send mark_existing
  try_send-Rows s tx =
      search
        (
          keeps_rules, read_rules, Keeps-get_transfer, charge-Rows,
          Rows-set_transfer_status_by_from, start-locked,
        )
        depth 12

  pub process_try_send_transfer_in-Rows :
      (s : Server) → Keeps (On (Rows P)) (process_try_send_transfer_in s)
  unfolding process_try_send_transfer_in
  process_try_send_transfer_in-Rows s = search (keeps_rules, read_rules, try_send-Rows)

  claim-Rows : (bc : BridgeConfig) (tx : Transfer) → Keeps (On (Rows P)) (claim bc tx)
  unfolding claim confirm
  claim-Rows bc tx =
      search (keeps_rules, transact-Rows, Rows-set_transfer_status_by_from, locked-confirming)

  try_confirm-Rows : (s : Server) (tx : Transfer) → Keeps (On (Rows P)) (try_confirm s tx)
  unfolding try_confirm act_on_remote
  try_confirm-Rows s tx =
      search (keeps_rules, Keeps-get_transfer, claim-Rows, Rows-confirm_transfer, Rows-refunded)
        depth 12

  pub process_try_confirm_transfer-Rows :
      (s : Server) → Keeps (On (Rows P)) (process_try_confirm_transfer s)
  unfolding process_try_confirm_transfer
  process_try_confirm_transfer-Rows s = search (keeps_rules, read_rules, try_confirm-Rows)

  confirm_or_refund-Rows :
      (s : Server) (bc : BridgeConfig) (tx related : Transfer)
      → Keeps (On (Rows P)) (confirm_or_refund s bc tx related)
  unfolding confirm_or_refund refund_unless_confirmed confirm refund
  confirm_or_refund-Rows s bc tx related =
      search (keeps_rules, Keeps-get_transfer, transact-Rows) depth 9

  settle-Rows :
      (s : Server) (bc : BridgeConfig) (tx : Transfer) → Keeps (On (Rows P)) (settle s bc tx)
  unfolding settle
  settle-Rows s bc tx =
      search
        (
          keeps_rules, read_rules, confirm_or_refund-Rows, Rows-set_transfer_status_by_from,
          locked-refunding,
        )
        depth 9

  try_refund-Rows : (s : Server) (tx : Transfer) → Keeps (On (Rows P)) (try_refund s tx)
  unfolding try_refund
  try_refund-Rows s tx =
      search (keeps_rules, Keeps-get_transfer, settle-Rows, Rows-refunded) depth 9

  pub process_try_refund_transfer_in-Rows :
      (s : Server) → Keeps (On (Rows P)) (process_try_refund_transfer_in s)
  unfolding process_try_refund_transfer_in
  process_try_refund_transfer_in-Rows s = search (keeps_rules, read_rules, try_refund-Rows)

  pub process_recover-Rows : Keeps (On (Rows P)) process_recover
  unfolding process_recover process_recover_timeout_pending_transfer_in
      process_recover_timeout_pending_confirm process_recover_timeout_pending_refund put_back
  process_recover-Rows =
      search
        (
          keeps_rules, read_rules, Rows-set_transfer_status_by_from, pending-start,
          confirming-locked, refunding-locked,
        )
        depth 12
