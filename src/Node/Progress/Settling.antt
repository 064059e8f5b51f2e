-- ===== src/Node/Progress/Settling.antt =====
-- The confirming, refunding and recovering jobs keep the rows' identities and the direction of
-- their status.
use c_bridge_node.Base.{◌≤◌, List, arith}
use c_bridge_node.Wire.{
  Hash, TransferStatus, locked, transfer_in_start, transfer_in_pending, confirm_pending,
  refund_pending,
}
use c_bridge_node.Transfer.{Row, Transfer}
use c_bridge_node.World.{TransferInfo}
use c_bridge_node.Chain.{BridgeConfig, confirm, refund}
use c_bridge_node.Chain.Keeps.{Keeps-get_transfer}
use c_bridge_node.Exec.{skip}
use c_bridge_node.Exec.Keeps.{Keeps, Keeps-pure, Keeps-bind, keeps_rules}
use c_bridge_node.Exec.Views.{On}
use c_bridge_node.Dal.{set_transfer_status_by_from}
use c_bridge_node.Dal.Reads.{read_rules}
use c_bridge_node.Dal.Evolution.{stage}
use c_bridge_node.Dal.Statements.{
  Progressed, Progressed-confirm_transfer, Progressed-set_transfer_status_by_from,
}
use c_bridge_node.Node.Progress.Sending.{
  locked-confirm_pending, locked-refund_pending, any-refunded, transact-Progressed,
}
use c_bridge_node.Server.{Server}
use c_bridge_node.Server.Confirm.{claim, act_on_remote, try_confirm, process_try_confirm_transfer}
use c_bridge_node.Server.Refund.{
  refund_unless_confirmed, confirm_or_refund, settle, try_refund, process_try_refund_transfer_in,
}
use c_bridge_node.Server.Recover.{
  put_back, process_recover_timeout_pending_transfer_in, process_recover_timeout_pending_confirm,
  process_recover_timeout_pending_refund, process_recover,
}

module _ (t₀ : List Row) where
  send_confirm-Progressed :
      (bc : BridgeConfig) (a b c d : Hash) → Keeps (On (Progressed t₀)) (confirm bc a b c d)
  unfolding confirm
  send_confirm-Progressed bc a b c d = transact-Progressed t₀ bc _ _

  send_refund-Progressed :
      (bc : BridgeConfig) (a b c : Hash) → Keeps (On (Progressed t₀)) (refund bc a b c)
  unfolding refund
  send_refund-Progressed bc a b c = transact-Progressed t₀ bc _ _

  claim-Progressed : (bc : BridgeConfig) (tx : Transfer) → Keeps (On (Progressed t₀)) (claim bc tx)
  unfolding claim
  claim-Progressed bc tx = search (keeps_rules, send_confirm-Progressed, locked-confirm_pending)

  act_on_remote-Progressed :
      (bc : BridgeConfig) (tx : Transfer) (remote : TransferInfo)
      → Keeps (On (Progressed t₀)) (act_on_remote bc tx remote)
  unfolding act_on_remote
  act_on_remote-Progressed bc tx remote =
      search (keeps_rules, claim-Progressed, Progressed-confirm_transfer, any-refunded)

  pub try_confirm-Progressed :
      (s : Server) (tx : Transfer) → Keeps (On (Progressed t₀)) (try_confirm s tx)
  unfolding try_confirm
  try_confirm-Progressed s tx =
      search (keeps_rules, Keeps-get_transfer, act_on_remote-Progressed) depth 9

  pub process_try_confirm_transfer-Progressed :
      (s : Server) → Keeps (On (Progressed t₀)) (process_try_confirm_transfer s)
  unfolding process_try_confirm_transfer
  process_try_confirm_transfer-Progressed s =
      search (keeps_rules, read_rules, try_confirm-Progressed)

  confirm_or_refund-Progressed :
      (s : Server) (bc : BridgeConfig) (tx related : Transfer)
      → Keeps (On (Progressed t₀)) (confirm_or_refund s bc tx related)
  unfolding confirm_or_refund refund_unless_confirmed
  confirm_or_refund-Progressed s bc tx related =
      search (keeps_rules, Keeps-get_transfer, send_confirm-Progressed, send_refund-Progressed)
        depth 9

  settle-Progressed :
      (s : Server) (bc : BridgeConfig) (tx : Transfer) → Keeps (On (Progressed t₀)) (settle s bc tx)
  unfolding settle
  settle-Progressed s bc tx =
      search (keeps_rules, read_rules, confirm_or_refund-Progressed, locked-refund_pending)

  pub try_refund-Progressed :
      (s : Server) (tx : Transfer) → Keeps (On (Progressed t₀)) (try_refund s tx)
  unfolding try_refund
  try_refund-Progressed s tx =
      search (keeps_rules, Keeps-get_transfer, settle-Progressed, any-refunded) depth 9

  pub process_try_refund_transfer_in-Progressed :
      (s : Server) → Keeps (On (Progressed t₀)) (process_try_refund_transfer_in s)
  unfolding process_try_refund_transfer_in
  process_try_refund_transfer_in-Progressed s =
      search (keeps_rules, read_rules, try_refund-Progressed)

  put_back-Progressed :
      (to from : TransferStatus) (tx : Transfer)
      → stage from ≤ stage to
      → Keeps (On (Progressed t₀)) (put_back to from tx)
  unfolding put_back
  put_back-Progressed to from tx h =
      Keeps-bind (set_transfer_status_by_from tx.transfer_id to from) (λ _. skip)
        (Progressed-set_transfer_status_by_from t₀ tx.transfer_id to from h) (λ _. Keeps-pure tt)

  put_back-transfer_in_pending :
      (tx : Transfer)
      → Keeps (On (Progressed t₀)) (put_back transfer_in_start transfer_in_pending tx)
  put_back-transfer_in_pending tx =
      put_back-Progressed transfer_in_start transfer_in_pending tx (omega arith)

  put_back-confirm_pending :
      (tx : Transfer) → Keeps (On (Progressed t₀)) (put_back locked confirm_pending tx)
  put_back-confirm_pending tx = put_back-Progressed locked confirm_pending tx (omega arith)

  put_back-refund_pending :
      (tx : Transfer) → Keeps (On (Progressed t₀)) (put_back locked refund_pending tx)
  put_back-refund_pending tx = put_back-Progressed locked refund_pending tx (omega arith)

  pub process_recover-Progressed : Keeps (On (Progressed t₀)) process_recover
  unfolding process_recover process_recover_timeout_pending_transfer_in
      process_recover_timeout_pending_confirm process_recover_timeout_pending_refund
  process_recover-Progressed =
      search
        (
          keeps_rules, read_rules, put_back-transfer_in_pending, put_back-confirm_pending,
          put_back-refund_pending,
        )
        depth 9
