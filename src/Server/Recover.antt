-- ===== src/Server/Recover.antt =====
-- server/server.go: ProcessRecoverTimeoutPendingTransfer, which takes rows that have been pending
-- for too long back to the status from which they are tried again.
pub mod Waits
pub mod Retries
pub mod Resumes
use c_bridge_node.Wire.{
  TransferStatus, locked, transfer_in_start, transfer_in_pending, confirm_pending, refund_pending,
}
use c_bridge_node.Transfer.{Transfer}
use c_bridge_node.Exec.{M, skip, or_skip, for_each, ◌>>=◌, ◌>>◌}
use c_bridge_node.Dal.{set_transfer_status_by_from}
use c_bridge_node.Dal.Queries.{
  get_recover_timeout_pending_transfer_in, get_recover_timeout_pending_confirm,
  get_recover_timeout_pending_refund,
}

unfoldable pub put_back : TransferStatus → TransferStatus → Transfer → M (Unit {0})
put_back to from tx = do set_transfer_status_by_from tx.transfer_id to from; skip

unfoldable pub process_recover_timeout_pending_transfer_in : M (Unit {0})
process_recover_timeout_pending_transfer_in = do
  transfers ← get_recover_timeout_pending_transfer_in
  or_skip transfers (for_each (put_back transfer_in_start transfer_in_pending))

unfoldable pub process_recover_timeout_pending_confirm : M (Unit {0})
process_recover_timeout_pending_confirm = do
  transfers ← get_recover_timeout_pending_confirm
  or_skip transfers (for_each (put_back locked confirm_pending))

unfoldable pub process_recover_timeout_pending_refund : M (Unit {0})
process_recover_timeout_pending_refund = do
  transfers ← get_recover_timeout_pending_refund
  or_skip transfers (for_each (put_back locked refund_pending))

-- One tick of the ticker.
unfoldable pub process_recover : M (Unit {0})
process_recover = do
  process_recover_timeout_pending_transfer_in
  process_recover_timeout_pending_confirm
  process_recover_timeout_pending_refund
