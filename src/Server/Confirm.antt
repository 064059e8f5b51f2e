-- ===== src/Server/Confirm.antt =====
-- server/server.go: processTryConfirmTransfer, which claims a transfer whose preimage is known.
pub mod Claims
pub mod Collects
use c_bridge_node.Base.{ℕ, ◌==◌, if◌then◌else◌}
use c_bridge_node.Base.Maps.{lookup, nat_eq}
use c_bridge_node.Wire.{locked, refunded, confirm_pending, zero_hash}
use c_bridge_node.Transfer.{Transfer}
use c_bridge_node.World.{World, Result, ok, err, TransferInfo}
use c_bridge_node.Exec.{M, pure, skip, or_skip, if_found, for_each, ◌>>=◌, ◌>>◌}
use c_bridge_node.Dal.{set_transfer_status_by_from, update_transfer_status, confirm_transfer}
use c_bridge_node.Dal.Queries.{get_all_confirmable_locked_transfer}
use c_bridge_node.Chain.{
  BridgeConfig, get_transfer, confirm, remote_transfer_status_pending,
  remote_transfer_status_refunded, remote_transfer_status_confirmed,
}
use c_bridge_node.Server.{Server}

-- Pending on the chain: the row is marked, and the transaction is sent even if that was refused.
unfoldable pub claim : BridgeConfig → Transfer → M (Unit {0})
claim bc tx = do
  set_transfer_status_by_from tx.transfer_id confirm_pending locked
  confirm bc tx.transfer_id tx.related_tid tx.preimage tx.hash_lock
  skip

unfoldable pub act_on_remote : BridgeConfig → Transfer → TransferInfo → M (Unit {0})
act_on_remote bc tx remote =
    if remote.status == remote_transfer_status_pending
    then claim bc tx
    else if remote.status == remote_transfer_status_refunded
    then (do update_transfer_status tx.transfer_id refunded; skip)
    else if remote.status == remote_transfer_status_confirmed
    then (do confirm_transfer tx.transfer_id tx.preimage zero_hash; skip)
    else skip

unfoldable pub try_confirm : Server → Transfer → M (Unit {0})
try_confirm s tx =
    if_found (lookup s.chain_map tx.chain_id)
      λ bc. do remote ← get_transfer bc tx.transfer_id; or_skip remote (act_on_remote bc tx)

unfoldable pub process_try_confirm_transfer : Server → M (Unit {0})
process_try_confirm_transfer s = do
  locked_transfer ← get_all_confirmable_locked_transfer
  or_skip locked_transfer (for_each (try_confirm s))
