-- ===== src/Server/Refund.antt =====
-- server/server.go: processTryRefundTransferIn, which takes back a transfer in that ran out, unless
-- the transfer out that belongs to it was confirmed.
pub mod Settlements
pub mod Settles
use c_bridge_node.Base.{ℕ, Bool, true, false, ◌==◌, if◌then◌else◌}
use c_bridge_node.Base.Maps.{lookup, nat_eq}
use c_bridge_node.Wire.{locked, confirmed, refunded, refund_pending, same_status}
use c_bridge_node.Transfer.{Transfer}
use c_bridge_node.World.{World, Result, ok, err, TransferInfo}
use c_bridge_node.Exec.{M, pure, skip, or_skip, if_found, for_each, ◌>>=◌, ◌>>◌}
use c_bridge_node.Dal.{set_transfer_status_by_from, update_transfer_status}
use c_bridge_node.Dal.Queries.{get_all_refund_able_transfer_in, get_transfer_by_tid}
use c_bridge_node.Chain.{
  BridgeConfig, get_transfer, confirm, refund, remote_transfer_status_pending,
  remote_transfer_status_refunded, remote_transfer_status_confirmed,
}
use c_bridge_node.Server.{Server}

-- The transfer out is not known to be confirmed: its own chain is asked before the refund.
unfoldable pub refund_unless_confirmed : Server → BridgeConfig → Transfer → Transfer → M (Unit {0})
refund_unless_confirmed s bc tx related =
    if_found (lookup s.chain_map related.chain_id) λ transfer_out_bc. do
      remote_out ← get_transfer transfer_out_bc related.transfer_id
      or_skip remote_out λ out.
          if out.status == remote_transfer_status_confirmed
          then skip
          else do refund bc tx.transfer_id tx.related_tid tx.hash_lock; skip

unfoldable pub confirm_or_refund : Server → BridgeConfig → Transfer → Transfer → M (Unit {0})
confirm_or_refund s bc tx related =
    if same_status related.status confirmed
    then (do confirm bc tx.transfer_id related.transfer_id related.preimage tx.hash_lock; skip)
    else refund_unless_confirmed s bc tx related

-- Pending on the chain: the row is marked first, then the related transfer decides.
unfoldable pub settle : Server → BridgeConfig → Transfer → M (Unit {0})
settle s bc tx = do
  set_transfer_status_by_from tx.transfer_id refund_pending locked
  related ← get_transfer_by_tid tx.related_tid
  or_skip related.1 λ exist. if exist then confirm_or_refund s bc tx related.0 else skip

unfoldable pub try_refund : Server → Transfer → M (Unit {0})
try_refund s tx = if_found (lookup s.chain_map tx.chain_id) λ bc. do
  remote ← get_transfer bc tx.transfer_id
  or_skip remote λ info.
      if info.status == remote_transfer_status_pending
      then settle s bc tx
      else if info.status == remote_transfer_status_refunded
      then (do update_transfer_status tx.transfer_id refunded; skip)
      else skip

unfoldable pub process_try_refund_transfer_in : Server → M (Unit {0})
process_try_refund_transfer_in s = do
  refundable_transfer_in ← get_all_refund_able_transfer_in
  or_skip refundable_transfer_in (for_each (try_refund s))
