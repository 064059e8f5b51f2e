-- ===== src/Server/Send.antt =====
-- server/server.go: processTrySendTransferIn, which pays the receiver of a transfer in.
pub mod Payments
pub mod Pays
pub mod Paid
use c_bridge_node.Base.{ℕ, ◌*◌, Bool, true, false, not, ◌==◌, if◌then◌else◌}
use c_bridge_node.Base.Int.{ℤ, pos, ◌+ℤ◌, ◌-ℤ◌, ltb_ℤ, to_uint64}
use c_bridge_node.Base.Maps.{lookup, nat_eq}
use c_bridge_node.Wire.{locked, transfer_in_start, transfer_in_pending}
use c_bridge_node.Transfer.{Transfer, unix, minute, seconds}
use c_bridge_node.World.{World, Result, ok, err, TransferInfo}
use c_bridge_node.Exec.{M, pure, skip, or_skip, if_found, for_each, ◌>>=◌, ◌>>◌}
use c_bridge_node.Dal.{
  now, set_transfer_in_amount_and_fee, set_pending_transfer_in, set_transfer_status_by_from,
}
use c_bridge_node.Dal.Queries.{get_all_start_transfer_in}
use c_bridge_node.Gateway.{get_fee}
use c_bridge_node.Chain.{
  BridgeConfig, get_transfer, transfer_in, remote_transfer_status_undefined,
  remote_transfer_status_pending,
}
use c_bridge_node.Server.{Server}

-- The contract already has the transfer: if it is pending there, its row is locked.
unfoldable pub mark_existing : Transfer → TransferInfo → M (Unit {0})
mark_existing tx remote =
    if remote.status == remote_transfer_status_pending
    then (do set_transfer_status_by_from tx.transfer_id locked transfer_in_start; skip)
    else skip

-- A second try of the transaction if the first returned an error (after a sleep of six seconds).
unfoldable pub again : Result (Unit {0}) → M (Result (Unit {0})) → M (Unit {0})
again (ok u) retry = skip
again (err e) retry = do retry; skip

unfoldable pub pay : BridgeConfig → Transfer → ℤ → M (Result (Unit {0}))
pay bc tx new_amount =
    transfer_in bc tx.receiver tx.token new_amount tx.hash_lock tx.transfer_id tx.related_tid
      (to_uint64 (unix tx.time_lock)) tx.related_chain_id

-- The fee is known, and at most the amount: record both, mark the row pending, and send.
unfoldable pub send : BridgeConfig → Transfer → ℤ → ℤ → M (Unit {0})
send bc tx new_amount final_fee = do
  set ← set_transfer_in_amount_and_fee tx.transfer_id new_amount final_fee
  or_skip set λ _. do
    pending ← set_pending_transfer_in tx.transfer_id transfer_in_pending transfer_in_start
    or_skip pending λ _. do sent ← pay bc tx new_amount; again sent (pay bc tx new_amount)

unfoldable pub charge : BridgeConfig → Transfer → M (Unit {0})
charge bc tx = do
  let origin_amt = tx.amount +ℤ tx.fee
  fee ← get_fee tx.related_tid
  or_skip fee λ final_fee.
      if ltb_ℤ origin_amt final_fee then skip else send bc tx (origin_amt -ℤ final_fee) final_fee

unfoldable pub try_send : Server → Transfer → M (Unit {0})
try_send s tx = if_found (lookup s.chain_map tx.chain_id) λ bc. do
  ts_now ← now
  if ltb_ℤ (tx.time_lock -ℤ pos (6 * minute)) ts_now then skip else do
    remote ← get_transfer bc tx.transfer_id
    or_skip remote λ info.
        if not (info.status == remote_transfer_status_undefined)
        then mark_existing tx info
        else charge bc tx

unfoldable pub process_try_send_transfer_in : Server → M (Unit {0})
process_try_send_transfer_in s = do
  started ← get_all_start_transfer_in
  or_skip started (for_each (try_send s))
