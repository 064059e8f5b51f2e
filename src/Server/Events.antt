-- ===== src/Server/Events.antt =====
-- server/server.go: the callbacks of monitorLogTransferIn, monitorLogConfirm and monitorLogRefund.
-- The value is whether the monitor delivers the event again; a log that cannot be parsed (`none`)
-- is not asked for again.
pub mod Claimable
use c_bridge_node.Base.{ℕ, Bool, true, false, not, Option, none, some, ◌==◌, if◌then◌else◌}
use c_bridge_node.Wire.{Hash, Addr}
use c_bridge_node.World.{Result, ok, err}
use c_bridge_node.Exec.{M, pure, ◌>>=◌}
use c_bridge_node.Dal.{
  record_transfer_in, confirm_transfer, set_related_tx_preimage, refund_transfer,
}
use c_bridge_node.Server.{Server}

-- The events of contracts/cbridge.go, without the raw log.
pub record LogNewTransferIn : Type 0 where
  pub transfer_id : Hash
  pub sender : Addr
  pub receiver : Addr
  pub token : Addr
  pub amount : ℕ
  pub hashlock : Hash
  pub timelock : ℕ
  pub src_chain_id : ℕ
  pub src_transfer_id : Hash

pub record LogTransferConfirmed : Type 0 where
  pub transfer_id : Hash
  pub preimage : Hash

pub record LogTransferRefunded : Type 0 where
  pub transfer_id : Hash

-- `if dbErr != nil { return true }`, then what follows
unfoldable pub unless_failed : Result (Unit {0}) → M Bool → M Bool
unless_failed (ok u) next = next
unless_failed (err e) next = pure true

unfoldable pub on_transfer_in : Server → LogNewTransferIn → Hash → M Bool
on_transfer_in s ev tx_hash =
    if not (ev.sender == s.account_addr)
    then pure false
    else do done ← record_transfer_in ev.transfer_id tx_hash; unless_failed done (pure false)

unfoldable pub on_confirm : LogTransferConfirmed → Hash → M Bool
on_confirm ev tx_hash = do
  done ← confirm_transfer ev.transfer_id ev.preimage tx_hash
  unless_failed done
      (do set ← set_related_tx_preimage ev.preimage ev.transfer_id; unless_failed set (pure false))

unfoldable pub on_refund : LogTransferRefunded → Hash → M Bool
on_refund ev tx_hash = do
  done ← refund_transfer ev.transfer_id tx_hash
  unless_failed done (pure false)

unfoldable pub if_parsed {ℓ} : {A : Type ℓ} → Option A → (A → M Bool) → M Bool
if_parsed none f = pure false
if_parsed (some a) f = f a

unfoldable pub monitor_log_transfer_in : Server → Option LogNewTransferIn → Hash → M Bool
monitor_log_transfer_in s parsed tx_hash = if_parsed parsed λ ev. on_transfer_in s ev tx_hash

unfoldable pub monitor_log_confirm : Option LogTransferConfirmed → Hash → M Bool
monitor_log_confirm parsed tx_hash = if_parsed parsed λ ev. on_confirm ev tx_hash

unfoldable pub monitor_log_refund : Option LogTransferRefunded → Hash → M Bool
monitor_log_refund parsed tx_hash = if_parsed parsed λ ev. on_refund ev tx_hash
