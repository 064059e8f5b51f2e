-- ===== src/Node/Threads/Quiet.antt =====
-- The callbacks and the recovering job (server/server.go) send no transactions.
use c_bridge_node.Base.{ℕ, Option, List}
use c_bridge_node.Wire.{Hash, Addr}
use c_bridge_node.Transfer.{Time}
use c_bridge_node.World.{Env, Sent}
use c_bridge_node.Exec.Keeps.{Keeps, keeps_rules}
use c_bridge_node.Exec.Views.{On}
use c_bridge_node.Dal.Reads.{read_rules}
use c_bridge_node.Chain.{BridgeConfig}
use c_bridge_node.Chain.Sends.{Sending, sending_rules}
use c_bridge_node.Server.{Server}
use c_bridge_node.Server.Callbacks.{callback_rules}
use c_bridge_node.Server.TransferOut.{
  LogNewTransferOut, get_transfer_id, plan_transfer_in, save_transfers, convert_and_save,
  on_transfer_out, monitor_log_transfer_out,
}
use c_bridge_node.Server.Events.{
  LogNewTransferIn, LogTransferConfirmed, LogTransferRefunded, on_transfer_in, on_confirm,
  on_refund, monitor_log_transfer_in, monitor_log_confirm, monitor_log_refund,
}
use c_bridge_node.Server.Recover.{
  put_back, process_recover_timeout_pending_transfer_in, process_recover_timeout_pending_confirm,
  process_recover_timeout_pending_refund, process_recover,
}

module _ (e : Env) (s₀ : List Sent) (G : Sent → Type 0) where
  pub monitor_log_transfer_in-Sending :
      (s : Server) (parsed : Option LogNewTransferIn) (tx_hash : Hash)
      → Keeps (On (Sending e s₀ G)) (monitor_log_transfer_in s parsed tx_hash)
  unfolding monitor_log_transfer_in on_transfer_in
  monitor_log_transfer_in-Sending s parsed tx_hash = search (callback_rules, sending_rules) depth 9

  pub monitor_log_confirm-Sending :
      (parsed : Option LogTransferConfirmed) (tx_hash : Hash)
      → Keeps (On (Sending e s₀ G)) (monitor_log_confirm parsed tx_hash)
  unfolding monitor_log_confirm on_confirm
  monitor_log_confirm-Sending parsed tx_hash = search (callback_rules, sending_rules) depth 9

  pub monitor_log_refund-Sending :
      (parsed : Option LogTransferRefunded) (tx_hash : Hash)
      → Keeps (On (Sending e s₀ G)) (monitor_log_refund parsed tx_hash)
  unfolding monitor_log_refund on_refund
  monitor_log_refund-Sending parsed tx_hash = search (callback_rules, sending_rules) depth 9

  save_transfers-Sending :
      (bc : BridgeConfig) (ev : LogNewTransferOut) (tx_hash : Hash) (dst_token : Addr)
      (dst_amount : ℕ) (ts_now : Time)
      → Keeps (On (Sending e s₀ G)) (save_transfers bc ev tx_hash dst_token dst_amount ts_now)
  unfolding save_transfers plan_transfer_in get_transfer_id
  save_transfers-Sending bc ev tx_hash dst_token dst_amount ts_now =
      search (callback_rules, sending_rules) depth 12

  pub monitor_log_transfer_out-Sending :
      (s : Server) (bc : BridgeConfig) (parsed : Option LogNewTransferOut) (tx_hash : Hash)
      → Keeps (On (Sending e s₀ G)) (monitor_log_transfer_out s bc parsed tx_hash)
  unfolding monitor_log_transfer_out on_transfer_out convert_and_save
  monitor_log_transfer_out-Sending s bc parsed tx_hash =
      search (callback_rules, save_transfers-Sending) depth 15

  pub process_recover-Sending : Keeps (On (Sending e s₀ G)) process_recover
  unfolding process_recover process_recover_timeout_pending_transfer_in
      process_recover_timeout_pending_confirm process_recover_timeout_pending_refund put_back
  process_recover-Sending = search (keeps_rules, read_rules, sending_rules) depth 12
