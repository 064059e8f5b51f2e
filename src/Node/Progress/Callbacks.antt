-- ===== src/Node/Progress/Callbacks.antt =====
-- The monitors' callbacks keep the rows' identities and the direction of their status.
use c_bridge_node.Base.{ℕ, Option, List}
use c_bridge_node.Wire.{Hash, Addr}
use c_bridge_node.Transfer.{Row, Time}
use c_bridge_node.Exec.Keeps.{Keeps}
use c_bridge_node.Exec.Views.{On}
use c_bridge_node.Chain.{BridgeConfig}
use c_bridge_node.Dal.Statements.{
  Progressed, Progressed-insert_transfer, Progressed-set_related_tx_preimage,
  Progressed-confirm_transfer, Progressed-refund_transfer, Progressed-record_transfer_in,
}
use c_bridge_node.Server.{Server}
use c_bridge_node.Server.Callbacks.{callback_rules}
use c_bridge_node.Server.TransferOut.{
  LogNewTransferOut, get_transfer_id, plan_transfer_in, save_transfers, convert_and_save,
  on_transfer_out, monitor_log_transfer_out,
}
use c_bridge_node.Server.Events.{
  LogNewTransferIn, LogTransferConfirmed, LogTransferRefunded, on_transfer_in, on_confirm,
  on_refund, monitor_log_transfer_in, monitor_log_confirm, monitor_log_refund,
}

module _ (t₀ : List Row) where
  pub monitor_log_transfer_in-Progressed :
      (s : Server) (parsed : Option LogNewTransferIn) (tx_hash : Hash)
      → Keeps (On (Progressed t₀)) (monitor_log_transfer_in s parsed tx_hash)
  unfolding monitor_log_transfer_in on_transfer_in
  monitor_log_transfer_in-Progressed s parsed tx_hash =
      search (callback_rules, Progressed-record_transfer_in) depth 9

  pub monitor_log_confirm-Progressed :
      (parsed : Option LogTransferConfirmed) (tx_hash : Hash)
      → Keeps (On (Progressed t₀)) (monitor_log_confirm parsed tx_hash)
  unfolding monitor_log_confirm on_confirm
  monitor_log_confirm-Progressed parsed tx_hash =
      search (callback_rules, Progressed-confirm_transfer, Progressed-set_related_tx_preimage) depth
        9

  pub monitor_log_refund-Progressed :
      (parsed : Option LogTransferRefunded) (tx_hash : Hash)
      → Keeps (On (Progressed t₀)) (monitor_log_refund parsed tx_hash)
  unfolding monitor_log_refund on_refund
  monitor_log_refund-Progressed parsed tx_hash =
      search (callback_rules, Progressed-refund_transfer) depth 9

  save_transfers-Progressed :
      (bc : BridgeConfig) (ev : LogNewTransferOut) (tx_hash : Hash) (dst_token : Addr)
      (dst_amount : ℕ) (ts_now : Time)
      → Keeps (On (Progressed t₀)) (save_transfers bc ev tx_hash dst_token dst_amount ts_now)
  unfolding save_transfers plan_transfer_in get_transfer_id
  save_transfers-Progressed bc ev tx_hash dst_token dst_amount ts_now =
      search (callback_rules, Progressed-insert_transfer) depth 12

  pub monitor_log_transfer_out-Progressed :
      (s : Server) (bc : BridgeConfig) (parsed : Option LogNewTransferOut) (tx_hash : Hash)
      → Keeps (On (Progressed t₀)) (monitor_log_transfer_out s bc parsed tx_hash)
  unfolding monitor_log_transfer_out on_transfer_out convert_and_save
  monitor_log_transfer_out-Progressed s bc parsed tx_hash =
      search (callback_rules, save_transfers-Progressed) depth 15
