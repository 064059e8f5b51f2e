-- ===== src/Node/Rows/Callbacks.antt =====
-- The callbacks (server/server.go) keep a predicate of rows that each change of a row keeps, and that
-- each new row has.
use c_bridge_node.Base.{ℕ, Option}
use c_bridge_node.Wire.{Hash, Addr}
use c_bridge_node.Transfer.{Row, Time}
use c_bridge_node.Exec.Keeps.{Keeps}
use c_bridge_node.Exec.Views.{On}
use c_bridge_node.Chain.{BridgeConfig}
use c_bridge_node.Dal.{row_of, insert_transfer}
use c_bridge_node.Dal.Rows.{
  RowLaws, Rows, Rows-insert_transfer, Rows-set_related_tx_preimage, Rows-confirm_transfer,
  Rows-refund_transfer, Rows-record_transfer_in,
}
use c_bridge_node.Server.{Server}
use c_bridge_node.Server.Callbacks.{callback_rules}
use c_bridge_node.Server.TransferOut.{
  LogNewTransferOut, transfer_out_of, transfer_in_of, get_transfer_id, plan_transfer_in,
  save_transfers, convert_and_save, on_transfer_out, monitor_log_transfer_out,
}
use c_bridge_node.Server.Events.{
  LogNewTransferIn, LogTransferConfirmed, LogTransferRefunded, on_transfer_in, on_confirm,
  on_refund, monitor_log_transfer_in, monitor_log_confirm, monitor_log_refund,
}

-- `P` holds of the rows that are planned for a transfer out.
pub record NewRows (P : Row → Type 0) : Type 0 where
  pub new_out :
      (bc : BridgeConfig) (ev : LogNewTransferOut) (tx_hash : Hash) (token : Addr) (related : Hash)
      (ts ts' : Time)
      → P (row_of ts' (transfer_out_of bc ev tx_hash token related ts))
  pub new_in :
      (bc : BridgeConfig) (ev : LogNewTransferOut) (token : Addr) (amount : ℕ) (tid : Hash)
      (time_lock ts ts' : Time)
      → P (row_of ts' (transfer_in_of bc ev token amount tid time_lock ts))

module _ (P : Row → Type 0) (laws : RowLaws P) (new : NewRows P) where
  pub monitor_log_transfer_in-Rows :
      (s : Server) (parsed : Option LogNewTransferIn) (tx_hash : Hash)
      → Keeps (On (Rows P)) (monitor_log_transfer_in s parsed tx_hash)
  unfolding monitor_log_transfer_in on_transfer_in
  monitor_log_transfer_in-Rows s parsed tx_hash =
      search (callback_rules, Rows-record_transfer_in) depth 9

  pub monitor_log_confirm-Rows :
      (parsed : Option LogTransferConfirmed) (tx_hash : Hash)
      → Keeps (On (Rows P)) (monitor_log_confirm parsed tx_hash)
  unfolding monitor_log_confirm on_confirm
  monitor_log_confirm-Rows parsed tx_hash =
      search (callback_rules, Rows-confirm_transfer, Rows-set_related_tx_preimage) depth 9

  pub monitor_log_refund-Rows :
      (parsed : Option LogTransferRefunded) (tx_hash : Hash)
      → Keeps (On (Rows P)) (monitor_log_refund parsed tx_hash)
  unfolding monitor_log_refund on_refund
  monitor_log_refund-Rows parsed tx_hash = search (callback_rules, Rows-refund_transfer) depth 9

  insert_out-Rows :
      (bc : BridgeConfig) (ev : LogNewTransferOut) (tx_hash : Hash) (token : Addr) (related : Hash)
      (ts : Time)
      → Keeps (On (Rows P)) (insert_transfer (transfer_out_of bc ev tx_hash token related ts))
  insert_out-Rows bc ev tx_hash token related ts =
      Rows-insert_transfer P laws _ (new.new_out bc ev tx_hash token related ts)

  insert_in-Rows :
      (bc : BridgeConfig) (ev : LogNewTransferOut) (token : Addr) (amount : ℕ) (tid : Hash)
      (time_lock ts : Time)
      → Keeps (On (Rows P)) (insert_transfer (transfer_in_of bc ev token amount tid time_lock ts))
  insert_in-Rows bc ev token amount tid time_lock ts =
      Rows-insert_transfer P laws _ (new.new_in bc ev token amount tid time_lock ts)

  save_transfers-Rows :
      (bc : BridgeConfig) (ev : LogNewTransferOut) (tx_hash : Hash) (dst_token : Addr)
      (dst_amount : ℕ) (ts_now : Time)
      → Keeps (On (Rows P)) (save_transfers bc ev tx_hash dst_token dst_amount ts_now)
  unfolding save_transfers plan_transfer_in get_transfer_id
  save_transfers-Rows bc ev tx_hash dst_token dst_amount ts_now =
      search (callback_rules, insert_out-Rows, insert_in-Rows) depth 12

  pub monitor_log_transfer_out-Rows :
      (s : Server) (bc : BridgeConfig) (parsed : Option LogNewTransferOut) (tx_hash : Hash)
      → Keeps (On (Rows P)) (monitor_log_transfer_out s bc parsed tx_hash)
  unfolding monitor_log_transfer_out on_transfer_out convert_and_save
  monitor_log_transfer_out-Rows s bc parsed tx_hash =
      search (callback_rules, save_transfers-Rows) depth 15
