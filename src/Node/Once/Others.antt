-- ===== src/Node/Once/Others.antt =====
-- Callbacks, pages, ping, and the confirming and refunding jobs neither pay nor put a row back: each
-- of their effects keeps every phase of the paying of a transfer.
use c_bridge_node.Base.{ℕ, Option}
use c_bridge_node.Wire.{Hash, Addr}
use c_bridge_node.Transfer.{Time, Transfer}
use c_bridge_node.World.{TransferInfo}
use c_bridge_node.Exec.Steps.{Steps, steps_rules}
use c_bridge_node.Chain.{BridgeConfig}
use c_bridge_node.Server.{Server}
use c_bridge_node.Server.TransferOut.{
  LogNewTransferOut, get_transfer_id, plan_transfer_in, save_transfers, convert_and_save,
  on_transfer_out, monitor_log_transfer_out,
}
use c_bridge_node.Server.Events.{
  LogNewTransferIn, LogTransferConfirmed, LogTransferRefunded, on_transfer_in, on_confirm,
  on_refund, monitor_log_transfer_in, monitor_log_confirm, monitor_log_refund,
}
use c_bridge_node.Server.Confirm.{claim, act_on_remote, try_confirm, process_try_confirm_transfer}
use c_bridge_node.Server.Refund.{
  refund_unless_confirmed, confirm_or_refund, settle, try_refund, process_try_refund_transfer_in,
}
use c_bridge_node.Node.{
  Event, ping_tick, send_tick, confirm_tick, refund_tick, recover_tick, transfer_out_log,
  transfer_in_log, confirm_log, refund_log, summary_request, transfer_request, handle,
}
use c_bridge_node.Node.Once.Quiet.{
  ping_and_refresh_fee-Steps, get_total_summary-Steps, get_transfer_page-Steps,
}
use c_bridge_node.Node.Once.Calm.{Steady, calm_rules}

-- Any event but the ticks of the paying and of the recovering job.
abbrev pub IsOther : Event → Type 0
IsOther send_tick = ⊥
IsOther recover_tick = ⊥
IsOther ping_tick = Unit
IsOther confirm_tick = Unit
IsOther refund_tick = Unit
IsOther (transfer_out_log bc parsed tx_hash) = Unit
IsOther (transfer_in_log parsed tx_hash) = Unit
IsOther (confirm_log parsed tx_hash) = Unit
IsOther (refund_log parsed tx_hash) = Unit
IsOther (summary_request addr_string) = Unit
IsOther (transfer_request limit) = Unit

module _ (tid : Hash) (k : ℕ) where
  act_on_remote-Steps :
      (bc : BridgeConfig) (tx : Transfer) (remote : TransferInfo)
      → Steps (Steady tid k) (act_on_remote bc tx remote)
  unfolding act_on_remote claim
  act_on_remote-Steps bc tx remote = search calm_rules depth 12

  try_confirm-Steps : (s : Server) (tx : Transfer) → Steps (Steady tid k) (try_confirm s tx)
  unfolding try_confirm
  try_confirm-Steps s tx = search (calm_rules, act_on_remote-Steps) depth 9

  confirming-Steps : (s : Server) → Steps (Steady tid k) (process_try_confirm_transfer s)
  unfolding process_try_confirm_transfer
  confirming-Steps s = search (calm_rules, try_confirm-Steps)

  confirm_or_refund-Steps :
      (s : Server) (bc : BridgeConfig) (tx related : Transfer)
      → Steps (Steady tid k) (confirm_or_refund s bc tx related)
  unfolding confirm_or_refund refund_unless_confirmed
  confirm_or_refund-Steps s bc tx related = search calm_rules depth 12

  try_refund-Steps : (s : Server) (tx : Transfer) → Steps (Steady tid k) (try_refund s tx)
  unfolding try_refund settle
  try_refund-Steps s tx = search (calm_rules, confirm_or_refund-Steps) depth 14

  refunding-Steps : (s : Server) → Steps (Steady tid k) (process_try_refund_transfer_in s)
  unfolding process_try_refund_transfer_in
  refunding-Steps s = search (calm_rules, try_refund-Steps)

  on_transfer_in-Steps :
      (s : Server) (parsed : Option LogNewTransferIn) (tx_hash : Hash)
      → Steps (Steady tid k) (monitor_log_transfer_in s parsed tx_hash)
  unfolding monitor_log_transfer_in on_transfer_in
  on_transfer_in-Steps s parsed tx_hash = search calm_rules depth 9

  on_confirm-Steps :
      (parsed : Option LogTransferConfirmed) (tx_hash : Hash)
      → Steps (Steady tid k) (monitor_log_confirm parsed tx_hash)
  unfolding monitor_log_confirm on_confirm
  on_confirm-Steps parsed tx_hash = search calm_rules depth 9

  on_refund-Steps :
      (parsed : Option LogTransferRefunded) (tx_hash : Hash)
      → Steps (Steady tid k) (monitor_log_refund parsed tx_hash)
  unfolding monitor_log_refund on_refund
  on_refund-Steps parsed tx_hash = search calm_rules depth 9

  save_transfers-Steps :
      (bc : BridgeConfig) (ev : LogNewTransferOut) (tx_hash : Hash) (dst_token : Addr)
      (dst_amount : ℕ) (ts_now : Time)
      → Steps (Steady tid k) (save_transfers bc ev tx_hash dst_token dst_amount ts_now)
  unfolding save_transfers plan_transfer_in get_transfer_id
  save_transfers-Steps bc ev tx_hash dst_token dst_amount ts_now = search calm_rules depth 12

  on_transfer_out-Steps :
      (s : Server) (bc : BridgeConfig) (parsed : Option LogNewTransferOut) (tx_hash : Hash)
      → Steps (Steady tid k) (monitor_log_transfer_out s bc parsed tx_hash)
  unfolding monitor_log_transfer_out on_transfer_out convert_and_save
  on_transfer_out-Steps s bc parsed tx_hash = search (calm_rules, save_transfers-Steps) depth 15

  pub other-Steps : (s : Server) (e : Event) → IsOther e → Steps (Steady tid k) (handle s e)
  unfolding handle
  other-Steps s send_tick other = absurd other
  other-Steps s recover_tick other = absurd other
  other-Steps s ping_tick other = search (steps_rules, ping_and_refresh_fee-Steps)
  other-Steps s confirm_tick other = confirming-Steps s
  other-Steps s refund_tick other = refunding-Steps s
  other-Steps s (transfer_out_log bc parsed h) other = search (steps_rules, on_transfer_out-Steps)
  other-Steps s (transfer_in_log parsed h) other = search (steps_rules, on_transfer_in-Steps)
  other-Steps s (confirm_log parsed h) other = search (steps_rules, on_confirm-Steps)
  other-Steps s (refund_log parsed h) other = search (steps_rules, on_refund-Steps)
  other-Steps s (summary_request addr_string) other = search (steps_rules, get_total_summary-Steps)
  other-Steps s (transfer_request limit) other = search (steps_rules, get_transfer_page-Steps)
