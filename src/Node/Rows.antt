-- ===== src/Node/Rows.antt =====
-- A predicate of rows that each change of a row keeps (Dal/Rows), and that each new row has, is kept by
-- every handler of the node.
pub mod Jobs
pub mod Callbacks
use c_bridge_node.Base.{ℕ, Option, none, some, List}
use c_bridge_node.Base.Int.{ℤ}
use c_bridge_node.Base.Lists.{All}
use c_bridge_node.Wire.{Hash, Addr, locked, confirm_pending, refund_pending}
use c_bridge_node.Transfer.{Row, Transfer, Time}
use c_bridge_node.World.{World, Result, ok, err, Call, TransferInfo}
use c_bridge_node.Exec.{M}
use c_bridge_node.Exec.Keeps.{Keeps, Keeps-pure, keeps_rules}
use c_bridge_node.Exec.Views.{On}
use c_bridge_node.Exec.Threads.{Pool, AllKeep, Turn-keeps}
use c_bridge_node.Chain.{BridgeConfig, transact, transfer_in, confirm, refund}
use c_bridge_node.Chain.Keeps.{Keeps-get_transfer, Keeps-get_fee, Keeps-transact}
use c_bridge_node.Dal.{row_of, insert_transfer}
use c_bridge_node.Dal.Queries.{get_all_start_transfer_in}
use c_bridge_node.Dal.Reads.{read_rules}
use c_bridge_node.Dal.Rows.{
  RowLaws, Rows, start-pending, start-locked, pending-start, locked-confirming, locked-refunding,
  confirming-locked, refunding-locked, Rows-insert_transfer, Rows-set_related_tx_preimage,
  Rows-confirm_transfer, Rows-refund_transfer, Rows-record_transfer_in, Rows-refunded,
  Rows-set_transfer_in_amount_and_fee, Rows-set_pending_transfer_in,
  Rows-set_transfer_status_by_from,
}
use c_bridge_node.Server.{Server}
use c_bridge_node.Server.Callbacks.{callback_rules}
use c_bridge_node.Server.Send.{
  mark_existing, again, pay, send, charge, try_send, process_try_send_transfer_in,
}
use c_bridge_node.Server.Confirm.{claim, act_on_remote, try_confirm, process_try_confirm_transfer}
use c_bridge_node.Server.Refund.{
  refund_unless_confirmed, confirm_or_refund, settle, try_refund, process_try_refund_transfer_in,
}
use c_bridge_node.Server.Recover.{
  put_back, process_recover_timeout_pending_transfer_in, process_recover_timeout_pending_confirm,
  process_recover_timeout_pending_refund, process_recover,
}
use c_bridge_node.Server.TransferOut.{
  LogNewTransferOut, transfer_out_of, transfer_in_of, get_transfer_id, plan_transfer_in,
  save_transfers, convert_and_save, on_transfer_out, monitor_log_transfer_out,
}
use c_bridge_node.Server.Events.{
  LogNewTransferIn, LogTransferConfirmed, LogTransferRefunded, on_transfer_in, on_confirm,
  on_refund, monitor_log_transfer_in, monitor_log_confirm, monitor_log_refund,
}
use c_bridge_node.Node.{
  Event, ping_tick, summary_request, transfer_request, send_tick, confirm_tick, refund_tick,
  recover_tick, transfer_out_log, transfer_in_log, confirm_log, refund_log, handle,
}
use c_bridge_node.Node.Progress.Reports.{
  ping_and_refresh_fee-Keeps, get_total_summary-Keeps, get_transfer_page-Keeps,
}
use c_bridge_node.Node.Threads.{Reach, start, arrive, turn}
use Jobs.{
  process_try_send_transfer_in-Rows, process_try_confirm_transfer-Rows,
  process_try_refund_transfer_in-Rows, process_recover-Rows,
}
use Callbacks.{
  NewRows, monitor_log_transfer_in-Rows, monitor_log_confirm-Rows, monitor_log_refund-Rows,
  monitor_log_transfer_out-Rows,
}

module _ (P : Row → Type 0) (laws : RowLaws P) (new : NewRows P) where
  handle-Rows : (s : Server) (e : Event) → Keeps (On (Rows P)) (handle s e)
  unfolding handle
  handle-Rows s ping_tick = search (keeps_rules, ping_and_refresh_fee-Keeps)
  handle-Rows s send_tick = process_try_send_transfer_in-Rows P laws s
  handle-Rows s confirm_tick = process_try_confirm_transfer-Rows P laws s
  handle-Rows s refund_tick = process_try_refund_transfer_in-Rows P laws s
  handle-Rows s recover_tick = process_recover-Rows P laws
  handle-Rows s (transfer_out_log bc parsed h) = search (keeps_rules, monitor_log_transfer_out-Rows)
  handle-Rows s (transfer_in_log parsed h) = search (keeps_rules, monitor_log_transfer_in-Rows)
  handle-Rows s (confirm_log parsed h) = search (keeps_rules, monitor_log_confirm-Rows)
  handle-Rows s (refund_log parsed h) = search (keeps_rules, monitor_log_refund-Rows)
  handle-Rows s (summary_request addr_string) = search (keeps_rules, get_total_summary-Keeps)
  handle-Rows s (transfer_request limit) = search (keeps_rules, get_transfer_page-Keeps)

  Reach-kept :
      (s : Server) (w₀ : World) {pool : Pool} {w : World}
      → All P w₀.table
      → Reach s w₀ pool w
      → On (Rows P) w × AllKeep (On (Rows P)) pool
  unfolding Rows
  Reach-kept s w₀ all start = (record { holds = all }, tt)
  Reach-kept s w₀ all (arrive r e) =
      let (p, kept) = Reach-kept s w₀ all r in (p, ((handle-Rows s e).always, kept))
  Reach-kept s w₀ all (turn r t) =
      let (p, kept) = Reach-kept s w₀ all r in Turn-keeps (On (Rows P)) t kept p

  -- However the handlers' effects interleave, every row has it.
  pub Reach-Rows :
      (s : Server) (w₀ : World) {pool : Pool} {w : World}
      → All P w₀.table
      → Reach s w₀ pool w
      → All P w.table
  unfolding Rows
  Reach-Rows s w₀ all r = (Reach-kept s w₀ all r).0.holds
