-- ===== src/Node/Progress.antt =====
-- Every handler keeps the rows of the table, what they stand for, the direction of their status, and
-- the primary key.
pub mod Sending
pub mod Settling
pub mod Callbacks
pub mod Reports
use c_bridge_node.Base.{ℕ, List}
use c_bridge_node.Transfer.{Row}
use c_bridge_node.World.{World}
use c_bridge_node.Exec.{perform, M}
use c_bridge_node.Exec.Keeps.{Keeps-perform, Keeps, keeps_rules}
use c_bridge_node.Exec.Views.{On}
use c_bridge_node.Dal.Evolution.{Progress, Progress-refl, Evolves, Evolves-refl, HasKeys}
use c_bridge_node.Dal.Statements.{Progressed}
use c_bridge_node.Server.{Server}
use c_bridge_node.Node.{
  Event, ping_tick, summary_request, transfer_request, send_tick, confirm_tick, refund_tick,
  recover_tick, transfer_out_log, transfer_in_log, confirm_log, refund_log, handle,
}
use Reports.{ping_and_refresh_fee-Keeps, get_total_summary-Keeps, get_transfer_page-Keeps}
use Sending.{process_try_send_transfer_in-Progressed}
use Settling.{
  process_try_confirm_transfer-Progressed, process_try_refund_transfer_in-Progressed,
  process_recover-Progressed,
}
use Callbacks.{
  monitor_log_transfer_out-Progressed, monitor_log_transfer_in-Progressed,
  monitor_log_confirm-Progressed, monitor_log_refund-Progressed,
}

pub handle-Progressed :
    (t₀ : List Row) (s : Server) (e : Event) → Keeps (On (Progressed t₀)) (handle s e)
unfolding handle
handle-Progressed t₀ s ping_tick = search (keeps_rules, ping_and_refresh_fee-Keeps)
handle-Progressed t₀ s send_tick = process_try_send_transfer_in-Progressed t₀ s
handle-Progressed t₀ s confirm_tick = process_try_confirm_transfer-Progressed t₀ s
handle-Progressed t₀ s refund_tick = process_try_refund_transfer_in-Progressed t₀ s
handle-Progressed t₀ s recover_tick = process_recover-Progressed t₀
handle-Progressed t₀ s (transfer_out_log bc parsed h) =
    search (keeps_rules, monitor_log_transfer_out-Progressed)
handle-Progressed t₀ s (transfer_in_log parsed h) =
    search (keeps_rules, monitor_log_transfer_in-Progressed)
handle-Progressed t₀ s (confirm_log parsed h) = search (keeps_rules, monitor_log_confirm-Progressed)
handle-Progressed t₀ s (refund_log parsed h) = search (keeps_rules, monitor_log_refund-Progressed)
handle-Progressed t₀ s (summary_request addr_string) = search (keeps_rules, get_total_summary-Keeps)
handle-Progressed t₀ s (transfer_request limit) = search (keeps_rules, get_transfer_page-Keeps)
