-- ===== src/Node.antt =====
-- The running node (server/server.go, server/main/main.go): the goroutines' periodic jobs, the
-- monitors' callbacks and the web pages all act on one database. Each event starts a handler; in
-- Node/Threads the effects of the handlers interleave.
pub mod Progress
pub mod Threads
pub mod Published
pub mod Answered
pub mod Resumed
pub mod Once
pub mod Rows
pub mod Typed
use c_bridge_node.Base.{ℕ, String, Option, List}
use c_bridge_node.Wire.{Hash, Addr}
use c_bridge_node.Server.Ping.{ping_and_refresh_fee}
use c_bridge_node.Server.Summary.{get_total_summary}
use c_bridge_node.Server.Listing.{get_transfer_page}
use c_bridge_node.World.{World}
use c_bridge_node.Chain.{BridgeConfig}
use c_bridge_node.Exec.{M, skip, for_each, ◌>>=◌, ◌>>◌}
use c_bridge_node.Server.{Server}
use c_bridge_node.Server.Send.{process_try_send_transfer_in}
use c_bridge_node.Server.Confirm.{process_try_confirm_transfer}
use c_bridge_node.Server.Refund.{process_try_refund_transfer_in}
use c_bridge_node.Server.Recover.{process_recover}
use c_bridge_node.Server.TransferOut.{LogNewTransferOut, monitor_log_transfer_out}
use c_bridge_node.Server.Events.{
  LogNewTransferIn, LogTransferConfirmed, LogTransferRefunded, monitor_log_transfer_in,
  monitor_log_confirm, monitor_log_refund,
}

-- What sets the node to work: a tick of a ticker, a log that a monitor delivers, parsed or not,
-- with its transaction's hash, or a request for a page. A callback that asks for its log again gets it as a later event.
pub data Event : Type 0 where
  ping_tick send_tick confirm_tick refund_tick recover_tick : Event
  transfer_out_log : BridgeConfig → Option LogNewTransferOut → Hash → Event
  transfer_in_log : Option LogNewTransferIn → Hash → Event
  confirm_log : Option LogTransferConfirmed → Hash → Event
  refund_log : Option LogTransferRefunded → Hash → Event
  summary_request : (Addr → String) → Event
  transfer_request : String → Event

-- One tick of PingCron; an error is logged.
abbrev pub ping_cron : Server → M (Unit {0})
ping_cron s = do ping_and_refresh_fee s; skip

unfoldable pub handle : Server → Event → M (Unit {0})
handle s ping_tick = ping_cron s
handle s send_tick = process_try_send_transfer_in s
handle s confirm_tick = process_try_confirm_transfer s
handle s refund_tick = process_try_refund_transfer_in s
handle s recover_tick = process_recover
handle s (transfer_out_log bc parsed tx_hash) = do
  monitor_log_transfer_out s bc parsed tx_hash
  skip
handle s (transfer_in_log parsed tx_hash) = do monitor_log_transfer_in s parsed tx_hash; skip
handle s (confirm_log parsed tx_hash) = do monitor_log_confirm parsed tx_hash; skip
handle s (refund_log parsed tx_hash) = do monitor_log_refund parsed tx_hash; skip
handle s (summary_request addr_string) = do get_total_summary addr_string s; skip
handle s (transfer_request limit) = do get_transfer_page limit; skip
