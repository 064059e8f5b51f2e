-- ===== src/Server/Events/Claimable.antt =====
-- A confirmation on one chain makes the related transfer claimable on the other.
use c_bridge_node.Base.{suc, ◌≡◌, ◌≢◌, refl, false, none, some, List, arith, ◌==◌}
use c_bridge_node.Base.Lists.{Among, select}
use c_bridge_node.Base.Places.{Among-select}
use c_bridge_node.Wire.{Hash, locked, confirmed}
use c_bridge_node.Transfer.{Row}
use c_bridge_node.World.{World}
use c_bridge_node.Dal.Tables.{perform-exec_table}
use c_bridge_node.Exec.{perform, perform->>=, pure}
use c_bridge_node.Dal.{update_where, confirm_transfer, set_related_tx_preimage}
use c_bridge_node.Dal.Queries.{confirmable}
use c_bridge_node.Dal.Inserts.{Among-changed, Among-kept}
use c_bridge_node.Server.Events.{
  LogTransferConfirmed, unless_failed, if_parsed, on_confirm, monitor_log_confirm,
}

-- Where the database answers both statements: a log that confirms a transfer is not asked for again,
-- and after it each other row that was locked and related to the transfer is among the rows that
-- processTryConfirmTransfer reads, with the log's preimage.
pub monitor_log_confirm-confirmable :
    (ev : LogTransferConfirmed) (tx_hash : Hash) (w : World) (row : Row)
    → w.env.db_fault w.steps ≡ none
    → w.env.db_fault (suc w.steps) ≡ none
    → Among row w.table
    → row.related_tid ≡ ev.transfer_id
    → row.tid ≢ ev.transfer_id
    → row.status ≡ locked
    → ((perform (monitor_log_confirm (some ev) tx_hash) w).0 ≡ false)
      × Among
          (record row { preimage = some ev.preimage })
          (select confirmable (perform (monitor_log_confirm (some ev) tx_hash) w).1.table)
unfolding monitor_log_confirm if_parsed on_confirm unless_failed confirm_transfer
    set_related_tx_preimage pure
monitor_log_confirm-confirmable ev tx_hash w row answers answers_next there related other
      is_locked =
    let confirmed_rows : List Row =
      update_where (λ r. r.tid == ev.transfer_id)
        (λ r. record r {
          status = confirmed;
          preimage = some ev.preimage;
          tx_confirm_hash = tx_hash;
        })
        w.table in
    let w₁ : World = record w { steps = suc w.steps; table = confirmed_rows } in
    rw
      (
        perform->>=,
        perform-exec_table _ w answers,
        perform->>=,
        perform-exec_table _ w₁ answers_next,
      )
      (
        refl,
        Among-select confirmable (record row { preimage = some ev.preimage }) _
            (Among-changed (λ r. r.related_tid == ev.transfer_id)
              (λ r. record r { preimage = some ev.preimage }) row confirmed_rows (ground arith)
              (Among-kept (λ r. r.tid == ev.transfer_id) _ row w.table (ground arith) there))
            (unfold confirmable in rw is_locked refl),
      )
