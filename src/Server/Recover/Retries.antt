-- ===== src/Server/Recover/Retries.antt =====
-- What a tick of ProcessRecoverTimeoutPendingTransfer changes.
use c_bridge_node.Base.{◌≡◌, refl, sym, ap, ◌∙◌, true, List}
use mathlib.Core.Path.{subst}
use c_bridge_node.Base.Lists.{All, All-mono}
use c_bridge_node.Transfer.{Row, Transfer, scan_transfer}
use c_bridge_node.World.{World, Env}
use c_bridge_node.Exec.{perform, or_skip, for_each, ◌>>=◌}
use c_bridge_node.Exec.Keeps.{
  Keeps, Yields, Keeps-loop, Keeps-then, Keeps-bind, Keeps-pure, Keeps-perform,
}
use c_bridge_node.Exec.Views.{View, On}
use c_bridge_node.Dal.{now, status_by_from, set_transfer_status_by_from}
use c_bridge_node.Base.Lists.{select}
use c_bridge_node.Dal.Queries.{
  query, get_recover_timeout_pending_transfer_in, get_recover_timeout_pending_confirm,
  get_recover_timeout_pending_refund,
}
use c_bridge_node.Dal.Reads.{IsRowNow, Yields-query-now}
use c_bridge_node.Dal.Evolution.{Evolves, Evolves-refl, HasKeys, update_where-HasKeys}
use c_bridge_node.Dal.Statements.{Keeps-now}
use c_bridge_node.Dal.Tables.{Keeps-exec_table}
use c_bridge_node.Chain.Answers.{ClockSaid, Yields-now}
use c_bridge_node.Server.Recover.{
  put_back, process_recover_timeout_pending_transfer_in, process_recover_timeout_pending_confirm,
  process_recover_timeout_pending_refund, process_recover,
}
use c_bridge_node.Server.Recover.Waits.{
  Wait, pending, source, due, payment, claim, refund, Retried, same, due_pending, Retried_pending,
  Was, All-Was, Evolves-put_back,
}

module _ (e : Env) where
  abbrev Retrying : List Row → View
  Retrying t₀ env t s = (env ≡ e) × Evolves (Retried e) t₀ t × HasKeys t

  -- The statement that puts a row back, of which it is known that it waited.
  put_back-Retrying :
      (k : Wait) (t₀ : List Row) (tx : Transfer)
      → IsRowNow (ClockSaid e) (Was e t₀) (due k) tx
      → Keeps (On (Retrying t₀)) (put_back (source k) (pending k) tx)
  unfolding put_back set_transfer_status_by_from status_by_from scan_transfer
  put_back-Retrying k t₀ tx found =
      Keeps-bind _ _
        (Keeps-bind now _ Keeps-now λ stamp. Keeps-exec_table _ λ env t s h. (
          h.0,
          Evolves-put_back e k found.time stamp tx.transfer_id t₀ t found.clocked waited h.1,
          update_where-HasKeys _ _ t (λ r. refl) h.2,
        ))
        (λ u. Keeps-pure tt)
    where
      waited : All (λ r. r.tid ≡ tx.transfer_id → due k found.time r ≡ true) t₀
      waited =
          All-mono _ t₀
            (λ x was has_id.
              let unchanged =
                Retried_pending e k x found.at_time.row
                  (was (has_id ∙ ap (λ t. t.transfer_id) found.at_time.scanned))
                  (due_pending k found.time found.at_time.row found.at_time.chosen) in
              subst (λ r. due k found.time r ≡ true) (sym unchanged) found.at_time.chosen)
            found.at_time.known

  module _ (t₀ : List Row) where
    rows_were : (w : World) → On (Retrying t₀) w → All (Was e t₀) w.table
    rows_were w h = All-Was e t₀ w.table h.holds.1 h.holds.2

    known_clock : Yields (On (Retrying t₀)) now (ClockSaid e)
    known_clock = Yields-now e (λ env t s h. h.0)

    process_recover-Retrying : Keeps (On (Retrying t₀)) process_recover
    unfolding process_recover process_recover_timeout_pending_transfer_in
        process_recover_timeout_pending_confirm process_recover_timeout_pending_refund
        get_recover_timeout_pending_transfer_in get_recover_timeout_pending_confirm
        get_recover_timeout_pending_refund
    process_recover-Retrying =
        Keeps-then _ _ (looped payment) (Keeps-then _ _ (looped claim) (looped refund))
      where
        looped :
            (k : Wait)
            → Keeps (On (Retrying t₀)) (
                (now >>= λ ts. query (select (due k ts))) >>= λ r.
                or_skip r (for_each (put_back (source k) (pending k))))
        looped k =
            Keeps-loop _ (put_back (source k) (pending k))
              (IsRowNow (ClockSaid e) (Was e t₀) (due k))
              (Yields-query-now (due k) (ClockSaid e) (Was e t₀) known_clock rows_were)
              (put_back-Retrying k t₀)

-- A tick of the recovering job, alone on a table whose primary key holds, leaves every row at its
-- place, and changes none but one that its queries select at a reading of the clock, pending for a
-- payment, a claim or a refund: of that it changes the status, to the one from which it is tried
-- again, and the time of the update, nothing else.
pub process_recover-Retried :
    (w : World)
    → HasKeys w.table
    → Evolves (Retried w.env) w.table (perform process_recover w).1.table
process_recover-Retried w keys =
    (Keeps-perform (process_recover-Retrying w.env w.table) w (record {
      holds = (refl, Evolves-refl (Retried w.env) (λ r. same refl) w.table, keys);
    })).holds.1
