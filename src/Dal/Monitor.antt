-- ===== src/Dal/Monitor.antt =====
-- server/dal.go: the statements on the table `monitor`, whose primary key is the event's name.
pub mod Blocks
use c_bridge_node.Base.{ℕ, String, Bool, Option, none, some, List, [], ◌∷◌, ◌++◌, if◌then◌else◌}
use c_bridge_node.Base.Int.{ℤ}
use c_bridge_node.Base.Lists.{length, select}
use c_bridge_node.Base.Maps.{string_eq}
use c_bridge_node.World.{Fault, db_refused, no_rows, Result, MonitorRow}
use c_bridge_node.Exec.{M, pure, ask, gets, modify, ◌>>=◌, ◌>>◌}

abbrev is_event : String → MonitorRow → Bool
is_event event r = string_eq.beq r.event event

unfoldable pub find_monitor : String → List MonitorRow → Option MonitorRow
find_monitor event [] = none
find_monitor event (r ∷ rs) = if is_event event r then some r else find_monitor event rs

unfoldable pub set_block : String → ℕ → ℤ → List MonitorRow → List MonitorRow
set_block event num idx [] = []
set_block event num idx (r ∷ rs) =
    (if is_event event r then record r { block_num = num; block_idx = idx } else r)
    ∷ set_block event num idx rs

-- The rows that a statement would change, and the table after it.
abbrev Change : Type 0
Change = List MonitorRow → Option (ℕ × List MonitorRow)

finish : Option Fault → Option (ℕ × List MonitorRow) → M (Option Fault × ℕ)
finish (some e) change = pure (some e, 0)
finish none none = pure (some db_refused, 0)
finish none (some (n, rows)) = do modify (λ w. record w { monitor = rows }); pure (none, n)

-- res, err := d.Exec(q, …); return sqldb.ChkExec(res, err, 1, …)
exec_monitor : Change → M (Option Fault)
unfolding finish ◌>>=◌
exec_monitor change = do
  fault ← ask (λ env n. env.db_fault n)
  rows ← gets (λ w. w.monitor)
  res ← finish fault (change rows)
  gets (λ w. w.env.chk_exec res.0 res.1 1)

-- A second row for an event breaks the primary key, so the statement is refused.
insert_change : MonitorRow → Change
unfolding find_monitor
insert_change row rows = elim (find_monitor row.event rows) [
  | none ↦ some (1, rows ++ row ∷ [])
  | some old ↦ none
]

unfoldable pub insert_monitor : String → ℕ → ℤ → Bool → M (Option Fault)
unfolding exec_monitor insert_change
insert_monitor event num idx restart =
    exec_monitor (
      insert_change (record { event = event; block_num = num; block_idx = idx; restart = restart }))

update_change : String → ℕ → ℤ → Change
unfolding set_block
update_change event num idx rows =
    some (length (select (is_event event) rows), set_block event num idx rows)

unfoldable pub update_monitor_block : String → ℕ → ℤ → M (Option Fault)
unfolding exec_monitor update_change
update_monitor_block event num idx = exec_monitor (update_change event num idx)

-- ON CONFLICT (event) DO UPDATE SET blocknum, blockidx: the column `restart` stays.
upsert_change : MonitorRow → Change
unfolding find_monitor set_block
upsert_change row rows = elim (find_monitor row.event rows) [
  | none ↦ some (1, rows ++ row ∷ [])
  | some old ↦ some (1, set_block row.event row.block_num row.block_idx rows)
]

unfoldable pub upsert_monitor_block : String → ℕ → ℤ → Bool → M (Option Fault)
unfolding exec_monitor upsert_change
upsert_monitor_block event num idx restart =
    exec_monitor (
      upsert_change (record { event = event; block_num = num; block_idx = idx; restart = restart }))

scan_error : Option Fault → Option MonitorRow → Option Fault
scan_error (some e) found = some e
scan_error none none = some no_rows
scan_error none (some r) = none

-- The variables of GetMonitorBlock keep their zero values where the scan did not set them.
scanned : Option Fault → Option MonitorRow → ℕ × ℤ
scanned none (some r) = (r.block_num, r.block_idx)
scanned _ _ = (0, ℤ.pos 0)

unfoldable pub get_monitor_block : String → M ((ℕ × ℤ) × Result Bool)
unfolding find_monitor scan_error scanned ◌>>=◌
get_monitor_block event = do
  fault ← ask (λ env n. env.db_fault n)
  found ← gets (λ w. find_monitor event w.monitor)
  checked ← gets (λ w. w.env.chk_query_row (scan_error fault found))
  pure (scanned fault found, checked)
