-- ===== src/Dal/Monitor/Blocks.antt =====
-- The block of an event in the table `monitor`, from which a monitor goes on after a restart.
use c_bridge_node.Base.{
  ℕ, suc, Option, String, ◌≡◌, refl, ap, Bool, true, none, some, List, [], ◌∷◌, ◌++◌, arith,
  Bool-cases, Option-cases, inl, inr,
}
use c_bridge_node.Base.Int.{ℤ}
use c_bridge_node.Base.Maps.{string_eq}
use c_bridge_node.World.{World, Fault, ok, MonitorRow}
use c_bridge_node.Exec.{perform, perform->>=, pure, ◌>>=◌}
use c_bridge_node.Dal.Monitor.{
  find_monitor, set_block, exec_monitor, finish, upsert_change, upsert_monitor_block,
  get_monitor_block, scan_error, scanned,
}

same_event : (event : String) → string_eq.beq event event ≡ true
same_event event = (string_eq.beq_iff event event).1 refl

find-append :
    (event : String) (rows : List MonitorRow) (row : MonitorRow)
    → row.event ≡ event
    → find_monitor event rows ≡ none
    → find_monitor event (rows ++ row ∷ []) ≡ some row
unfolding find_monitor
find-append event [] row same h = ground (arith, (string_eq.beq_iff row.event event).1 same)
find-append event (r ∷ rows) row same h = ground (arith, find-append event rows row same)

some_row : {a b : MonitorRow} → some a ≡ some b → a ≡ b
some_row {a} {b} h = cc

find-set_block :
    (event : String) (num : ℕ) (idx : ℤ) (rows : List MonitorRow) (old : MonitorRow)
    → find_monitor event rows ≡ some old
    → find_monitor event (set_block event num idx rows)
      ≡ some (record old { block_num = num; block_idx = idx })
unfolding find_monitor set_block
find-set_block event num idx [] old h = absurd (ground arith)
find-set_block event num idx (r ∷ rows) old h = elim (Bool-cases (string_eq.beq r.event event)) [
  | inl same ↦
      rw (same, same)
        (ap (λ (q : MonitorRow). some (record q { block_num = num; block_idx = idx }))
          (some_row (rw same at h)))
  | inr other ↦ rw (other, other) (find-set_block event num idx rows old (rw other at h))
]

upsert_cases :
    (row : MonitorRow) (rows : List MonitorRow)
    → (rows' : List MonitorRow) × (found : MonitorRow) × (upsert_change row rows ≡ some (1, rows'))
      × (find_monitor row.event rows' ≡ some found)
      × (found.block_num ≡ row.block_num)
      × (found.block_idx ≡ row.block_idx)
unfolding upsert_change
upsert_cases row rows = elim (Option-cases (find_monitor row.event rows)) [
  | inl absent ↦ (
    rows ++ row ∷ [],
    row,
    rw (upsert_change, absent) refl,
    find-append row.event rows row refl absent,
    refl,
    refl,
  )
  | inr (old, present) ↦ (
    set_block row.event row.block_num row.block_idx rows,
    record old { block_num = row.block_num; block_idx = row.block_idx },
    rw (upsert_change, present) refl,
    find-set_block row.event row.block_num row.block_idx rows old present,
    refl,
    refl,
  )
]

perform-finish :
    (fault : Option Fault) (change : Option (ℕ × List MonitorRow)) (n : ℕ) (rows : List MonitorRow)
    (w : World)
    → fault ≡ none
    → change ≡ some (n, rows)
    → perform (finish fault change) w ≡ ((none, n), record w { monitor = rows })
unfolding finish pure ◌>>=◌
perform-finish fault change n rows w no_fault is_change = rw (no_fault, is_change) refl

-- Where the database answers, a statement that changes one row does so.
perform-exec_monitor :
    (change : List MonitorRow → Option (ℕ × List MonitorRow)) (w : World) (rows : List MonitorRow)
    → w.env.db_fault w.steps ≡ none
    → change w.monitor ≡ some (1, rows)
    → perform (exec_monitor change) w
      ≡ (w.env.chk_exec none 1 1, record w { steps = suc w.steps; monitor = rows })
unfolding exec_monitor
perform-exec_monitor change w rows answers is_change =
    rw
      (
        perform->>= (finish (w.env.db_fault w.steps) (change w.monitor)) _
            (record w { steps = suc w.steps }),
        perform-finish _ _ 1 rows (record w { steps = suc w.steps }) answers is_change,
      )
      refl

-- A block that was saved for an event, whether the event had a row before or not, is the block that
-- is read for it next, where the database answers, ChkExec accepts one row that was changed
-- without an error, and ChkQueryRow says "found" of a scan without an error.
pub get-upsert :
    (event : String) (num : ℕ) (idx : ℤ) (restart : Bool) (w : World)
    → w.env.db_fault w.steps ≡ none
    → w.env.db_fault (suc w.steps) ≡ none
    → w.env.chk_exec none 1 1 ≡ none
    → w.env.chk_query_row none ≡ ok true
    → ((perform (upsert_monitor_block event num idx restart) w).0 ≡ none)
      × ((perform
            (get_monitor_block event)
            (perform (upsert_monitor_block event num idx restart) w).1).0
          ≡ ((num, idx), ok true))
unfolding upsert_monitor_block get_monitor_block scan_error scanned ◌>>=◌ pure
get-upsert event num idx restart w answers answers_next one_row found_row =
    let row : MonitorRow = record {
      event = event;
      block_num = num;
      block_idx = idx;
      restart = restart;
    } in
    let (rows', found, change, find, same_num, same_idx) = upsert_cases row w.monitor in
    rw (perform-exec_monitor (upsert_change row) w rows' answers change)
      (one_row, rw (answers_next, find, same_num, same_idx, found_row) refl)
