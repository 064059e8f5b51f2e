-- ===== src/Dal/Store/Refines.antt =====
-- The statements of server/dal.go do to the map what they mean.
use c_bridge_node.Base.{
  suc, ◌≡◌, refl, sym, ap, ◌∙◌, Bool, true, false, ◌&&◌, ◌||◌, Option, none, some, List, [], ◌∷◌,
  ◌++◌, ◌==◌, ==_iff, if◌then◌else◌, ◌⊎◌, inl, inr, Bool-cases, arith,
}
use c_bridge_node.Wire.{Hash, TransferStatus, same_status, transfer_in_start, transfer_in_pending}
use c_bridge_node.Transfer.{Time, Row}
use c_bridge_node.World.{World, Fault, Result, ok, err}
use c_bridge_node.Exec.{pure, perform, ask, ◌>>=◌}
use c_bridge_node.Dal.{
  refused_anyway, set_transfer_preimage, update_where, insert_row, has_tid, exec_table,
  unless_fault, now, row_of, insert_transfer, set_related_tx_preimage, confirm_transfer,
  refund_transfer, record_transfer_in, update_transfer_status, set_transfer_in_amount_and_fee,
  status_by_from, set_pending_transfer_in, set_transfer_status_by_from,
}
use c_bridge_node.Dal.Store.{
  store_of, Statement, execute, meaning, on_row, or_new, insert, set_preimage, confirm, refund,
  record_in, set_status, set_amount, set_pending, set_from, preimage_as_status, move,
}

-- An update acts on each row alone, where it keeps the ids.
store_of-update_where :
    (p : Row → Bool) (f : Row → Row) (rs : List Row) (tid : Hash)
    → ((r : Row) → (f r).tid ≡ r.tid)
    → store_of (update_where p f rs) tid ≡ on_row (λ r. if p r then f r else r) (store_of rs tid)
unfolding store_of update_where
store_of-update_where p f [] tid same = refl
store_of-update_where p f (r ∷ rs) tid same =
    ground (arith, kept (p r), store_of-update_where p f rs tid same)
  where
    kept : (b : Bool) → (if b then f r else r).tid ≡ r.tid
    kept true = same r
    kept false = refl

some_inj : {a b : Row} → some a ≡ some b → a ≡ b
some_inj e = cc

-- The row of an id has that id.
store_of_tid : (rs : List Row) (k : Hash) (r : Row) → store_of rs k ≡ some r → r.tid ≡ k
unfolding store_of
store_of_tid [] k r found = absurd (ground arith)
store_of_tid (x ∷ rs) k r found = elim (Bool-cases (x.tid == k)) [
  | inl e ↦
      let same : x ≡ r = some_inj (rw e at found) in
      ap (λ y. y.tid) (sym same) ∙ (==_iff x.tid k).0 e
  | inr e ↦ store_of_tid rs k r (rw e at found)
]

store_of-append :
    (rs : List Row) (r : Row) (tid : Hash)
    → store_of (rs ++ r ∷ []) tid
      ≡ (if tid == r.tid then or_new (store_of rs tid) r else store_of rs tid)
unfolding store_of
store_of-append [] r tid = ground arith
store_of-append (x ∷ rs) r tid = ground (arith, store_of-append rs r tid)

store_of-has_tid :
    (rs : List Row) (tid : Hash) (r : Row)
    → has_tid tid rs ≡ true
    → or_new (store_of rs tid) r ≡ store_of rs tid
unfolding store_of has_tid
store_of-has_tid [] tid r h = absurd (ground arith)
store_of-has_tid (x ∷ rs) tid r h = ground (arith, store_of-has_tid rs tid r)

store_of-insert_row :
    (rs : List Row) (r : Row) (tid : Hash)
    → store_of (insert_row r rs) tid
      ≡ (if tid == r.tid then or_new (store_of rs tid) r else store_of rs tid)
unfolding insert_row
store_of-insert_row rs r tid = elim (Bool-cases (has_tid r.tid rs)) [
  | inl e ↦ rw e (elim (Bool-cases (tid == r.tid)) [
    | inl same ↦
        rw same
          (sym (store_of-has_tid rs tid r (ap (λ t. has_tid t rs) ((==_iff tid r.tid).0 same) ∙ e)))
    | inr other ↦ rw other refl
  ])
  | inr e ↦ rw e (store_of-append rs r tid)
]

-- An update of the rows with one id that meet a condition, where it does not change the id.
update_at :
    (tid : Hash) (q p : Row → Bool) (f : Row → Row) (rs : List Row) (k : Hash)
    → ((r : Row) → (f r).tid ≡ r.tid)
    → ((r : Row) → q r ≡ (r.tid == tid && p r))
    → store_of (update_where q f rs) k
      ≡ (if k == tid then on_row (λ r. if p r then f r else r) (store_of rs k) else store_of rs k)
update_at tid q p f rs k same splits =
    store_of-update_where q f rs k same ∙ by_id (store_of rs k) refl
  where
    by_id :
        (o : Option Row)
        → store_of rs k ≡ o
        → on_row (λ r. if q r then f r else r) o
          ≡ (if k == tid then on_row (λ r. if p r then f r else r) o else o)
    by_id none found = ground arith
    by_id (some r) found = ground (arith, store_of_tid rs k r found, splits r)

-- All rows with one id.
update_all_at :
    (tid : Hash) (f : Row → Row) (rs : List Row) (k : Hash)
    → ((r : Row) → (f r).tid ≡ r.tid)
    → store_of (update_where (λ r. r.tid == tid) f rs) k
      ≡ (if k == tid then on_row f (store_of rs k) else store_of rs k)
update_all_at tid f rs k same =
    update_at tid (λ r. r.tid == tid) (λ r. true) f rs k same (λ r. ground arith)

-- A statement was executed as it means, or was refused and changed nothing.
abbrev pub Refined : Statement → World → Result (Unit {0}) × World → Type 0
Refined st w (r, w') =
    (r ≡ ok tt)
      × ((k : Hash) → store_of w'.table k ≡ meaning st (w.env.clock w.steps) (store_of w.table) k)
    ⊎ ((e : Fault) × (r ≡ err e) × (w'.table ≡ w.table))

exec_table-Refined :
    (st : Statement) (w w₁ : World) (f : List Row → List Row)
    → w₁.table ≡ w.table
    → ((k : Hash) → store_of (f w.table) k ≡ meaning st (w.env.clock w.steps) (store_of w.table) k)
    → Refined st w (perform (exec_table f) w₁)
unfolding exec_table ask ◌>>=◌
exec_table-Refined st w w₁ f same means = answered (w₁.env.db_fault w₁.steps)
  where
    answered :
        (fault : Option Fault)
        → Refined st w (perform (unless_fault fault f) (record w₁ { steps = suc w₁.steps }))
    answered none = inl (refl, λ k. ap (λ t. store_of (f t) k) same ∙ means k)
    answered (some e) = inr (e, refl, same)

-- With the time of its own reading, after which the database is asked.
moved :
    (tid : Hash) (to from : TransferStatus) (ts_now : Time) (rs : List Row) (k : Hash)
    → store_of
        (update_where
          (λ r. r.tid == tid && same_status r.status from)
          (λ r. record r { status = to; update_ts = ts_now })
          rs)
        k
      ≡ (if k == tid then on_row (move to from ts_now) (store_of rs k) else store_of rs k)
moved tid to from ts_now rs k =
    update_at tid _ (λ r. same_status r.status from) _ rs k (λ r. refl) (λ r. refl)

-- Each statement of the table either does to the map of ids to rows what it means, and returns no
-- error, or returns an error and leaves the table as it is.
pub execute-meaning : (st : Statement) (w : World) → Refined st w (perform (execute st) w)
unfolding execute meaning insert_transfer set_related_tx_preimage confirm_transfer refund_transfer
    record_transfer_in update_transfer_status set_transfer_in_amount_and_fee status_by_from
    set_pending_transfer_in set_transfer_status_by_from set_transfer_preimage now ask row_of pure
    ◌>>=◌
execute-meaning (insert tx) w =
    exec_table-Refined (insert tx) w (record w { steps = suc w.steps }) _ refl
      (λ k. store_of-insert_row w.table (row_of (w.env.clock w.steps) tx) k)
execute-meaning (set_preimage preimage related_tid) w =
    exec_table-Refined (set_preimage preimage related_tid) w w _ refl
      (λ k. store_of-update_where _ _ w.table k (λ r. refl))
execute-meaning (confirm tid preimage tx_hash) w =
    exec_table-Refined (confirm tid preimage tx_hash) w w _ refl
      (λ k. update_all_at tid _ w.table k (λ r. refl))
execute-meaning (refund tid tx_hash) w =
    exec_table-Refined (refund tid tx_hash) w w _ refl
      (λ k. update_all_at tid _ w.table k (λ r. refl))
execute-meaning (record_in tid tx_hash) w =
    exec_table-Refined (record_in tid tx_hash) w w _ refl (λ k.
      update_at tid _
        (λ r. same_status r.status transfer_in_start || same_status r.status transfer_in_pending) _
        w.table k (λ r. refl) (λ r. refl))
execute-meaning (set_status tid to) w =
    exec_table-Refined (set_status tid to) w w _ refl
      (λ k. update_all_at tid _ w.table k (λ r. refl))
execute-meaning (set_amount tid amount fee) w =
    exec_table-Refined (set_amount tid amount fee) w w _ refl
      (λ k. update_all_at tid _ w.table k (λ r. refl))
execute-meaning (preimage_as_status tid preimage) w = refused (w.env.db_fault w.steps)
  where
    refused :
        (fault : Option Fault)
        → Refined
            (preimage_as_status tid preimage)
            w
            (refused_anyway fault, record w { steps = suc w.steps })
    refused none = inr (_, refl, refl)
    refused (some e) = inr (e, refl, refl)
execute-meaning (set_pending tid to from) w =
    exec_table-Refined (set_pending tid to from) w (record w { steps = suc w.steps }) _ refl
      (λ k. moved tid to from (w.env.clock w.steps) w.table k)
execute-meaning (set_from tid to from) w =
    exec_table-Refined (set_from tid to from) w (record w { steps = suc w.steps }) _ refl
      (λ k. moved tid to from (w.env.clock w.steps) w.table k)
