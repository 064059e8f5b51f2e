-- ===== src/Dal/Inserts.antt =====
-- Where rows are after a statement, and what InsertTransfer does alone, where the database answers.
use c_bridge_node.Base.{
  ℕ, ◌≡◌, ◌≢◌, refl, ap, ◌∙◌, true, false, ◌==◌, ◌++◌, ◌||◌, none, List, [], ◌∷◌, inl, inr, arith,
  Bool, Bool-cases, if◌then◌else◌,
}
use mathlib.Core.Path.{subst}
use c_bridge_node.Base.Lists.{Among}
use c_bridge_node.Base.Places.{Among-last}
use c_bridge_node.Base.Maps.{nat_eq, string_eq}
use c_bridge_node.Wire.{Hash}
use c_bridge_node.Transfer.{Row, Time, Transfer}
use c_bridge_node.World.{World, Env, Sent, ok}
use c_bridge_node.Exec.Ends.{Ends, Ends-after}
use c_bridge_node.Dal.{update_where, has_tid, insert_row, insert_transfer, row_of, now}
use c_bridge_node.Dal.Tables.{perform-exec_table}
use c_bridge_node.Chain.Works.{At}

-- A row stays at its place in an update, changed or not.
Among-update_where :
    (p : Row → Bool) (f : Row → Row) (r : Row) (rs : List Row)
    → Among r rs
    → Among (if p r then f r else r) (update_where p f rs)
unfolding update_where
Among-update_where p f r [] there = elim there [ ]
Among-update_where p f r (x ∷ rs) (inl same) = inl (ap (λ y. if p y then f y else y) same)
Among-update_where p f r (x ∷ rs) (inr later) = inr (Among-update_where p f r rs later)

pub Among-changed :
    (p : Row → Bool) (f : Row → Row) (r : Row) (rs : List Row)
    → p r ≡ true
    → Among r rs
    → Among (f r) (update_where p f rs)
Among-changed p f r rs h there =
    subst (λ b. Among (if b then f r else r) (update_where p f rs)) h
      (Among-update_where p f r rs there)

pub Among-kept :
    (p : Row → Bool) (f : Row → Row) (r : Row) (rs : List Row)
    → p r ≡ false
    → Among r rs
    → Among r (update_where p f rs)
Among-kept p f r rs h there =
    subst (λ b. Among (if b then f r else r) (update_where p f rs)) h
      (Among-update_where p f r rs there)

pub insert_row-Among :
    (r : Row) (rs : List Row) → has_tid r.tid rs ≡ false → Among r (insert_row r rs)
unfolding insert_row
insert_row-Among r rs new = rw new (Among-last r rs)

has_tid-append :
    (tid : Hash) (r : Row) (rs : List Row)
    → r.tid ≢ tid
    → has_tid tid rs ≡ false
    → has_tid tid (rs ++ r ∷ []) ≡ false
unfolding has_tid
has_tid-append tid r [] other new = ground arith
has_tid-append tid r (x ∷ rs) other new = elim (Bool-cases (x.tid == tid)) [
  | inl e ↦ ground arith
  | inr e ↦ rw e (has_tid-append tid r rs other (subst (λ b. (b || has_tid tid rs) ≡ false) e new))
]

pub insert_row-new :
    (tid : Hash) (r : Row) (rs : List Row)
    → r.tid ≢ tid
    → has_tid tid rs ≡ false
    → has_tid tid (insert_row r rs) ≡ false
unfolding insert_row
insert_row-new tid r rs other new = elim (Bool-cases (has_tid r.tid rs)) [
  | inl e ↦ rw e new
  | inr e ↦ rw e (has_tid-append tid r rs other new)
]

module _ (e : Env) (sent : List Sent) where
  -- With these transactions sent, and this table.
  abbrev pub With : List Row → World → Type 0
  With t w = At e sent w × (w.table ≡ t)

  pub insert_transfer-With :
      (answers : (n : ℕ) → e.db_fault n ≡ none) (tx : Transfer) (t : List Row) (w : World)
      → With t w
      → Ends
          (insert_transfer tx)
          w
          (λ r w'. (r ≡ ok tt) × ((ts : Time) × With (insert_row (row_of ts tx) t) w'))
  unfolding insert_transfer now
  insert_transfer-With answers tx t w h =
      Ends-after _ (λ ts w'. With t w') now _ w
        (record { ends = (record { env = h.0.env; so_far = h.0.so_far }, h.1) })
        λ ts w' h'. record {
          ends =
              rw
                (perform-exec_table (insert_row (row_of ts tx)) w'
                  (ap (λ x. x.db_fault w'.steps) h'.0.env ∙ answers w'.steps))
                (
                  refl,
                  (
                    ts,
                    (
                      record { env = h'.0.env; so_far = h'.0.so_far },
                      ap (insert_row (row_of ts tx)) h'.1,
                    ),
                  ),
                );
        }
