-- ===== src/Dal/Tables.antt =====
-- Laws of the table operations, and of the statements as actions.
use c_bridge_node.Base.{
  suc, refl, arith, ◌≡◌, Bool, true, false, inl, inr, Option, none, some, List, [], ◌∷◌, Bool-cases,
}
use c_bridge_node.Base.Lists.{All, All-append}
use c_bridge_node.Transfer.{Row}
use c_bridge_node.World.{World, ok, Env, Fault, Sent, err, Result}
use c_bridge_node.Exec.{perform, ask, modify, pure, ◌>>=◌}
use c_bridge_node.Exec.Keeps.{Keeps, Keeps-bind, Keeps-pure}
use c_bridge_node.Exec.Views.{View, On, Keeps-ask}
use c_bridge_node.Exec.Outlines.{Outline, Outline-Keeps-bind}
use c_bridge_node.Exec.Steps.{Relation, Steps, Steps-bind, Steps-ask}
use c_bridge_node.Dal.{update_where, has_tid, insert_row, exec_table, unless_fault}

module _ {P Q : Row → Type 0} where
  pub All-update_where :
      (p : Row → Bool) (f : Row → Row) (rs : List Row)
      → ((r : Row) → P r → p r ≡ true → Q (f r))
      → ((r : Row) → P r → p r ≡ false → Q r)
      → All P rs
      → All Q (update_where p f rs)
  unfolding update_where
  All-update_where p f [] hit miss h = tt
  All-update_where p f (r ∷ rs) hit miss h = elim (Bool-cases (p r)) [
    | inl e ↦ (rw e (hit r h.0 e), All-update_where p f rs hit miss h.1)
    | inr e ↦ (rw e (miss r h.0 e), All-update_where p f rs hit miss h.1)
  ]

pub All-insert_row :
    (P : Row → Type 0) (r : Row) (rs : List Row) → P r → All P rs → All P (insert_row r rs)
unfolding insert_row
All-insert_row P r rs new h = elim (Bool-cases (has_tid r.tid rs)) [
  | inl e ↦ rw e h
  | inr e ↦ rw e (All-append P rs (r ∷ []) h (new, tt))
]

module _ {V : View} where
  unless_fault-Keeps :
      (fault : Option Fault) (f : List Row → List Row)
      → ((env : Env) (t : List Row) (s : List Sent) → V env t s → V env (f t) s)
      → Keeps (On V) (unless_fault fault f)
  unfolding unless_fault ◌>>=◌
  unless_fault-Keeps (some e) f h = Keeps-pure (err e)
  unless_fault-Keeps none f h = record {
    always = λ w v. (record { holds = h w.env w.table w.sent v.holds }, tt);
  }

  -- A statement keeps what its effect on the table keeps.
  pub Keeps-exec_table :
      (f : List Row → List Row)
      → ((env : Env) (t : List Row) (s : List Sent) → V env t s → V env (f t) s)
      → Keeps (On V) (exec_table f)
  unfolding exec_table
  Keeps-exec_table f h =
      Keeps-bind (ask (λ env n. env.db_fault n)) (λ fault. unless_fault fault f)
        (Keeps-ask (λ env n. env.db_fault n)) (λ fault. unless_fault-Keeps fault f h)

perform-unless_fault :
    (fault : Option Fault) (f : List Row → List Row) (w : World)
    → fault ≡ none
    → perform (unless_fault fault f) w ≡ (ok tt, record w { table = f w.table })
unfolding unless_fault ◌>>=◌
perform-unless_fault (some e) f w h = absurd (ground arith)
perform-unless_fault none f w h = refl

-- Where the database answers, a statement alone does all of its effect.
pub perform-exec_table :
    (f : List Row → List Row) (w : World)
    → w.env.db_fault w.steps ≡ none
    → perform (exec_table f) w ≡ (ok tt, record w { steps = suc w.steps; table = f w.table })
unfolding exec_table ◌>>=◌
perform-exec_table f w answers = perform-unless_fault _ f (record w { steps = suc w.steps }) answers

-- A statement that is refused leaves the phase as it is.
module _ {Ph : Type 0} (V : Ph → View) (p : Ph) (Q : Result (Unit {0}) → Ph → Type 0) where
  abbrev In : Ph → World → Type 0
  In ph = On (V ph)

  Outline-unless_fault :
      (f : List Row → List Row) (fault : Option Fault)
      → ((env : Env) (t : List Row) (s : List Sent)
          → V p env t s
          → (p' : Ph) × V p' env (f t) s × Q (ok tt) p')
      → ((e : Fault) → Q (err e) p)
      → Outline In p Q (unless_fault fault f)
  unfolding unless_fault ◌>>=◌ modify pure
  Outline-unless_fault f (some e) done refused = refused e
  Outline-unless_fault f none done refused =
      λ w h. let (p', v, q) = done w.env w.table w.sent h.holds in (p', record { holds = v }, q)

  pub Outline-exec_table :
      (f : List Row → List Row)
      → ((env : Env) (t : List Row) (s : List Sent)
          → V p env t s
          → (p' : Ph) × V p' env (f t) s × Q (ok tt) p')
      → ((e : Fault) → Q (err e) p)
      → Outline In p Q (exec_table f)
  unfolding exec_table
  Outline-exec_table f done refused =
      Outline-Keeps-bind In p Q (ask (λ env n. env.db_fault n)) _ (Keeps-ask _)
        λ fault. Outline-unless_fault f fault done refused

-- A statement's effect is that on the table, or none.
module _ {ρ : Relation} where
  unless_fault-Steps :
      (f : List Row → List Row) (fault : Option Fault)
      → ((t : List Row) (s : List Sent) → ρ.rel t s (f t) s)
      → Steps ρ (unless_fault fault f)
  unfolding unless_fault ◌>>=◌ modify pure
  unless_fault-Steps f (some e) h = record { each = tt }
  unless_fault-Steps f none h = record { each = λ w. (h w.table w.sent, tt) }

  pub exec_table-Steps :
      (f : List Row → List Row)
      → ((t : List Row) (s : List Sent) → ρ.rel t s (f t) s)
      → Steps ρ (exec_table f)
  unfolding exec_table
  exec_table-Steps f h =
      Steps-bind (ask (λ env n. env.db_fault n)) _ (Steps-ask _)
        λ fault. unless_fault-Steps f fault h
