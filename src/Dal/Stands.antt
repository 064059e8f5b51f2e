-- ===== src/Dal/Stands.antt =====
-- Rows that stand in the table at some moment while an action runs alone.
use c_bridge_node.Base.{List, ◌⊎◌, inl, inr}
use c_bridge_node.Base.Lists.{All, All-mono, All-Among, Among}
use c_bridge_node.Transfer.{Row}
use c_bridge_node.World.{World, Result}
use c_bridge_node.Exec.{M, done, act, perform, perform->>=, ◌>>=◌, or_skip, for_each}
use c_bridge_node.Exec.Keeps.{Yields, OnOk, Always-perform}
use c_bridge_node.Exec.Relies.{Along, KeepsUnder, Relies-each_ok, Relies-perform}
use c_bridge_node.Exec.Views.{On}
use c_bridge_node.Dal.Rows.{Rows}

-- Before an effect of the action, or at its end.
abbrev pub Stands : {A : Type 0} → M A → World → Row → Type 0
Stands (done a) w r = Among r w.table
Stands (act g next) w r = Among r w.table ⊎ Stands (next w) (g w) r

Along-Stands :
    {A : Type 0} (S : Row → Type 0) (m : M A) (w : World)
    → ((r : Row) → Stands m w r → S r)
    → Along (On (Rows S)) m w
unfolding Rows
Along-Stands S (done a) w in_S = tt
Along-Stands S (act g next) w in_S = (
  record { holds = All-mono _ w.table (λ r there. in_S r (inl there)) (All-Among w.table) },
  Along-Stands S (next w) (g w) (λ r later. in_S r (inr later)),
)

Stands-bind :
    {A B : Type 0} (m : M A) (f : A → M B) (w : World) (r : Row)
    → Stands (f (perform m w).0) (perform m w).1 r
    → Stands (m >>= f) w r
unfolding ◌>>=◌
Stands-bind (done a) f w r h = h
Stands-bind (act g next) f w r h = inr (Stands-bind (next w) f (g w) r h)

module _ {A : Type 0} (m : M (Result (List A))) (body : A → M (Unit {0})) (Q : A → Type 0)
    (P₀ P : World → Type 0) (w : World) where
  -- A loop over what a query found, in which each row that is read stands in the table at that moment.
  pub loop_standing :
      Yields P₀ m (OnOk (All Q))
      → ((w' : World) → P₀ w' → P w')
      → ((x : A)
          → Q x
          → KeepsUnder (On (Rows (Stands (m >>= λ r. or_skip r (for_each body)) w))) P (body x))
      → P₀ w
      → P (perform (m >>= λ r. or_skip r (for_each body)) w).1
  loop_standing found weaken kb h =
      let ends = Always-perform P₀ (OnOk (All Q)) m found.always w h in
      rw (perform->>= m (λ r. or_skip r (for_each body)) w) (
        Relies-perform (Relies-each_ok Q body (perform m w).0 kb ends.1) (perform m w).1
          (Along-Stands _ _ (perform m w).1 (Stands-bind m (λ r. or_skip r (for_each body)) w))
          (weaken (perform m w).1 ends.0))
