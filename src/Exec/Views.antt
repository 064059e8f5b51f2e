-- ===== src/Exec/Views.antt =====
-- Predicates on the part of the world that the proofs are about: the environment, the table
-- `transfer` and the transactions. An answer of the environment changes none of it.
use c_bridge_node.Base.{ℕ, ◌≡◌, List}
use c_bridge_node.Transfer.{Row}
use c_bridge_node.World.{World, Env, Sent}
use c_bridge_node.Exec.{ask, gets}
use c_bridge_node.Exec.Keeps.{Keeps, Yields}

abbrev pub View : Type 1
View = Env → List Row → List Sent → Type 0

pub record On (V : View) (w : World) : Type 0 where
  pub holds : V w.env w.table w.sent

abbrev pub Both : View → View → View
Both V W env t s = V env t s × W env t s

module _ {A : Type 0} {V : View} where
  pub Keeps-ask : (f : Env → ℕ → A) → Keeps (On V) (ask f)
  unfolding ask
  Keeps-ask f = record { always = λ w h. (record { holds = h.holds }, tt) }

  -- In a known environment the answer is one of its answers.
  pub Yields-ask :
      (e : Env) (f : Env → ℕ → A)
      → ((env : Env) (t : List Row) (s : List Sent) → V env t s → env ≡ e)
      → Yields (On V) (ask f) (λ a. (n : ℕ) × (a ≡ f e n))
  unfolding ask
  Yields-ask e f known = record {
    always = λ w h. (
      record { holds = h.holds },
      (w.steps, λ i. f (known w.env w.table w.sent h.holds i) w.steps),
    );
  }

  -- What is read from the table has what the view says of the table.
  pub Yields-gets :
      (f : World → A) (Q : A → Type 0) → ((w : World) → On V w → Q (f w)) → Yields (On V) (gets f) Q
  unfolding gets
  Yields-gets f Q q = record { always = λ w h. (h, q w h) }
