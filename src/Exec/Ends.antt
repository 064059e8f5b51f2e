-- ===== src/Exec/Ends.antt =====
-- Where an action ends that runs alone: rules that go backwards from what is to hold there.
use c_bridge_node.Base.{true, ◌≡◌, sym, Bool, false, Option, some, if◌then◌else◌}
use mathlib.Core.Path.{subst}
use c_bridge_node.World.{World, Result, ok}
use c_bridge_node.Exec.{M, perform, perform->>=, ◌>>=◌, or_skip, if_found}

-- Alone from `w`, the action ends with a value and a world that have `Post`.
pub record Ends {A : Type 0} (m : M A) (w : World) (Post : A → World → Type 0) : Type 0 where
  pub ends : Post (perform m w).0 (perform m w).1

module _ {A B : Type 0} (Post : B → World → Type 0) where
  pub Ends-bind :
      (m : M A) (f : A → M B) (w : World)
      → Ends m w (λ a w'. Ends (f a) w' Post)
      → Ends (m >>= f) w Post
  Ends-bind m f w h = record {
    ends = subst (λ r. Post r.0 r.1) (sym (perform->>= m f w)) h.ends.ends;
  }

  -- After an action of which this much is known.
  pub Ends-after :
      (Q : A → World → Type 0) (m : M A) (f : A → M B) (w : World)
      → Ends m w Q
      → ((a : A) (w' : World) → Q a w' → Ends (f a) w' Post)
      → Ends (m >>= f) w Post
  Ends-after Q m f w q next = Ends-bind m f w (record { ends = next _ _ q.ends })

module _ {A : Type 0} (Post : Unit {0} → World → Type 0) where
  pub Ends-or_skip :
      (r : Result A) (f : A → M (Unit {0})) (w : World) (a : A)
      → r ≡ ok a
      → Ends (f a) w Post
      → Ends (or_skip r f) w Post
  unfolding or_skip
  Ends-or_skip r f w a eq h = subst (λ x. Ends (or_skip x f) w Post) (sym eq) h

  pub Ends-if_found :
      (o : Option A) (f : A → M (Unit {0})) (w : World) (a : A)
      → o ≡ some a
      → Ends (f a) w Post
      → Ends (if_found o f) w Post
  unfolding if_found
  Ends-if_found o f w a eq h = subst (λ x. Ends (if_found x f) w Post) (sym eq) h

module _ {A : Type 0} (Post : A → World → Type 0) where
  pub Ends-else :
      (test : Bool) (m n : M A) (w : World)
      → test ≡ false
      → Ends n w Post
      → Ends (if test then m else n) w Post
  Ends-else test m n w eq h = subst (λ b. Ends (if b then m else n) w Post) (sym eq) h

  pub Ends-then :
      (test : Bool) (m n : M A) (w : World)
      → test ≡ true
      → Ends m w Post
      → Ends (if test then m else n) w Post
  Ends-then test m n w eq h = subst (λ b. Ends (if b then m else n) w Post) (sym eq) h
