-- ===== src/Server/Callbacks.antt =====
-- What the ways to end a callback early keep, and where a callback goes on.
use c_bridge_node.Base.{ℕ, Bool, Option, none, some, ◌≡◌, sym}
use mathlib.Core.Path.{subst}
use c_bridge_node.Exec.Ends.{Ends}
use c_bridge_node.World.{World, Result, ok, err}
use c_bridge_node.Exec.{M}
use c_bridge_node.Exec.Keeps.{Keeps, Keeps-pure, keeps_rules}
use c_bridge_node.Dal.Reads.{read_rules}
use c_bridge_node.Server.TransferOut.{Outcome, or_retry, or_give_up, or_panic}
use c_bridge_node.Server.Events.{unless_failed, if_parsed}

module _ {P : World → Type 0} where
  pub Keeps-unless_failed :
      (r : Result (Unit {0})) (m : M Bool) → Keeps P m → Keeps P (unless_failed r m)
  unfolding unless_failed
  Keeps-unless_failed (ok u) m h = h
  Keeps-unless_failed (err e) m h = Keeps-pure _

  pub Keeps-or_retry : (r : Result (Unit {0})) (m : M Outcome) → Keeps P m → Keeps P (or_retry r m)
  unfolding or_retry
  Keeps-or_retry (ok u) m h = h
  Keeps-or_retry (err e) m h = Keeps-pure _

  pub Keeps-or_panic :
      (o : Option ℕ) (f : ℕ → M Outcome) → ((n : ℕ) → Keeps P (f n)) → Keeps P (or_panic o f)
  unfolding or_panic
  Keeps-or_panic none f h = Keeps-pure _
  Keeps-or_panic (some n) f h = h n

  module _ {A : Type 0} where
    pub Keeps-if_parsed :
        (o : Option A) (f : A → M Bool) → ((a : A) → Keeps P (f a)) → Keeps P (if_parsed o f)
    unfolding if_parsed
    Keeps-if_parsed none f h = Keeps-pure _
    Keeps-if_parsed (some a) f h = h a

    pub Keeps-or_give_up :
        (o : Option A) (f : A → M Outcome) → ((a : A) → Keeps P (f a)) → Keeps P (or_give_up o f)
    unfolding or_give_up
    Keeps-or_give_up none f h = Keeps-pure _
    Keeps-or_give_up (some a) f h = h a

pub ruleset callback_rules = (
  keeps_rules, read_rules, Keeps-unless_failed, Keeps-or_retry, Keeps-or_panic, Keeps-if_parsed,
  Keeps-or_give_up,
)

module _ {A : Type 0} (Post : Outcome → World → Type 0) where
  pub Ends-or_give_up :
      (o : Option A) (f : A → M Outcome) (w : World) (a : A)
      → o ≡ some a
      → Ends (f a) w Post
      → Ends (or_give_up o f) w Post
  unfolding or_give_up
  Ends-or_give_up o f w a eq h = subst (λ x. Ends (or_give_up x f) w Post) (sym eq) h

module _ (Post : Outcome → World → Type 0) where
  pub Ends-or_panic :
      (o : Option ℕ) (f : ℕ → M Outcome) (w : World) (a : ℕ)
      → o ≡ some a
      → Ends (f a) w Post
      → Ends (or_panic o f) w Post
  unfolding or_panic
  Ends-or_panic o f w a eq h = subst (λ x. Ends (or_panic x f) w Post) (sym eq) h

  pub Ends-or_retry :
      (r : Result (Unit {0})) (m : M Outcome) (w : World)
      → r ≡ ok tt
      → Ends m w Post
      → Ends (or_retry r m) w Post
  unfolding or_retry
  Ends-or_retry r m w eq h = subst (λ x. Ends (or_retry x m) w Post) (sym eq) h
