-- ===== src/Exec/Steps.antt =====
-- What every single effect of an action does, in whatever worlds the effects fall: a relation
-- between the table and the transactions before it and those after it.
use c_bridge_node.Base.{ℕ, Bool, true, false, Option, none, some, List, [], ◌∷◌, if◌then◌else◌}
use c_bridge_node.Base.Lists.{All}
use c_bridge_node.Transfer.{Row}
use c_bridge_node.World.{World, Env, Sent, Result, ok, err}
use c_bridge_node.Exec.{M, done, act, pure, ask, gets, ◌>>=◌, ◌>>◌, or_skip, if_found, for_each}
use c_bridge_node.Exec.Threads.{Pool, Turn, here, there}

pub record Relation : Type 1 where
  pub rel : List Row → List Sent → List Row → List Sent → Type 0
  pub reflexive : (t : List Row) (s : List Sent) → rel t s t s

module _ (ρ : Relation) where
  abbrev pub Each : {A : Type 0} → M A → Type 0
  Each (done a) = Unit
  Each (act g next) = (w : World) → ρ.rel w.table w.sent (g w).table (g w).sent × Each (next w)

  pub record Steps {A : Type 0} (m : M A) : Type 0 where
    pub each : Each m

  abbrev pub AllStep : Pool → Type 0
  AllStep = All (λ m. Each m)

  -- Whichever goroutine has its turn, it is such a step.
  pub Turn-steps :
      {pool pool' : Pool} {w w' : World}
      → Turn pool w pool' w'
      → AllStep pool
      → ρ.rel w.table w.sent w'.table w'.sent × AllStep pool'
  Turn-steps {w} here all = ((all.0 w).0, ((all.0 w).1, all.1))
  Turn-steps (there turn) all = let (r, rest) = Turn-steps turn all.1 in (r, (all.0, rest))

  Each-bind :
      {A B : Type 0} (m : M A) (f : A → M B) → Each m → ((a : A) → Each (f a)) → Each (m >>= f)
  unfolding ◌>>=◌
  Each-bind (done a) f h k = k a
  Each-bind (act g next) f h k = λ w. ((h w).0, Each-bind (next w) f (h w).1 k)

module _ {ρ : Relation} {A : Type 0} where
  pub Steps-pure : (a : A) → Steps ρ (pure a)
  unfolding pure
  Steps-pure a = record { each = tt }

  pub Steps-ask : (f : Env → ℕ → A) → Steps ρ (ask f)
  unfolding ask
  Steps-ask f = record { each = λ w. (ρ.reflexive w.table w.sent, tt) }

  pub Steps-gets : (f : World → A) → Steps ρ (gets f)
  unfolding gets
  Steps-gets f = record { each = λ w. (ρ.reflexive w.table w.sent, tt) }

  pub Steps-if : (test : Bool) (m n : M A) → Steps ρ m → Steps ρ n → Steps ρ (if test then m else n)
  Steps-if true m n hm hn = hm
  Steps-if false m n hm hn = hn

module _ {ρ : Relation} {A : Type 0} where
  pub Steps-or_skip :
      (r : Result A) (f : A → M (Unit {0})) → ((a : A) → Steps ρ (f a)) → Steps ρ (or_skip r f)
  unfolding or_skip pure
  Steps-or_skip (ok a) f h = h a
  Steps-or_skip (err e) f h = record { each = tt }

  pub Steps-if_found :
      (o : Option A) (f : A → M (Unit {0})) → ((a : A) → Steps ρ (f a)) → Steps ρ (if_found o f)
  unfolding if_found pure
  Steps-if_found (some a) f h = h a
  Steps-if_found none f h = record { each = tt }

module _ {ρ : Relation} {A B : Type 0} where
  pub Steps-bind :
      (m : M A) (f : A → M B) → Steps ρ m → ((a : A) → Steps ρ (f a)) → Steps ρ (m >>= f)
  Steps-bind m f h k = record { each = Each-bind ρ m f h.each (λ a. (k a).each) }

  pub Steps-then : (m : M A) (n : M B) → Steps ρ m → Steps ρ n → Steps ρ (m >> n)
  Steps-then m n h k = Steps-bind m (λ _. n) h (λ _. k)

module _ {ρ : Relation} {A : Type 0} where
  pub Steps-for_each :
      (body : A → M (Unit {0})) (xs : List A)
      → ((x : A) → Steps ρ (body x))
      → Steps ρ (for_each body xs)
  unfolding for_each
  Steps-for_each body [] h = Steps-pure tt
  Steps-for_each body (x ∷ xs) h =
      Steps-bind (body x) (λ _. for_each body xs) (h x) (λ _. Steps-for_each body xs h)

pub ruleset steps_rules = (
  Steps-pure, Steps-ask, Steps-gets, Steps-if, Steps-then, Steps-bind, Steps-or_skip,
  Steps-if_found, Steps-for_each,
)
