-- ===== src/Exec.antt =====
-- Code that acts on the world, as a sequence of effects: between two of them another goroutine may
-- act. A Go error is a value, so an action itself never fails.
pub mod Keeps
pub mod Views
pub mod Threads
pub mod Relies
pub mod Ends
pub mod Outlines
pub mod Steps
use c_bridge_node.Base.{ℕ, suc, ◌≡◌, refl, Bool, true, false, Option, none, some, List, [], ◌∷◌}
use c_bridge_node.World.{World, Env, Fault, Result, ok, err}

-- `act g next`: one effect takes the world `w` to `g w`, and what follows may depend on what it saw.
pub data M (A : Type 0) : Type 0 where
  done : A → M A
  act : (World → World) → (World → M A) → M A

unfoldable pub pure : {A : Type 0} → A → M A
pure a = done a

-- One answer of the environment. Each takes the number of an effect.
unfoldable pub ask : {A : Type 0} → (Env → ℕ → A) → M A
ask f = act (λ w. record w { steps = suc w.steps }) (λ w. done (f w.env w.steps))

-- Reads what does not change with time.
unfoldable pub gets : {A : Type 0} → (World → A) → M A
gets f = act (λ w. w) (λ w. done (f w))

unfoldable pub modify : (World → World) → M (Unit {0})
modify f = act f (λ w. done tt)

-- The action alone, from start to end: its value, and the world after it.
abbrev pub perform : {A : Type 0} → M A → World → A × World
perform (done a) w = (a, w)
perform (act g next) w = perform (next w) (g w)

module _ {A B : Type 0} where
  infixl 10 ◌>>=◌ ◌>>◌
  unfoldable pub ◌>>=◌ : M A → (A → M B) → M B
  unfolding pure ask gets modify
  done a >>= f = f a
  act g next >>= f = act g (λ w. next w >>= f)

  abbrev pub ◌>>◌ : M A → M B → M B
  m >> n = m >>= λ _. n

  -- Alone, one action after another.
  pub perform->>= :
      (m : M A) (f : A → M B) (w : World)
      → perform (m >>= f) w ≡ perform (f (perform m w).0) (perform m w).1
  unfolding ◌>>=◌
  perform->>= (done a) f w = refl
  perform->>= (act g next) f w = perform->>= (next w) f (g w)

-- `continue`, and `return` of a function without a result
abbrev pub skip : M (Unit {0})
skip = pure tt

module _ {A : Type 0} where
  -- `if err != nil { log; continue }`
  unfoldable pub or_skip : Result A → (A → M (Unit {0})) → M (Unit {0})
  or_skip (ok a) f = f a
  or_skip (err e) f = skip

  -- `v, found := m[k]; if found { … }`
  unfoldable pub if_found : Option A → (A → M (Unit {0})) → M (Unit {0})
  if_found (some a) f = f a
  if_found none f = skip

  -- `for _, a := range xs { … }`; a `continue` ends the call of the body.
  unfoldable pub for_each : (A → M (Unit {0})) → List A → M (Unit {0})
  for_each body [] = skip
  for_each body (x ∷ xs) = body x >> for_each body xs
