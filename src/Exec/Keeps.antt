-- ===== src/Exec/Keeps.antt =====
-- Invariants of actions, with one rule for each way to build an action.
use c_bridge_node.Base.{
  ◌≡◌, refl, Bool, true, false, Option, none, some, List, [], ◌∷◌, if◌then◌else◌,
}
use c_bridge_node.Base.Lists.{All, All-mono}
use c_bridge_node.World.{World, Result, ok, err}
use c_bridge_node.Exec.{
  M, done, act, perform, perform->>=, pure, gets, ◌>>=◌, ◌>>◌, or_skip, if_found, for_each,
}

-- Every effect of `m` keeps `P`, whatever else has kept it in between, and its value has `Q`.
abbrev pub Always : {A : Type 0} → (World → Type 0) → (A → Type 0) → M A → Type 0
Always P Q (done a) = Q a
Always P Q (act g next) = (w : World) → P w → P (g w) × Always P Q (next w)

-- `m` keeps `P`.
pub record Keeps {A : Type 0} (P : World → Type 0) (m : M A) : Type 0 where
  pub always : Always P (λ a. Unit {0}) m

-- `m` keeps `P`, and its value has `Q`.
pub record Yields {A : Type 0} (P : World → Type 0) (m : M A) (Q : A → Type 0) : Type 0 where
  pub always : Always P Q m

module _ {A B : Type 0} (P : World → Type 0) (Q : A → Type 0) (R : B → Type 0) where
  Always-bind :
      (m : M A) (f : A → M B)
      → Always P Q m
      → ((a : A) → Q a → Always P R (f a))
      → Always P R (m >>= f)
  unfolding ◌>>=◌
  Always-bind (done a) f h k = k a h
  Always-bind (act g next) f h k = λ w p. ((h w p).0, Always-bind (next w) f (h w p).1 k)

module _ {A : Type 0} (P : World → Type 0) (Q R : A → Type 0) where
  Always-mono : (m : M A) → ((a : A) → Q a → R a) → Always P Q m → Always P R m
  Always-mono (done a) f h = f a h
  Always-mono (act g next) f h = λ w p. ((h w p).0, Always-mono (next w) f (h w p).1)

module _ {A : Type 0} (P : World → Type 0) (Q : A → Type 0) where
  -- Alone, the action ends where `P` holds, with a value that has `Q`.
  pub Always-perform :
      (m : M A) → Always P Q m → (w : World) → P w → P (perform m w).1 × Q (perform m w).0
  Always-perform (done a) h w p = (p, h)
  Always-perform (act g next) h w p = Always-perform (next w) (h w p).1 (g w) (h w p).0

module _ {A : Type 0} {P : World → Type 0} where
  pub Keeps-perform : {m : M A} → Keeps P m → (w : World) → P w → P (perform m w).1
  Keeps-perform {m} k w p = (Always-perform P (λ a. Unit {0}) m k.always w p).0

  pub Yields-perform :
      {m : M A} {Q : A → Type 0} → Yields P m Q → (w : World) → P w → Q (perform m w).0
  Yields-perform {m} {Q} y w p = (Always-perform P Q m y.always w p).1

  pub Keeps-pure : (a : A) → Keeps P (pure a)
  unfolding pure
  Keeps-pure a = record { always = tt }

  pub Keeps-gets : (f : World → A) → Keeps P (gets f)
  unfolding gets
  Keeps-gets f = record { always = λ w h. (h, tt) }

  pub Keeps-if :
      (test : Bool) (m n : M A)
      → (test ≡ true → Keeps P m)
      → (test ≡ false → Keeps P n)
      → Keeps P (if test then m else n)
  Keeps-if true m n holds fails = holds refl
  Keeps-if false m n holds fails = fails refl

module _ {A B : Type 0} {P : World → Type 0} where
  pub Keeps-bind :
      (first : M A) (next : A → M B)
      → Keeps P first
      → ((a : A) → Keeps P (next a))
      → Keeps P (first >>= next)
  unfolding ◌>>=◌
  Keeps-bind first next k_first k_next = record {
    always = Always-bind P _ _ first next k_first.always (λ a u. (k_next a).always);
  }

  pub Keeps-then : (m : M A) (n : M B) → Keeps P m → Keeps P n → Keeps P (m >> n)
  Keeps-then m n km kn = Keeps-bind m (λ _. n) km (λ _. kn)

  pub Keeps-bind_Yields :
      (m : M A) (f : A → M B) (Q : A → Type 0)
      → Yields P m Q
      → ((a : A) → Q a → Keeps P (f a))
      → Keeps P (m >>= f)
  unfolding ◌>>=◌
  Keeps-bind_Yields m f Q ym kf = record {
    always = Always-bind P Q _ m f ym.always (λ a q. (kf a q).always);
  }

module _ {A : Type 0} {P : World → Type 0} where
  pub Keeps-or_skip :
      (r : Result A) (f : A → M (Unit {0}))
      → ((a : A) → r ≡ ok a → Keeps P (f a))
      → Keeps P (or_skip r f)
  unfolding or_skip
  Keeps-or_skip (ok a) f kf = kf a refl
  Keeps-or_skip (err e) f kf = Keeps-pure tt

  pub Keeps-if_found :
      (o : Option A) (f : A → M (Unit {0}))
      → ((a : A) → o ≡ some a → Keeps P (f a))
      → Keeps P (if_found o f)
  unfolding if_found
  Keeps-if_found (some a) f kf = kf a refl
  Keeps-if_found none f kf = Keeps-pure tt

  pub Keeps-for_each :
      (body : A → M (Unit {0})) (xs : List A)
      → All (λ x. Keeps P (body x)) xs
      → Keeps P (for_each body xs)
  unfolding for_each
  Keeps-for_each body [] h = Keeps-pure tt
  Keeps-for_each body (x ∷ xs) h =
      Keeps-bind (body x) (λ _. for_each body xs) h.0 (λ _. Keeps-for_each body xs h.1)

  pub Keeps-for_each_any :
      (body : A → M (Unit {0})) (xs : List A)
      → ((x : A) → Keeps P (body x))
      → Keeps P (for_each body xs)
  unfolding for_each
  Keeps-for_each_any body [] h = Keeps-pure tt
  Keeps-for_each_any body (x ∷ xs) h =
      Keeps-bind (body x) (λ _. for_each body xs) (h x) (λ _. Keeps-for_each_any body xs h)

module _ {A B : Type 0} {P : World → Type 0} where
  pub Yields-bind :
      (m : M A) (f : A → M B) (Q : A → Type 0) (R : B → Type 0)
      → Yields P m Q
      → ((a : A) → Q a → Yields P (f a) R)
      → Yields P (m >>= f) R
  unfolding ◌>>=◌
  Yields-bind m f Q R ym yf = record {
    always = Always-bind P Q R m f ym.always (λ a q. (yf a q).always);
  }

module _ {A : Type 0} {P : World → Type 0} where
  pub Yields-pure : (a : A) (Q : A → Type 0) → Q a → Yields P (pure a) Q
  unfolding pure
  Yields-pure a Q q = record { always = q }

  -- Of a value nothing need be known.
  pub Yields-Unit : (m : M A) → Keeps P m → Yields P m (λ a. Unit {0})
  Yields-Unit m k = record { always = k.always }

-- `if err != nil { return }` and a loop over the rows that a query found, of which `Q` is known.
module _ {A : Type 0} where
  abbrev pub OnOk : (List A → Type 0) → Result (List A) → Type 0
  OnOk Q (ok xs) = Q xs
  OnOk Q (err e) = Unit

  pub OnOk-mono :
      (Q R : List A → Type 0) (r : Result (List A))
      → ((xs : List A) → Q xs → R xs)
      → OnOk Q r
      → OnOk R r
  OnOk-mono Q R (ok xs) f h = f xs h
  OnOk-mono Q R (err e) f h = tt

module _ {A : Type 0} {P : World → Type 0} where
  pub Yields-mono :
      (m : M A) (Q R : A → Type 0) → ((a : A) → Q a → R a) → Yields P m Q → Yields P m R
  Yields-mono m Q R f y = record { always = Always-mono P Q R m f y.always }

  pub Keeps-loop :
      (m : M (Result (List A))) (body : A → M (Unit {0})) (Q : A → Type 0)
      → Yields P m (OnOk (All Q))
      → ((x : A) → Q x → Keeps P (body x))
      → Keeps P (m >>= λ r. or_skip r (for_each body))
  unfolding or_skip
  Keeps-loop m body Q ym kb = Keeps-bind_Yields m _ (OnOk (All Q)) ym over
    where
      over : (r : Result (List A)) → OnOk (All Q) r → Keeps P (or_skip r (for_each body))
      over (ok xs) h = Keeps-for_each body xs (All-mono Q xs kb h)
      over (err e) h = Keeps-pure tt

  -- The query may be made under a stronger predicate than the loop keeps.
  pub loop_from :
      (m : M (Result (List A))) (body : A → M (Unit {0})) (Q : A → Type 0) (P₀ : World → Type 0)
      → Yields P₀ m (OnOk (All Q))
      → ((w : World) → P₀ w → P w)
      → ((x : A) → Q x → Keeps P (body x))
      → (w : World) → P₀ w
      → P (perform (m >>= λ r. or_skip r (for_each body)) w).1
  unfolding or_skip
  loop_from m body Q P₀ ym weaken kb w h =
      rw (perform->>= m (λ r. or_skip r (for_each body)) w) (over (perform m w).0 (ends.1))
    where
      ends : P₀ (perform m w).1 × OnOk (All Q) (perform m w).0
      ends = Always-perform P₀ (OnOk (All Q)) m ym.always w h

      over :
          (r : Result (List A))
          → OnOk (All Q) r
          → P (perform (or_skip r (for_each body)) (perform m w).1).1
      over (ok xs) q =
          Keeps-perform (Keeps-for_each body xs (All-mono Q xs kb q)) (perform m w).1
            (weaken (perform m w).1 ends.0)
      over (err e) q =
          Keeps-perform (Keeps-pure {P = P} tt) (perform m w).1 (weaken (perform m w).1 ends.0)

pub ruleset keeps_rules = (
  Keeps-pure, Keeps-gets, Keeps-if, Keeps-then, Keeps-bind, Keeps-or_skip, Keeps-if_found,
  Keeps-for_each_any,
)
