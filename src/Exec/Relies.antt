-- ===== src/Exec/Relies.antt =====
-- What an action keeps if every world in which it has its turn is as others and it have left it: rules
-- with one more predicate, which is given at each effect and not shown after it.
use c_bridge_node.Base.{
  ◌≡◌, refl, true, false, Bool, Option, none, some, List, [], ◌∷◌, if◌then◌else◌,
}
use c_bridge_node.Base.Lists.{All, All-mono}
use c_bridge_node.World.{World, Result, ok, err}
use c_bridge_node.Exec.{M, done, act, perform, pure, ◌>>=◌, or_skip, if_found, for_each}
use c_bridge_node.Exec.Keeps.{Always, Keeps, Yields, OnOk}
use c_bridge_node.Exec.Threads.{Pool, Turn, here, there}

-- Each effect keeps `P` in a world that has `T`, and the value has `Q`.
abbrev pub Under : {A : Type 0} → (World → Type 0) → (World → Type 0) → (A → Type 0) → M A → Type 0
Under T P Q (done a) = Q a
Under T P Q (act g next) = (w : World) → T w → P w → P (g w) × Under T P Q (next w)

pub record Relies {A : Type 0} (T P : World → Type 0) (m : M A) (Q : A → Type 0) : Type 0 where
  pub always : Under T P Q m

module _ {A : Type 0} (T P R : World → Type 0) (Q : A → Type 0)
    (join : (w : World) → T w → P w → R w) (split : (w : World) → R w → P w) where
  Under-Always : (m : M A) → Always R Q m → Under T P Q m
  Under-Always (done a) h = h
  Under-Always (act g next) h =
      λ w t p. let (r, later) = h w (join w t p) in (split (g w) r, Under-Always (next w) later)

  -- What is kept together with the given predicate, such as by a question.
  pub Relies-Yields : {m : M A} → Yields R m Q → Relies T P m Q
  Relies-Yields {m} y = record { always = Under-Always m y.always }

module _ {A B : Type 0} (T P : World → Type 0) (Q : A → Type 0) (R : B → Type 0) where
  Under-bind :
      (m : M A) (f : A → M B)
      → Under T P Q m
      → ((a : A) → Q a → Under T P R (f a))
      → Under T P R (m >>= f)
  unfolding ◌>>=◌
  Under-bind (done a) f h k = k a h
  Under-bind (act g next) f h k = λ w t p. ((h w t p).0, Under-bind (next w) f (h w t p).1 k)

-- It keeps `P`, and its value is of no interest.
abbrev pub KeepsUnder : (World → Type 0) → (World → Type 0) → M (Unit {0}) → Type 0
KeepsUnder T P m = Relies T P m (λ u. Unit {0})

module _ {T P : World → Type 0} where
  pub Relies-Keeps : {A : Type 0} {m : M A} → Keeps P m → Relies T P m (λ a. Unit {0})
  Relies-Keeps {m} k = record {
    always = Under-Always T P P (λ a. Unit {0}) (λ w t p. p) (λ w p. p) m k.always;
  }

  pub Relies-pure : KeepsUnder T P (pure tt)
  unfolding pure
  Relies-pure = record { always = tt }

  pub Relies-bind :
      {A B : Type 0} (m : M A) (f : A → M B) (Q : A → Type 0) (R : B → Type 0)
      → Relies T P m Q
      → ((a : A) → Q a → Relies T P (f a) R)
      → Relies T P (m >>= f) R
  Relies-bind m f Q R rm rf = record {
    always = Under-bind T P Q R m f rm.always (λ a q. (rf a q).always);
  }

  pub Relies-if :
      (test : Bool) (m n : M (Unit {0}))
      → (test ≡ true → KeepsUnder T P m)
      → (test ≡ false → KeepsUnder T P n)
      → KeepsUnder T P (if test then m else n)
  Relies-if true m n holds fails = holds refl
  Relies-if false m n holds fails = fails refl

  pub Relies-or_skip :
      {A : Type 0} (r : Result A) (f : A → M (Unit {0}))
      → ((a : A) → r ≡ ok a → KeepsUnder T P (f a))
      → KeepsUnder T P (or_skip r f)
  unfolding or_skip
  Relies-or_skip (ok a) f k = k a refl
  Relies-or_skip (err e) f k = Relies-pure

  pub Relies-if_found :
      {A : Type 0} (o : Option A) (f : A → M (Unit {0}))
      → ((a : A) → o ≡ some a → KeepsUnder T P (f a))
      → KeepsUnder T P (if_found o f)
  unfolding if_found
  Relies-if_found (some a) f k = k a refl
  Relies-if_found none f k = Relies-pure

  pub Relies-for_each :
      {A : Type 0} (body : A → M (Unit {0})) (xs : List A)
      → All (λ x. KeepsUnder T P (body x)) xs
      → KeepsUnder T P (for_each body xs)
  unfolding for_each
  Relies-for_each body [] h = Relies-pure
  Relies-for_each body (x ∷ xs) h =
      Relies-bind (body x) _ _ _ h.0 (λ u v. Relies-for_each body xs h.1)

  -- A loop over what a query returned.
  pub Relies-each_ok :
      {A : Type 0} (Q : A → Type 0) (body : A → M (Unit {0})) (r : Result (List A))
      → ((x : A) → Q x → KeepsUnder T P (body x))
      → OnOk (All Q) r
      → KeepsUnder T P (or_skip r (for_each body))
  unfolding or_skip
  Relies-each_ok Q body (ok xs) k h = Relies-for_each body xs (All-mono Q xs k h)
  Relies-each_ok Q body (err e) k h = Relies-pure

  pub Relies-loop :
      {A : Type 0} (m : M (Result (List A))) (body : A → M (Unit {0})) (Q : A → Type 0)
      → Relies T P m (OnOk (All Q))
      → ((x : A) → Q x → KeepsUnder T P (body x))
      → KeepsUnder T P (m >>= λ r. or_skip r (for_each body))
  Relies-loop m body Q found k =
      Relies-bind m _ (OnOk (All Q)) _ found (λ r h. Relies-each_ok Q body r k h)

abbrev pub AllUnder : (World → Type 0) → (World → Type 0) → Pool → Type 0
AllUnder T P = All (λ m. Under T P (λ u. Unit {0}) m)

-- A turn in a world that has `T`.
pub Turn-Under :
    (T P : World → Type 0) {pool pool' : Pool} {w w' : World}
    → Turn pool w pool' w'
    → T w
    → AllUnder T P pool
    → P w
    → P w' × AllUnder T P pool'
Turn-Under T P {w} here t all p = ((all.0 w t p).0, ((all.0 w t p).1, all.1))
Turn-Under T P (there turn) t all p =
    let (p', all') = Turn-Under T P turn t all.1 p in (p', (all.0, all'))

-- Every world that the action alone comes through has `T`.
abbrev pub Along : {A : Type 0} → (World → Type 0) → M A → World → Type 0
Along T (done a) w = Unit
Along T (act g next) w = T w × Along T (next w) (g w)

Under-perform :
    {A : Type 0} (T P : World → Type 0) (Q : A → Type 0) (m : M A) (w : World)
    → Under T P Q m
    → Along T m w
    → P w
    → P (perform m w).1
Under-perform T P Q (done a) w u along p = p
Under-perform T P Q (act g next) w u along p =
    let (p', u') = u w along.0 p in Under-perform T P Q (next w) (g w) u' along.1 p'

pub Relies-perform :
    {A : Type 0} {T P : World → Type 0} {Q : A → Type 0} {m : M A}
    → Relies T P m Q
    → (w : World) → Along T m w
    → P w
    → P (perform m w).1
Relies-perform {T} {P} {Q} {m} r w along p = Under-perform T P Q m w r.always along p
