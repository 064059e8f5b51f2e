-- ===== src/Exec/Outlines.antt =====
-- Outlines of actions: between two effects the action knows the phase that it is in, while others
-- may do what keeps every phase.
use c_bridge_node.Base.{Bool, true, false, Option, some, none, if◌then◌else◌}
use c_bridge_node.World.{World, Result, ok, err}
use c_bridge_node.Exec.{M, done, act, pure, ◌>>=◌, or_skip, if_found}
use c_bridge_node.Exec.Keeps.{Always, Keeps}

-- The phases, each with what holds of the world in it.
module _ {Ph : Type 0} (In : Ph → World → Type 0) where
  -- From this phase, each effect of `m` ends in some phase, and its value and last phase have `Q`.
  abbrev pub Outline : {A : Type 0} → Ph → (A → Ph → Type 0) → M A → Type 0
  Outline p Q (done a) = Q a p
  Outline p Q (act g next) = (w : World) → In p w → (p' : Ph) × In p' (g w) × Outline p' Q (next w)

module _ {Ph : Type 0} (In : Ph → World → Type 0) {A B : Type 0} where
  pub Outline-bind :
      (p : Ph) (Q : A → Ph → Type 0) (R : B → Ph → Type 0) (m : M A) (f : A → M B)
      → Outline In p Q m
      → ((a : A) (p' : Ph) → Q a p' → Outline In p' R (f a))
      → Outline In p R (m >>= f)
  unfolding ◌>>=◌
  Outline-bind p Q R (done a) f h k = k a p h
  Outline-bind p Q R (act g next) f h k =
      λ w i. let (p', i', rest) = h w i in (p', i', Outline-bind p' Q R (next w) f rest k)

  -- An action that keeps the phase.
  pub Outline-Always :
      (p : Ph) (Q : A → Type 0) (R : B → Ph → Type 0) (m : M A) (f : A → M B)
      → Always (In p) Q m
      → ((a : A) → Q a → Outline In p R (f a))
      → Outline In p R (m >>= f)
  unfolding ◌>>=◌
  Outline-Always p Q R (done a) f h k = k a h
  Outline-Always p Q R (act g next) f h k =
      λ w i. (p, (h w i).0, Outline-Always p Q R (next w) f (h w i).1 k)

  pub Outline-Keeps-bind :
      (p : Ph) (R : B → Ph → Type 0) (m : M A) (f : A → M B)
      → Keeps (In p) m
      → ((a : A) → Outline In p R (f a))
      → Outline In p R (m >>= f)
  Outline-Keeps-bind p R m f kept k = Outline-Always p _ R m f kept.always (λ a u. k a)

module _ {Ph : Type 0} (In : Ph → World → Type 0) {A : Type 0} where
  -- Whatever keeps a phase has an outline that stays in it.
  pub Outline-Keeps :
      (p : Ph) (Q : A → Ph → Type 0) (m : M A)
      → Keeps (In p) m
      → ((a : A) → Q a p)
      → Outline In p Q m
  Outline-Keeps p Q m kept q = stay m kept.always
    where
      stay : (n : M A) → Always (In p) (λ a. Unit {0}) n → Outline In p Q n
      stay (done a) h = q a
      stay (act g next) h = λ w i. (p, (h w i).0, stay (next w) (h w i).1)

  pub Outline-if :
      (p : Ph) (Q : A → Ph → Type 0) (test : Bool) (m n : M A)
      → Outline In p Q m
      → Outline In p Q n
      → Outline In p Q (if test then m else n)
  Outline-if p Q true m n hm hn = hm
  Outline-if p Q false m n hm hn = hn

-- Where it does not matter in which phase the action ends.
abbrev pub Anywhere : {Ph : Type 0} → Unit {0} → Ph → Type 0
Anywhere u p = Unit

module _ {Ph : Type 0} (In : Ph → World → Type 0) {A : Type 0} where
  pub Outline-or_skip :
      (p : Ph) (r : Result A) (f : A → M (Unit {0}))
      → ((a : A) → Outline In p Anywhere (f a))
      → Outline In p Anywhere (or_skip r f)
  unfolding or_skip pure
  Outline-or_skip p (ok a) f h = h a
  Outline-or_skip p (err e) f h = tt

  pub Outline-if_found :
      (p : Ph) (o : Option A) (f : A → M (Unit {0}))
      → ((a : A) → Outline In p Anywhere (f a))
      → Outline In p Anywhere (if_found o f)
  unfolding if_found pure
  Outline-if_found p (some a) f h = h a
  Outline-if_found p none f h = tt
