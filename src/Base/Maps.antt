-- ===== src/Base/Maps.antt =====
-- Go maps as association lists: `lookup` is the two-value index `v, ok := m[k]`, `insert` is
-- `m[k] = v`. Keys are compared by an instance.
use c_bridge_node.Base.Tests.{◌==◌ as nat_beq, ==_iff, if◌then◌else◌}
use Prim.Native.Nat.{ℕ}
use Prim.Native.String.{String}
use mathlib.Core.Path.{◌≡◌, ◌∙◌, refl, ap}
use mathlib.Core.Logic.{◌↔◌}
use mathlib.Core.Bool.{Bool, true, false}
use mathlib.Core.Option.{Option, none, some}
use mathlib.Core.List.{List, [], ◌∷◌}
use text.Mathlib.Text.{◌==◌ as str_eq}
use text.Mathlib.TextEquality.{eq_iff}
use native.Mathlib.Omega.{arith}

pub record Eq {ℓ} (A : Type ℓ) : Type ℓ where
  pub beq : A → A → Bool
  pub beq_iff : (x y : A) → (beq x y ≡ true) ↔ (x ≡ y)

instance abbrev pub nat_eq : Eq ℕ
nat_eq = record { beq = nat_beq; beq_iff = ==_iff }

instance abbrev pub string_eq : Eq String
string_eq = record { beq = str_eq; beq_iff = eq_iff }

abbrev pub Map {ℓ κ} : Type ℓ → Type κ → Type (ℓ ⊔ κ)
Map K V = List (K × V)

module _ {ℓ κ} {K : Type ℓ} {V : Type κ} ⦃e : Eq K⦄ where
  unfoldable pub lookup : Map K V → K → Option V
  lookup [] k = none
  lookup ((j, v) ∷ m) k = if e.beq j k then some v else lookup m k

  unfoldable pub insert : Map K V → K → V → Map K V
  insert [] k v = (k, v) ∷ []
  insert ((j, w) ∷ m) k v = if e.beq j k then (k, v) ∷ m else (j, w) ∷ insert m k v

  pub lookup-insert :
      (m : Map K V) (k j : K) (v : V)
      → lookup (insert m k v) j ≡ (if e.beq k j then some v else lookup m j)
  unfolding lookup insert
  lookup-insert [] k j v = refl
  lookup-insert ((i, w) ∷ m) k j v =
      ground (arith, e.beq_iff k j, e.beq_iff i k, e.beq_iff i j, lookup-insert m k j v)

-- `v, found := …; if !found { v = … }`
abbrev pub or_else {ℓ} : {A : Type ℓ} → Option A → A → A
or_else none a = a
or_else (some b) a = b

module _ {ℓ κ} {K : Type ℓ} {V : Type κ} ⦃e : Eq K⦄ where
  -- The value at a key, made anew if there is none, is changed in place.
  unfoldable pub change : Map K V → K → V → (V → V) → Map K V
  change m key fresh f = insert m key (f (or_else (lookup m key) fresh))

module _ {ℓ κ} {V : Type ℓ} {N : Type κ} (μ : V → N) (z : N) where
  -- What a value has of something, `z` where there is no value.
  abbrev pub read : Option V → N
  read none = z
  read (some v) = μ v

  read_fresh : (o : Option V) (fresh : V) → μ fresh ≡ z → μ (or_else o fresh) ≡ read o
  read_fresh none fresh h = h
  read_fresh (some v) fresh h = refl

  read-if :
      (b : Bool) (v : V) (o : Option V) (n : N)
      → (b ≡ true → μ v ≡ n)
      → read (if b then some v else o) ≡ (if b then n else read o)
  read-if true v o n h = h refl
  read-if false v o n h = refl

  pub read-change {ι} :
      {K : Type ι} ⦃e : Eq K⦄ (m : Map K V) (key k : K) (fresh : V) (f : V → V) (g : N → N)
      → μ fresh ≡ z
      → ((v : V) → μ (f v) ≡ g (μ v))
      → read (lookup (change m key fresh f) k)
        ≡ (if e.beq key k then g (read (lookup m k)) else read (lookup m k))
  unfolding change
  read-change ⦃e⦄ m key k fresh f g h law =
      ap read (lookup-insert m key k (f (or_else (lookup m key) fresh)))
      ∙ read-if (e.beq key k) (f (or_else (lookup m key) fresh)) (lookup m k)
          (g (read (lookup m k)))
          λ same.
            law (or_else (lookup m key) fresh)
            ∙ ap g (read_fresh (lookup m key) fresh h)
            ∙ ap (λ j. g (read (lookup m j))) ((e.beq_iff key k).0 same)
