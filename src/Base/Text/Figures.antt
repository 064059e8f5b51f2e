-- ===== src/Base/Text/Figures.antt =====
-- A reader that finds the numbers in a text, and what it finds where %d has written one.
use c_bridge_node.Base.Tests.{◌==◌, leb, if◌then◌else◌, Bool-cases}
use c_bridge_node.Base.Text.{Text, decimal_from, decimal, HasNoNewline}
use Prim.Native.Nat.{ℕ, zero, suc, ◌+◌, ◌-◌, ◌*◌, ◌/◌, ◌%◌, ◌≤◌}
use mathlib.Core.Path.{◌≡◌, refl, sym, ap, ◌∙◌}
use mathlib.Core.Logic.{inl, inr}
use mathlib.Core.Bool.{Bool, true, false, ◌&&◌}
use mathlib.Core.Option.{Option, none, some}
use mathlib.Core.List.{List, [], ◌∷◌, ◌++◌, append-nil}
use native.Mathlib.Omega.{arith}

unfoldable pub is_digit : ℕ → Bool
is_digit c = leb b'0' c && leb c b'9'

abbrev so_far : Option ℕ → ℕ
so_far none = 0
so_far (some n) = n

abbrev pub put : Option ℕ → List ℕ → List ℕ
put none later = later
put (some n) later = n ∷ later

-- The numbers in a text, of which one may have begun before it.
unfoldable pub figures_from : Option ℕ → Text → List ℕ
figures_from begun [] = put begun []
figures_from begun (c ∷ s) =
    let longer = figures_from (some (so_far begun * 10 + (c - b'0'))) s in
    let later = put begun (figures_from none s) in if is_digit c then longer else later

unfoldable pub figures : Text → List ℕ
unfolding figures_from
figures s = figures_from none s

figures_from-digit :
    (begun : Option ℕ) (d : ℕ) (later : Text)
    → d ≤ 9
    → figures_from begun ((b'0' + d) ∷ later) ≡ figures_from (some (so_far begun * 10 + d)) later
unfolding figures_from is_digit
figures_from-digit begun d later small =
    let digit : (leb b'0' (b'0' + d) && leb (b'0' + d) b'9') ≡ true = ground arith in
    rw digit (ap (λ (n : ℕ). figures_from (some (so_far begun * 10 + n)) later) (omega arith))

decimal_from-figures :
    (fuel n : ℕ) (later : Text)
    → n ≤ fuel
    → figures_from (some 0) (decimal_from fuel n later) ≡ figures_from (some n) later
unfolding decimal_from
decimal_from-figures zero n later enough = ap (λ (m : ℕ). figures_from (some m) later) (omega arith)
decimal_from-figures (suc fuel) n later enough = elim (Bool-cases (n == 0)) [
  | inl e ↦ rw e (ap (λ (m : ℕ). figures_from (some m) later) (ground arith))
  | inr e ↦ rw e (
      decimal_from-figures fuel (n / 10) ((b'0' + n % 10) ∷ later) (ground arith)
      ∙ figures_from-digit (some (n / 10)) (n % 10) later (omega arith)
      ∙ ap (λ (m : ℕ). figures_from (some m) later) (omega arith))
]

decimal_from-zero : (fuel n : ℕ) (later : Text) → n ≡ 0 → decimal_from fuel n later ≡ later
unfolding decimal_from
decimal_from-zero zero n later e = refl
decimal_from-zero (suc fuel) n later e = ground arith

-- A number that has begun with nothing yet is as one that begins.
decimal_from-begin :
    (fuel n : ℕ) (later : Text)
    → n ≤ fuel
    → (n == 0) ≡ false
    → figures_from none (decimal_from fuel n later)
      ≡ figures_from (some 0) (decimal_from fuel n later)
unfolding decimal_from
decimal_from-begin zero n later enough positive = absurd (ground arith)
decimal_from-begin (suc fuel) n later enough positive =
    let d = b'0' + n % 10 in
    rw positive (elim (Bool-cases (n / 10 == 0)) [
      | inl e ↦ rw (decimal_from-zero fuel (n / 10) (d ∷ later) (ground arith)) (
          figures_from-digit none (n % 10) later (omega arith)
          ∙ sym (figures_from-digit (some 0) (n % 10) later (omega arith)))
      | inr e ↦ decimal_from-begin fuel (n / 10) (d ∷ later) (ground arith) e
    ])

decimal_from-append :
    (fuel n : ℕ) (s later : Text)
    → decimal_from fuel n s ++ later ≡ decimal_from fuel n (s ++ later)
unfolding decimal_from
decimal_from-append zero n s later = refl
decimal_from-append (suc fuel) n s later = elim (Bool-cases (n == 0)) [
  | inl e ↦ rw e refl
  | inr e ↦ rw e (decimal_from-append fuel (n / 10) ((b'0' + n % 10) ∷ s) later)
]

-- The reader goes on from a number that was written.
pub figures_from-decimal :
    (n : ℕ) (later : Text) → figures_from none (decimal n ++ later) ≡ figures_from (some n) later
unfolding decimal
figures_from-decimal n later = elim (Bool-cases (n == 0)) [
  | inl e ↦ rw e (
      figures_from-digit none 0 later (omega arith)
      ∙ ap (λ (m : ℕ). figures_from (some m) later) (ground arith))
  | inr e ↦
      rw (e, decimal_from-append n n [] later)
        (decimal_from-begin n n later (omega arith) e
          ∙ decimal_from-figures n n later (omega arith))
]

pub figures-decimal : (n : ℕ) → figures (decimal n) ≡ n ∷ []
unfolding figures figures_from
figures-decimal n =
    ap (figures_from none) (sym (append-nil (decimal n))) ∙ figures_from-decimal n []

digits_no_newline :
    (fuel n : ℕ) (later : Text) → HasNoNewline later → HasNoNewline (decimal_from fuel n later)
unfolding decimal_from
digits_no_newline zero n later h = h
digits_no_newline (suc fuel) n later h = elim (Bool-cases (n == 0)) [
  | inl e ↦ rw e h
  | inr e ↦ rw e (digits_no_newline fuel (n / 10) _ ((λ nl. absurd (omega arith)), h))
]

pub decimal-HasNoNewline : (n : ℕ) → HasNoNewline (decimal n)
unfolding decimal
decimal-HasNoNewline n = elim (Bool-cases (n == 0)) [
  | inl e ↦ rw e ((λ nl. absurd (omega arith)), tt)
  | inr e ↦ rw e (digits_no_newline n n [] tt)
]
