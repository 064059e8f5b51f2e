-- ===== src/Base/Text.antt =====
-- Texts as lists of code points: fmt's %d, strings.Join with newlines, and a reader that takes such
-- texts apart again.
pub mod Figures
use Prim.Native.Char.{code}
use Prim.Native.String.{[] as empty, ◌∷◌ as cons, String}
use Prim.Native.Nat.{ℕ, zero, suc, ◌+◌, ◌-◌, ◌*◌, ◌/◌, ◌%◌, ◌≤◌}
use mathlib.Core.Path.{◌≡◌, refl, ap, ◌∙◌}
use mathlib.Core.Logic.{◌≢◌, inl, inr}
use mathlib.Core.Bool.{Bool, true, false, ◌&&◌}
use mathlib.Core.Option.{Option, none, some}
use mathlib.Core.List.{List, [], ◌∷◌, ◌++◌}
use native.Mathlib.Omega.{arith}
use c_bridge_node.Base.Tests.{◌==◌, leb, if◌then◌else◌, Bool-cases}
use c_bridge_node.Base.Int.{ℤ, pos, negsuc}
use c_bridge_node.Base.Lists.{All, All-append}

abbrev pub Text : Type 0
Text = List ℕ

-- The code points of a text in the source.
abbrev pub codes : String → Text
codes String.[] = []
codes (String.◌∷◌ c s) = code c ∷ codes s

-- The digits of a number in front of a text. The number itself is fuel enough.
decimal_from : ℕ → ℕ → Text → Text
decimal_from zero n later = later
decimal_from (suc fuel) n later =
    let longer = decimal_from fuel (n / 10) ((b'0' + n % 10) ∷ later) in
    if n == 0 then later else longer

-- %d of an uint64
unfoldable pub decimal : ℕ → Text
unfolding decimal_from
decimal n = if n == 0 then b'0' ∷ [] else decimal_from n n []

-- big.Int's String
unfoldable pub integer : ℤ → Text
unfolding decimal
integer (pos n) = decimal n
integer (negsuc n) = b'-' ∷ decimal (suc n)

-- strings.Join(content, "\n")
unfoldable pub join : List Text → Text
join [] = []
join (line ∷ []) = line
join (line ∷ next ∷ lines) = line ++ b'\n' ∷ join (next ∷ lines)

-- The lines of a text.
add_to_first : ℕ → List Text → List Text
add_to_first c [] = (c ∷ []) ∷ []
add_to_first c (line ∷ lines) = (c ∷ line) ∷ lines

unfoldable pub lines_of : Text → List Text
unfolding add_to_first
lines_of [] = [] ∷ []
lines_of (c ∷ s) = let rest = lines_of s in if c == b'\n' then [] ∷ rest else add_to_first c rest

abbrev pub HasNoNewline : Text → Type 0
HasNoNewline = All (λ c. c ≢ b'\n')

lines_of-line : (line : Text) → HasNoNewline line → lines_of line ≡ line ∷ []
unfolding lines_of
lines_of-line [] h = refl
lines_of-line (c ∷ s) h = ground (arith, h.0, lines_of-line s h.1)

lines_of-append :
    (line rest : Text) → HasNoNewline line → lines_of (line ++ b'\n' ∷ rest) ≡ line ∷ lines_of rest
unfolding lines_of
lines_of-append [] rest h = refl
lines_of-append (c ∷ s) rest h = ground (arith, h.0, lines_of-append s rest h.1)

-- Lines that are joined are those lines again.
pub lines_of-join :
    (line : Text) (lines : List Text)
    → All HasNoNewline (line ∷ lines)
    → lines_of (join (line ∷ lines)) ≡ line ∷ lines
unfolding join
lines_of-join line [] h = lines_of-line line h.0
lines_of-join line (next ∷ lines) h =
    lines_of-append line (join (next ∷ lines)) h.0
    ∙ ap (λ (rest : List Text). line ∷ rest) (lines_of-join next lines h.1)
