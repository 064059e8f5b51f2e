-- ===== src/Util/Hex/Values.antt =====
-- What Hex2Bytes of server/util.go reads from a text of hex digits.
use c_bridge_node.Base.{
  ℕ, ◌+◌, ◌*◌, ◌/◌, ◌%◌, ◌≡◌, refl, ap, Option, none, some, List, [], ◌∷◌, arith, ◌==◌, inl, inr,
  Bool-cases, ◌∙◌,
}
use c_bridge_node.Base.Lists.{length, All}
use c_bridge_node.Util.Numbers.{set_bytes_from, bytes_to_int}
use c_bridge_node.Base.Int.{pos}
use c_bridge_node.Util.Hex.{
  from_hex_char, hex_to_bytes, decode_string, prepend_byte, pad_even, drop_prefix,
}

-- A text of hex digits, as a number that follows acc; another character counts as nothing.
abbrev pub digit_value : Option ℕ → ℕ
digit_value none = 0
digit_value (some d) = d

unfoldable pub hex_value_from : ℕ → List ℕ → ℕ
hex_value_from acc [] = acc
hex_value_from acc (c ∷ cs) = hex_value_from (acc * 16 + digit_value (from_hex_char c)) cs

abbrev pub hex_value : List ℕ → ℕ
hex_value s = hex_value_from 0 s

-- A hex digit, by its value.
abbrev pub IsHexChar : ℕ → Type 0
IsHexChar c = (d : ℕ) × (from_hex_char c ≡ some d)

pair_value : (acc h l : ℕ) → (acc * 16 + h) * 16 + l ≡ acc * 256 + (h * 16 + l)
pair_value acc h l = omega arith

pub decode_string-value :
    (acc : ℕ) (s : List ℕ)
    → length s % 2 ≡ 0
    → All IsHexChar s
    → set_bytes_from acc (decode_string s) ≡ hex_value_from acc s
unfolding set_bytes_from decode_string hex_value_from prepend_byte
decode_string-value acc [] even digits = refl
decode_string-value acc (c ∷ []) even digits = absurd (omega arith)
decode_string-value acc (c ∷ d ∷ rest) even ((h, is_h), ((l, is_l), later)) =
    rw (is_h, is_l)
      (rw (pair_value acc h l)
        (decode_string-value (acc * 256 + (h * 16 + l)) rest (omega arith) later))

decode_string-length :
    (s : List ℕ) → length s % 2 ≡ 0 → All IsHexChar s → length (decode_string s) * 2 ≡ length s
unfolding decode_string prepend_byte
decode_string-length [] even digits = refl
decode_string-length (c ∷ []) even digits = absurd (omega arith)
decode_string-length (c ∷ d ∷ rest) even ((h, is_h), ((l, is_l), later)) =
    rw (is_h, is_l) (omega (arith, decode_string-length rest (omega arith) later))

-- What padding keeps of a text of digits.
pub record IsPaddedOf (s t : List ℕ) : Type 0 where
  pub even : length t % 2 ≡ 0
  pub digits : All IsHexChar t
  pub value : hex_value t ≡ hex_value s
  pub size : length t ≡ (length s + 1) / 2 * 2

pub pad_even-IsPaddedOf : (s : List ℕ) → All IsHexChar s → IsPaddedOf s (pad_even s)
unfolding pad_even hex_value_from from_hex_char
pad_even-IsPaddedOf s h = elim (Bool-cases (length s % 2 == 1)) [
  | inl odd ↦
      rw odd
        (record { even = ground arith; digits = ((0, refl), h); value = refl; size = ground arith })
  | inr even ↦
      rw even (record { even = ground arith; digits = h; value = refl; size = ground arith })
]

-- A text of hex digits is read as the bytes of the number that it writes, one byte for two digits,
-- where an odd number of digits is one that begins with a zero.
pub hex_to_bytes-value :
    (s : List ℕ)
    → All IsHexChar (drop_prefix s)
    → (bytes_to_int (hex_to_bytes s) ≡ pos (hex_value (drop_prefix s)))
      × (length (hex_to_bytes s) ≡ (length (drop_prefix s) + 1) / 2)
unfolding hex_to_bytes bytes_to_int
hex_to_bytes-value s h =
    let t = drop_prefix s in
    let padded = pad_even-IsPaddedOf t h in
    (
      ap pos (decode_string-value 0 (pad_even t) padded.even padded.digits ∙ padded.value),
      omega (arith, decode_string-length (pad_even t) padded.even padded.digits, padded.size),
    )
