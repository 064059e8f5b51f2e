-- ===== src/Util/Numbers/PbStr.antt =====
-- What BigInt2PbStr of server/util.go writes.
use c_bridge_node.Base.{
  ℕ, zero, suc, ◌+◌, ◌*◌, ◌/◌, ◌%◌, ◌≡◌, refl, ap, ◌≤◌, ◌<◌, ◌&&◌, List, [], ◌∷◌, arith, ◌==◌,
  if◌then◌else◌, inl, inr, Bool-cases, ◌∙◌,
}
use c_bridge_node.Base.Int.{pos}
use c_bridge_node.Base.Lists.{All}
use c_bridge_node.Util.Hex.{
  from_hex_char, decode_string, prepend_byte, pad_even, hex_char, from_hex_char-hex_char,
}
use c_bridge_node.Util.Hex.Values.{
  hex_value, hex_value_from, IsHexChar, decode_string-value, pad_even-IsPaddedOf,
}
use c_bridge_node.Util.Numbers.{bytes_to_int, hex_digits, text16, pb_pairs, big_int_to_pb_str}

-- A reader of protobuf text: the bytes that \x and two digits stand for, up to anything else.
unfoldable pub read_escapes : List ℕ → List ℕ
read_escapes (a ∷ x ∷ c ∷ d ∷ rest) =
    let later = prepend_byte (from_hex_char c) (from_hex_char d) (read_escapes rest) in
    if a == b'\\' && x == b'x' then later else []
read_escapes _ = []

read_escapes-pb_pairs : (s : List ℕ) → read_escapes (pb_pairs s) ≡ decode_string s
unfolding read_escapes pb_pairs decode_string
read_escapes-pb_pairs [] = refl
read_escapes-pb_pairs (c ∷ []) = refl
read_escapes-pb_pairs (c ∷ d ∷ rest) =
    ap (prepend_byte (from_hex_char c) (from_hex_char d)) (read_escapes-pb_pairs rest)

hex_value-hex_char :
    (acc d : ℕ) (later : List ℕ)
    → d < 16
    → hex_value_from acc (hex_char d ∷ later) ≡ hex_value_from (acc * 16 + d) later
unfolding hex_value_from
hex_value-hex_char acc d later small = rw (from_hex_char-hex_char d small) refl

-- The fuel is enough, and the digits write the number.
hex_digits-value :
    (fuel n : ℕ) (later : List ℕ)
    → n ≤ fuel
    → hex_value (hex_digits fuel n later) ≡ hex_value_from n later
unfolding hex_digits
hex_digits-value zero n later enough = ap (λ m. hex_value_from m later) (omega arith)
hex_digits-value (suc fuel) n later enough = elim (Bool-cases (n == 0)) [
  | inl e ↦ rw e (ap (λ m. hex_value_from m later) (ground arith))
  | inr e ↦ rw e (
      hex_digits-value fuel (n / 16) (hex_char (n % 16) ∷ later) (ground arith)
      ∙ hex_value-hex_char (n / 16) (n % 16) later (omega arith)
      ∙ ap (λ m. hex_value_from m later) (omega arith))
]

hex_digits-IsHexChar :
    (fuel n : ℕ) (later : List ℕ) → All IsHexChar later → All IsHexChar (hex_digits fuel n later)
unfolding hex_digits
hex_digits-IsHexChar zero n later h = h
hex_digits-IsHexChar (suc fuel) n later h = elim (Bool-cases (n == 0)) [
  | inl e ↦ rw e h
  | inr e ↦ rw e (
      hex_digits-IsHexChar fuel (n / 16) (hex_char (n % 16) ∷ later)
        ((n % 16, from_hex_char-hex_char (n % 16) (omega arith)), h))
]

text16-value : (n : ℕ) → All IsHexChar (text16 (pos n)) × (hex_value (text16 (pos n)) ≡ n)
unfolding text16 hex_value_from from_hex_char
text16-value n = elim (Bool-cases (n == 0)) [
  | inl e ↦ rw e (((0, refl), tt), ground arith)
  | inr e ↦ rw e (hex_digits-IsHexChar n n [] tt, hex_digits-value n n [] (omega arith))
]

-- Of a number that is not negative, the text is read back as the bytes of that number.
pub read_escapes-big_int_to_pb_str :
    (n : ℕ) → bytes_to_int (read_escapes (big_int_to_pb_str (pos n))) ≡ pos n
unfolding big_int_to_pb_str bytes_to_int
read_escapes-big_int_to_pb_str n =
    let s = text16 (pos n) in
    let (digits, value) = text16-value n in
    let padded = pad_even-IsPaddedOf s digits in
    rw (read_escapes-pb_pairs (pad_even s))
      (ap pos (decode_string-value 0 (pad_even s) padded.even padded.digits ∙ padded.value ∙ value))
