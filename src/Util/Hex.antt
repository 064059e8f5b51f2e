-- ===== src/Util/Hex.antt =====
-- server/util.go: Hex2Bytes and Bytes2Hex, with encoding/hex's DecodeString and EncodeToString.
pub mod Values
use c_bridge_node.Base.{
  ℕ, ◌+◌, ◌-◌, ◌*◌, ◌/◌, ◌%◌, ◌<◌, ◌≡◌, refl, ap, Bool, true, false, ◌&&◌, ◌||◌, Option, none, some,
  List, [], ◌∷◌, map, arith, leb, ltb, ◌==◌, if◌then◌else◌,
}
use c_bridge_node.Base.Lists.{length, All}

-- The value of a hex digit, in either case.
unfoldable pub from_hex_char : ℕ → Option ℕ
from_hex_char c =
    if leb b'0' c && leb c b'9'
    then some (c - b'0')
    else if leb b'a' c && leb c b'f'
    then some (c - b'a' + 10)
    else if leb b'A' c && leb c b'F'
    then some (c - b'A' + 10)
    else none

-- The byte before the ones that follow, if both its digits are digits.
unfoldable pub prepend_byte : Option ℕ → Option ℕ → List ℕ → List ℕ
prepend_byte (some h) (some l) rest = (h * 16 + l) ∷ rest
prepend_byte (some h) none rest = []
prepend_byte none l rest = []

-- hex.DecodeString without its error: the bytes before the first one that is not two digits.
unfoldable pub decode_string : List ℕ → List ℕ
decode_string [] = []
decode_string (c ∷ []) = []
decode_string (c ∷ d ∷ rest) = prepend_byte (from_hex_char c) (from_hex_char d) (decode_string rest)

-- s without 0x or 0X
unfoldable pub drop_prefix : List ℕ → List ℕ
drop_prefix [] = []
drop_prefix (c ∷ []) = c ∷ []
drop_prefix (c ∷ d ∷ rest) = if c == b'0' && (d == b'x' || d == b'X') then rest else c ∷ d ∷ rest

unfoldable pub pad_even : List ℕ → List ℕ
pad_even s = if length s % 2 == 1 then b'0' ∷ s else s

unfoldable pub hex_to_bytes : List ℕ → List ℕ
unfolding decode_string drop_prefix pad_even
hex_to_bytes s = decode_string (pad_even (drop_prefix s))

-- A digit below 16, in lower case.
unfoldable pub hex_char : ℕ → ℕ
hex_char d = if ltb d 10 then b'0' + d else b'a' + (d - 10)

-- hex.EncodeToString
unfoldable pub bytes_to_hex : List ℕ → List ℕ
bytes_to_hex [] = []
bytes_to_hex (b ∷ bs) = hex_char (b / 16) ∷ hex_char (b % 16) ∷ bytes_to_hex bs

abbrev pub AreBytes : List ℕ → Type 0
AreBytes = All (λ b. b < 256)

pub from_hex_char-hex_char : (d : ℕ) → d < 16 → from_hex_char (hex_char d) ≡ some d
unfolding from_hex_char hex_char
from_hex_char-hex_char d small = ground arith

pub decode_string-bytes_to_hex : (bs : List ℕ) → AreBytes bs → decode_string (bytes_to_hex bs) ≡ bs
unfolding decode_string bytes_to_hex prepend_byte
decode_string-bytes_to_hex [] small = refl
decode_string-bytes_to_hex (b ∷ bs) (small, later) =
    rw
      (
        from_hex_char-hex_char (b / 16) (omega arith),
        from_hex_char-hex_char (b % 16) (omega arith),
        decode_string-bytes_to_hex bs later,
      )
      (ap (λ x. x ∷ bs) (omega arith))

pub length-bytes_to_hex_even : (bs : List ℕ) → length (bytes_to_hex bs) % 2 ≡ 0
unfolding bytes_to_hex
length-bytes_to_hex_even [] = refl
length-bytes_to_hex_even (b ∷ bs) = omega (arith, length-bytes_to_hex_even bs)

pub hex_char_not_x : (d : ℕ) → d < 16 → (hex_char d == b'x' || hex_char d == b'X') ≡ false
unfolding hex_char
hex_char_not_x d small = ground arith

pub drop_prefix-bytes_to_hex :
    (bs : List ℕ) → AreBytes bs → drop_prefix (bytes_to_hex bs) ≡ bytes_to_hex bs
unfolding drop_prefix bytes_to_hex
drop_prefix-bytes_to_hex [] small = refl
drop_prefix-bytes_to_hex (b ∷ bs) (small, later) =
    rw (hex_char_not_x (b % 16) (omega arith)) (ground arith)

pub pad_even_of_even : (s : List ℕ) → length s % 2 ≡ 0 → pad_even s ≡ s
unfolding pad_even
pad_even_of_even s even = ground arith

-- The text of some bytes gives those bytes again, without a prefix, with 0x, and with 0X.
pub hex_to_bytes-bytes_to_hex :
    (bs : List ℕ)
    → AreBytes bs
    → (hex_to_bytes (bytes_to_hex bs) ≡ bs)
      × (hex_to_bytes (b'0' ∷ b'x' ∷ bytes_to_hex bs) ≡ bs)
      × (hex_to_bytes (b'0' ∷ b'X' ∷ bytes_to_hex bs) ≡ bs)
unfolding hex_to_bytes
hex_to_bytes-bytes_to_hex bs small =
    let prefixed = decoded small in
    (rw (drop_prefix-bytes_to_hex bs small) prefixed, prefixed, prefixed)
  where
    decoded : AreBytes bs → decode_string (pad_even (bytes_to_hex bs)) ≡ bs
    decoded h =
        rw (pad_even_of_even (bytes_to_hex bs) (length-bytes_to_hex_even bs))
          (decode_string-bytes_to_hex bs h)
