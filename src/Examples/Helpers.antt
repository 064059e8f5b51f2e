-- ===== src/Examples/Helpers.antt =====
-- The conversions of server/util.go at concrete inputs.
use c_bridge_node.Base.{
  ℕ, zero, suc, ◌+◌, ◌-◌, ◌/◌, ◌%◌, ◌^◌, ◌<◌, ◌≡◌, refl, ap, ◌∙◌, List, [], ◌∷◌, ◌++◌, arith, ltb,
  if◌then◌else◌,
}
use c_bridge_node.Base.Maps.{string_eq}
use c_bridge_node.Base.Int.{ℤ, pos, negsuc}
use c_bridge_node.Base.Lists.{length}
use c_bridge_node.Util.Hex.{
  AreBytes, drop_prefix, prepend_byte, hex_to_bytes, bytes_to_hex, from_hex_char,
  hex_to_bytes-bytes_to_hex,
}
use c_bridge_node.Util.Hex.Values.{hex_value, hex_to_bytes-value}
use c_bridge_node.Util.Numbers.{
  EthMath, set_bytes_from, bytes_to_int, sign_int256_to_bytes, bytes_to_sign_int256,
  big_int_to_pb_str,
}
use c_bridge_node.Util.Numbers.PbStr.{read_escapes, read_escapes-big_int_to_pb_str}
use c_bridge_node.Util.Numbers.Signed.{
  low_256, IsEthMath, bytes_to_sign_int256-sign_int256_to_bytes,
}
use c_bridge_node.Util.Hashes.{EthCommon, hex_to_hash, hex_to_addr, addr_to_hex}
use c_bridge_node.Util.Hashes.Columns.{zeros, IsEthCommon, hex_to_hash-hex_to_addr_columns}

hex_to_bytes-bytes_to_hex_example :
    (hex_to_bytes (bytes_to_hex (0 ∷ 171 ∷ 7 ∷ [])) ≡ 0 ∷ 171 ∷ 7 ∷ [])
    × (hex_to_bytes (b'0' ∷ b'x' ∷ bytes_to_hex (0 ∷ 171 ∷ 7 ∷ [])) ≡ 0 ∷ 171 ∷ 7 ∷ [])
    × (hex_to_bytes (b'0' ∷ b'X' ∷ bytes_to_hex (0 ∷ 171 ∷ 7 ∷ [])) ≡ 0 ∷ 171 ∷ 7 ∷ [])
hex_to_bytes-bytes_to_hex_example =
    hex_to_bytes-bytes_to_hex (0 ∷ 171 ∷ 7 ∷ []) (omega arith, (omega arith, (omega arith, tt)))

read_escapes-big_int_to_pb_str_example :
    bytes_to_int (read_escapes (big_int_to_pb_str (pos 2748))) ≡ pos 2748
read_escapes-big_int_to_pb_str_example = read_escapes-big_int_to_pb_str 2748

-- The last k bytes of a number, before the bytes that follow.
last_bytes : ℕ → ℕ → List ℕ → List ℕ
last_bytes zero n later = later
last_bytes (suc k) n later = last_bytes k (n / 256) (n % 256 ∷ later)

length-last_bytes : (k n : ℕ) (later : List ℕ) → length (last_bytes k n later) ≡ k + length later
unfolding last_bytes
length-last_bytes zero n later = omega arith
length-last_bytes (suc k) n later = omega (arith, length-last_bytes k (n / 256) (n % 256 ∷ later))

set_bytes_from-last_bytes :
    (k n : ℕ) (later : List ℕ)
    → n < 256 ^ k
    → set_bytes_from 0 (last_bytes k n later) ≡ set_bytes_from n later
unfolding last_bytes set_bytes_from
set_bytes_from-last_bytes zero n later small = ap (λ m. set_bytes_from m later) (omega arith)
set_bytes_from-last_bytes (suc k) n later small =
    set_bytes_from-last_bytes k (n / 256) (n % 256 ∷ later) (grind arith)
    ∙ ap (λ m. set_bytes_from m later) (omega arith)

-- A library that does what go-ethereum documents.
abbrev eth_math : EthMath
eth_math = record { u256_bytes = λ i. last_bytes 32 (low_256 i) []; s256 = λ i. signed_of i }
  where
    signed_of : ℤ → ℤ
    signed_of (pos n) = if ltb n (2 ^ 255) then pos n else negsuc (2 ^ 256 - 1 - n)
    signed_of (negsuc n) = negsuc n

low_256_small : (i : ℤ) → low_256 i < 256 ^ 32
low_256_small (pos n) = omega arith
low_256_small (negsuc n) = omega arith

eth_math-IsEthMath : IsEthMath eth_math
unfolding set_bytes_from
eth_math-IsEthMath = record {
  u256_length = λ i. length-last_bytes 32 (low_256 i) [];
  u256_value = λ i. set_bytes_from-last_bytes 32 (low_256 i) [] (low_256_small i);
  s256_small = λ n small. ground arith;
  s256_large = λ n large small. ground arith;
}

bytes_to_sign_int256-sign_int256_to_bytes_example :
    (length (sign_int256_to_bytes eth_math (negsuc 4)) ≡ 32)
    × (bytes_to_sign_int256 eth_math (sign_int256_to_bytes eth_math (negsuc 4)) ≡ negsuc 4)
bytes_to_sign_int256-sign_int256_to_bytes_example =
    bytes_to_sign_int256-sign_int256_to_bytes eth_math eth_math-IsEthMath (negsuc 4) (omega arith)

abbrev eth_common : EthCommon
eth_common = record {
  bytes_to_hash = λ b. zeros (32 - length b) ++ b;
  bytes_to_address = λ b. zeros (20 - length b) ++ b;
  hash_string = λ h. b'0' ∷ b'x' ∷ bytes_to_hex h;
  address_string = λ a. b'0' ∷ b'x' ∷ bytes_to_hex a;
  keccak256 = λ b. b;
}

eth_common-IsEthCommon : IsEthCommon eth_common
eth_common-IsEthCommon = record {
  hash_of_bytes = λ b short. refl;
  address_of_bytes = λ b short. refl;
  string_of_hash = λ h. refl;
  digits_of_address = bytes_to_hex;
  string_of_address = λ a. refl;
  same_digits = λ a. refl;
}

zeros-AreBytes : (n : ℕ) → AreBytes (zeros n)
zeros-AreBytes zero = tt
zeros-AreBytes (suc n) = (omega arith, zeros-AreBytes n)

hex_to_hash-hex_to_addr_columns_example :
    (hex_to_hash eth_common (eth_common.hash_string (zeros 32)) ≡ zeros 32)
    × (hex_to_addr eth_common (eth_common.address_string (zeros 20)) ≡ zeros 20)
    × (hex_to_addr eth_common (addr_to_hex eth_common (zeros 20)) ≡ zeros 20)
hex_to_hash-hex_to_addr_columns_example =
    hex_to_hash-hex_to_addr_columns eth_common eth_common-IsEthCommon (zeros 32) (zeros 20)
      (zeros-AreBytes 32) refl (zeros-AreBytes 20) refl

-- 0XaBc
abbrev odd_text : List ℕ
odd_text = b'0' ∷ b'X' ∷ b'a' ∷ b'B' ∷ b'c' ∷ []

hex_to_bytes-value_example :
    (bytes_to_int (hex_to_bytes odd_text) ≡ pos (hex_value (drop_prefix odd_text)))
    × (length (hex_to_bytes odd_text) ≡ (length (drop_prefix odd_text) + 1) / 2)
unfolding drop_prefix from_hex_char
hex_to_bytes-value_example =
    hex_to_bytes-value odd_text ((10, refl), ((11, refl), ((12, refl), tt)))

reads_2748 : hex_to_bytes odd_text ≡ 10 ∷ 188 ∷ []
unfolding hex_to_bytes drop_prefix from_hex_char prepend_byte
reads_2748 = refl
