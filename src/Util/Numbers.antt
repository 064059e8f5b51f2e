-- ===== src/Util/Numbers.antt =====
-- server/util.go: Bytes2Int, IsNegative, SignInt256toBytes, Bytes2SignInt256 and BigInt2PbStr. Of
-- math/big, SetBytes and Text(16) are written out; U256Bytes and S256 of go-ethereum are parameters.
pub mod PbStr
pub mod Signed
use c_bridge_node.Base.{
  ℕ, zero, suc, ◌+◌, ◌-◌, ◌*◌, ◌/◌, ◌%◌, ◌≡◌, Bool, true, false, List, [], ◌∷◌, ◌++◌, ltb, ◌==◌,
  if◌then◌else◌, ◌^◌, ◌<◌, ◌≤◌,
}
use c_bridge_node.Base.Int.{ℤ, pos, negsuc}
use c_bridge_node.Base.Lists.{length, take}
use c_bridge_node.Util.Hex.{hex_char, pad_even}

-- The big-endian number of some bytes that follow the number acc.
unfoldable pub set_bytes_from : ℕ → List ℕ → ℕ
set_bytes_from acc [] = acc
set_bytes_from acc (b ∷ bs) = set_bytes_from (acc * 256 + b) bs

-- new(big.Int).SetBytes(in)
unfoldable pub bytes_to_int : List ℕ → ℤ
unfolding set_bytes_from
bytes_to_int bs = pos (set_bytes_from 0 bs)

unfoldable pub is_negative : ℤ → Bool
is_negative (pos n) = false
is_negative (negsuc n) = true

-- What the code calls of go-ethereum's common/math.
pub record EthMath : Type 0 where
  -- U256Bytes, of a copy: the 32 bytes of a number
  pub u256_bytes : ℤ → List ℕ
  -- S256
  pub s256 : ℤ → ℤ

module _ (lib : EthMath) where
  unfoldable pub sign_int256_to_bytes : ℤ → List ℕ
  sign_int256_to_bytes i = lib.u256_bytes i

  unfoldable pub bytes_to_sign_int256 : List ℕ → ℤ
  bytes_to_sign_int256 raw = lib.s256 (bytes_to_int raw)

-- The hex digits of a number above zero, before the digits `later`; nothing of zero. The number
-- itself is enough fuel.
unfoldable pub hex_digits : ℕ → ℕ → List ℕ → List ℕ
hex_digits zero n later = later
hex_digits (suc fuel) n later =
    if n == 0 then later else hex_digits fuel (n / 16) (hex_char (n % 16) ∷ later)

-- in.Text(16)
unfoldable pub text16 : ℤ → List ℕ
unfolding hex_digits
text16 (pos n) = if n == 0 then b'0' ∷ [] else hex_digits n n []
text16 (negsuc n) = b'-' ∷ hex_digits (suc n) (suc n) []

-- The loop over i of BigInt2PbStr: \x before each two digits.
unfoldable pub pb_pairs : List ℕ → List ℕ
pb_pairs [] = []
pb_pairs (c ∷ []) = []
pb_pairs (c ∷ d ∷ rest) = b'\\' ∷ b'x' ∷ c ∷ d ∷ pb_pairs rest

unfoldable pub big_int_to_pb_str : ℤ → List ℕ
unfolding text16 pb_pairs
big_int_to_pb_str i = pb_pairs (pad_even (text16 i))
