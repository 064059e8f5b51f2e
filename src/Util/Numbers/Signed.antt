-- ===== src/Util/Numbers/Signed.antt =====
-- The two's complement of SignInt256toBytes and Bytes2SignInt256 of server/util.go.
use c_bridge_node.Base.{ℕ, ◌-◌, ◌%◌, ◌^◌, ◌≤◌, ◌<◌, ◌≡◌, ap, ◌∙◌, arith}
use c_bridge_node.Base.Int.{ℤ, pos, negsuc}
use c_bridge_node.Base.Lists.{length}
use c_bridge_node.Util.Numbers.{
  EthMath, set_bytes_from, bytes_to_int, sign_int256_to_bytes, bytes_to_sign_int256,
}

-- The low 256 bits of a number in two's complement.
abbrev pub low_256 : ℤ → ℕ
low_256 (pos n) = n % 2 ^ 256
low_256 (negsuc n) = 2 ^ 256 - 1 - n % 2 ^ 256

-- What go-ethereum documents: U256Bytes gives the 32 bytes of the low 256 bits, and S256 reads a
-- number of 256 bits as two's complement.
pub record IsEthMath (lib : EthMath) : Type 0 where
  pub u256_length : (i : ℤ) → length (lib.u256_bytes i) ≡ 32
  pub u256_value : (i : ℤ) → set_bytes_from 0 (lib.u256_bytes i) ≡ low_256 i
  pub s256_small : (n : ℕ) → n < 2 ^ 255 → lib.s256 (pos n) ≡ pos n
  pub s256_large : (n : ℕ) → 2 ^ 255 ≤ n → n < 2 ^ 256 → lib.s256 (pos n) ≡ negsuc (2 ^ 256 - 1 - n)

abbrev pub FitsInt256 : ℤ → Type 0
FitsInt256 (pos n) = n < 2 ^ 255
FitsInt256 (negsuc n) = n < 2 ^ 255

module _ (lib : EthMath) (documented : IsEthMath lib) where
  s256-low_256 : (i : ℤ) → FitsInt256 i → lib.s256 (pos (low_256 i)) ≡ i
  s256-low_256 (pos n) fits =
      rw (documented.s256_small (n % 2 ^ 256) (omega arith)) (ap pos (omega arith))
  s256-low_256 (negsuc n) fits =
      rw (documented.s256_large (2 ^ 256 - 1 - n % 2 ^ 256) (omega arith) (omega arith))
        (ap negsuc (omega arith))

  -- A number of the range of an int256 is written in 32 bytes, and read back from them.
  pub bytes_to_sign_int256-sign_int256_to_bytes :
      (i : ℤ)
      → FitsInt256 i
      → (length (sign_int256_to_bytes lib i) ≡ 32)
        × (bytes_to_sign_int256 lib (sign_int256_to_bytes lib i) ≡ i)
  unfolding bytes_to_sign_int256 sign_int256_to_bytes bytes_to_int
  bytes_to_sign_int256-sign_int256_to_bytes i fits = (
    documented.u256_length i,
    ap (λ n. lib.s256 (pos n)) (documented.u256_value i) ∙ s256-low_256 i fits,
  )
