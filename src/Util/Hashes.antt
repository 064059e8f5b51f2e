-- ===== src/Util/Hashes.antt =====
-- server/util.go: hashes and addresses from bytes and hex text. go-ethereum's common package is a
-- parameter.
pub mod Columns
use c_bridge_node.Base.{ℕ, List}
use c_bridge_node.World.{Result, ok, err}
use c_bridge_node.Util.Hex.{hex_to_bytes, bytes_to_hex}

-- What the code calls of go-ethereum's common and crypto, on the bytes of a hash or an address.
pub record EthCommon : Type 0 where
  pub bytes_to_hash : List ℕ → List ℕ
  pub bytes_to_address : List ℕ → List ℕ
  -- The methods String
  pub hash_string : List ℕ → List ℕ
  pub address_string : List ℕ → List ℕ
  pub keccak256 : List ℕ → List ℕ

module _ (lib : EthCommon) where
  unfoldable pub bytes_to_hash : List ℕ → List ℕ
  bytes_to_hash b = lib.bytes_to_hash b

  unfoldable pub bytes_to_addr : List ℕ → List ℕ
  bytes_to_addr b = lib.bytes_to_address b

  unfoldable pub hex_to_hash : List ℕ → List ℕ
  hex_to_hash s = lib.bytes_to_hash (hex_to_bytes s)

  unfoldable pub hex_to_addr : List ℕ → List ℕ
  hex_to_addr s = lib.bytes_to_address (hex_to_bytes s)

  unfoldable pub addr_to_hex : List ℕ → List ℕ
  addr_to_hex a = bytes_to_hex a

  -- Given what rand.Read answers for 32 bytes.
  unfoldable pub get_random_pre_image : Result (List ℕ) → Result (List ℕ)
  get_random_pre_image (ok key) = ok (bytes_to_hash key)
  get_random_pre_image (err e) = err e

  unfoldable pub get_hash_lock_with_pre_image : List ℕ → List ℕ
  unfolding bytes_to_hash
  get_hash_lock_with_pre_image pre_image = bytes_to_hash (lib.keccak256 pre_image)
