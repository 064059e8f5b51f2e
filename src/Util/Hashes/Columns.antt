-- ===== src/Util/Hashes/Columns.antt =====
-- The texts in which server/dal.go stores hashes and addresses (their method String), read by
-- Hex2Hash and Hex2Addr of server/util.go.
use c_bridge_node.Base.{
  ℕ, ◌-◌, ◌%◌, Option, ◌≤◌, ◌≡◌, refl, sym, ap, ◌∙◌, suc, zero, List, [], ◌∷◌, ◌++◌, map, arith,
}
use c_bridge_node.Base.Lists.{length}
use c_bridge_node.Util.Hex.{
  AreBytes, from_hex_char, hex_to_bytes, bytes_to_hex, decode_string, prepend_byte, drop_prefix,
  hex_to_bytes-bytes_to_hex, length-bytes_to_hex_even, decode_string-bytes_to_hex, pad_even_of_even,
}
use c_bridge_node.Util.Hashes.{EthCommon, hex_to_hash, hex_to_addr, addr_to_hex}

abbrev pub zeros : ℕ → List ℕ
zeros zero = []
zeros (suc n) = 0 ∷ zeros n

-- What go-ethereum documents: bytes shorter than the target are set from its right end, a hash's
-- String is its hex text with 0x, and an address's is that in the mixed case of EIP-55.
pub record IsEthCommon (lib : EthCommon) : Type 0 where
  pub hash_of_bytes :
      (b : List ℕ) → length b ≤ 32 → lib.bytes_to_hash b ≡ zeros (32 - length b) ++ b
  pub address_of_bytes :
      (b : List ℕ) → length b ≤ 20 → lib.bytes_to_address b ≡ zeros (20 - length b) ++ b
  pub string_of_hash : (h : List ℕ) → lib.hash_string h ≡ b'0' ∷ b'x' ∷ bytes_to_hex h
  pub digits_of_address : List ℕ → List ℕ
  pub string_of_address : (a : List ℕ) → lib.address_string a ≡ b'0' ∷ b'x' ∷ digits_of_address a
  pub same_digits :
      (a : List ℕ) → map from_hex_char (digits_of_address a) ≡ map from_hex_char (bytes_to_hex a)

-- The bytes of the values of digits.
bytes_of_digits : List (Option ℕ) → List ℕ
bytes_of_digits [] = []
bytes_of_digits (c ∷ []) = []
bytes_of_digits (c ∷ d ∷ rest) = prepend_byte c d (bytes_of_digits rest)

decode_string-bytes_of_digits :
    (s : List ℕ) → decode_string s ≡ bytes_of_digits (map from_hex_char s)
unfolding decode_string bytes_of_digits
decode_string-bytes_of_digits [] = refl
decode_string-bytes_of_digits (c ∷ []) = refl
decode_string-bytes_of_digits (c ∷ d ∷ rest) =
    ap (prepend_byte (from_hex_char c) (from_hex_char d)) (decode_string-bytes_of_digits rest)

length-map : (s : List ℕ) → length (map from_hex_char s) ≡ length s
length-map [] = refl
length-map (c ∷ s) = ap suc (length-map s)

-- A text with the digits of some bytes, in any case, after 0x.
hex_to_bytes_by_digits :
    (t bs : List ℕ)
    → AreBytes bs
    → map from_hex_char t ≡ map from_hex_char (bytes_to_hex bs)
    → hex_to_bytes (b'0' ∷ b'x' ∷ t) ≡ bs
unfolding hex_to_bytes drop_prefix
hex_to_bytes_by_digits t bs small same =
    ap decode_string (pad_even_of_even t even)
    ∙ decode_string-bytes_of_digits t
    ∙ ap bytes_of_digits same
    ∙ sym (decode_string-bytes_of_digits (bytes_to_hex bs))
    ∙ decode_string-bytes_to_hex bs small
  where
    even : length t % 2 ≡ 0
    even =
        ap (λ n. n % 2) (sym (length-map t) ∙ ap length same ∙ length-map (bytes_to_hex bs))
        ∙ length-bytes_to_hex_even bs

module _ (lib : EthCommon) (documented : IsEthCommon lib) where
  hash_of_32 : (h : List ℕ) → length h ≡ 32 → lib.bytes_to_hash h ≡ h
  hash_of_32 h full =
      documented.hash_of_bytes h (omega (arith, full)) ∙ ap (λ n. zeros (32 - n) ++ h) full

  address_of_20 : (a : List ℕ) → length a ≡ 20 → lib.bytes_to_address a ≡ a
  address_of_20 a full =
      documented.address_of_bytes a (omega (arith, full)) ∙ ap (λ n. zeros (20 - n) ++ a) full

  -- The text of a hash is read as that hash; the text of an address is read as that address, in the
  -- case in which it was written and in lower case without a prefix.
  pub hex_to_hash-hex_to_addr_columns :
      (h a : List ℕ)
      → AreBytes h
      → length h ≡ 32
      → AreBytes a
      → length a ≡ 20
      → (hex_to_hash lib (lib.hash_string h) ≡ h)
        × (hex_to_addr lib (lib.address_string a) ≡ a)
        × (hex_to_addr lib (addr_to_hex lib a) ≡ a)
  unfolding hex_to_hash hex_to_addr addr_to_hex
  hex_to_hash-hex_to_addr_columns h a h_bytes h_full a_bytes a_full = (
    ap lib.bytes_to_hash (ap hex_to_bytes (documented.string_of_hash h) ∙ (read h h_bytes).1)
        ∙ hash_of_32 h h_full,
    ap lib.bytes_to_address (
          ap hex_to_bytes (documented.string_of_address a)
          ∙ hex_to_bytes_by_digits _ a a_bytes (documented.same_digits a))
        ∙ address_of_20 a a_full,
    ap lib.bytes_to_address (read a a_bytes).0 ∙ address_of_20 a a_full,
  )
    where
      read :
          (bs : List ℕ)
          → AreBytes bs
          → (hex_to_bytes (bytes_to_hex bs) ≡ bs)
            × (hex_to_bytes (b'0' ∷ b'x' ∷ bytes_to_hex bs) ≡ bs)
            × (hex_to_bytes (b'0' ∷ b'X' ∷ bytes_to_hex bs) ≡ bs)
      read = hex_to_bytes-bytes_to_hex
