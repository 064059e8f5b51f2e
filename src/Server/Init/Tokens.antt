-- ===== src/Server/Init/Tokens.antt =====
-- What Init's token maps have in common.
use c_bridge_node.Base.{ℕ, ◌≡◌, ◌≢◌, refl, none, some, [], arith, ◌==◌, String, if◌then◌else◌}
use c_bridge_node.Base.Maps.{Eq, Map, lookup, insert, lookup-insert, read-change, nat_eq, string_eq}
use c_bridge_node.Wire.{Addr, TokenConfig, ChainConfig}
use c_bridge_node.Server.{Server}
use c_bridge_node.Server.TransferOut.{lookup_in}
use c_bridge_node.Server.Init.{set_in, set_name_and_decimal, set_addr}

module _ {K : Type 0} {V : Type 0} ⦃e : Eq K⦄ where
  lookup_in-set_in :
      (m : Map ℕ (Map K V)) (a c : ℕ) (b d : K) (v : V)
      → lookup_in (set_in m a b v) c d
        ≡ (if a == c then (if e.beq b d then some v else lookup_in m c d) else lookup_in m c d)
  unfolding lookup_in set_in lookup
  lookup_in-set_in m a c b d v =
      read-change (λ sub. lookup sub d) none m a c [] (λ sub. insert sub b v)
        (λ o. if e.beq b d then some v else o) refl (λ sub. lookup-insert sub b d v)

-- A token has a decimal where it has a name, its decimal is not zero, and it has both wherever it is
-- the token of a name.
pub record IsConsistent (s : Server) : Type 0 where
  pub decimal_of_name :
      (chain : ℕ) (token : Addr) (name : String)
      → lookup_in s.chain_token_name_map chain token ≡ some name
      → lookup_in s.chain_token_decimal_map chain token ≢ none
  pub positive :
      (chain : ℕ) (token : Addr) → lookup_in s.chain_token_decimal_map chain token ≢ some 0
  pub decimal_of_addr :
      (chain : ℕ) (token : Addr) (name : String)
      → lookup_in s.chain_token_addr_map chain name ≡ some token
      → lookup_in s.chain_token_decimal_map chain token ≢ none

-- The chain's own id is the configured one.
pub set-IsConsistent :
    (config : ChainConfig) (token : TokenConfig) (s : Server)
    → token.token_decimal ≢ 0
    → IsConsistent s
    → IsConsistent (set_addr config.chain_id token (set_name_and_decimal config token s))
unfolding set_addr set_name_and_decimal
set-IsConsistent config token s nonzero h = record {
  decimal_of_name = λ chain addr name found none_found. ground (
    arith,
    nonzero,
    h.decimal_of_name chain addr name,
    lookup_in-set_in s.chain_token_name_map config.chain_id chain token.token_address addr
        token.token_name,
    lookup_in-set_in s.chain_token_decimal_map config.chain_id chain token.token_address addr
        token.token_decimal,
  );
  positive = λ chain addr is_zero. ground (
    arith,
    nonzero,
    h.positive chain addr,
    lookup_in-set_in s.chain_token_decimal_map config.chain_id chain token.token_address addr
        token.token_decimal,
  );
  decimal_of_addr = λ chain addr name found none_found. ground (
    arith,
    h.decimal_of_addr chain addr name,
    lookup_in-set_in s.chain_token_addr_map config.chain_id chain token.token_name name
        token.token_address,
    lookup_in-set_in s.chain_token_decimal_map config.chain_id chain token.token_address addr
        token.token_decimal,
  );
}
