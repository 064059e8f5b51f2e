-- ===== src/Server/Init.antt =====
-- server/server.go: NewServer, and Init's loop over the configured chains and their tokens with the
-- ping that follows it.
pub mod Tokens
pub mod Consistent
pub mod Pinged
pub mod Registered
use c_bridge_node.Base.{
  ℕ, ◌%◌, ◌/◌, ◌-◌, ◌^◌, String, Bool, Option, none, some, List, [], ◌∷◌, ltb, ◌==◌, if◌then◌else◌,
}
use c_bridge_node.Base.Maps.{Eq, Map, insert, change, nat_eq, string_eq}
use c_bridge_node.Wire.{Addr, TokenConfig, ChainConfig}
use c_bridge_node.World.{World, Env, Fault, invalid_config, Result, ok, err}
use c_bridge_node.Exec.{M, pure, ask, ◌>>=◌}
use c_bridge_node.Chain.{BridgeConfig}
use c_bridge_node.Server.{Server, ChainGasTokenInfo}
use c_bridge_node.Server.Ping.{ping_and_refresh_fee}

-- The empty maps of NewServer; the name is the configuration's, the address the key store's.
unfoldable pub new_server : String → String → Addr → Server
new_server version relay_node_name account_addr = record {
  version = version;
  relay_node_name = relay_node_name;
  account_addr = account_addr;
  chain_map = [];
  chain_token_name_map = [];
  chain_token_addr_map = [];
  chain_token_decimal_map = [];
  chain_gas_token_map = [];
}

-- m[a][b] = v, where m[a] is made if it is missing.
unfoldable pub set_in {ℓ} :
    {K : Type 0} {V : Type ℓ} ⦃e : Eq K⦄ → Map ℕ (Map K V) → ℕ → K → V → Map ℕ (Map K V)
set_in m a b v = change m a [] (λ sub. insert sub b v)

-- MaxUint256 of server/util.go
abbrev pub max_uint256 : ℕ
max_uint256 = 2 ^ 256 - 1

module _ {A B : Type 0} where
  -- `if err != nil { return err }`
  unfoldable pub or_return : Result A → (A → M (Result B)) → M (Result B)
  or_return (ok a) f = f a
  or_return (err e) f = pure (err e)

module _ {B : Type 0} where
  unfoldable pub unless_err : Option Fault → M (Result B) → M (Result B)
  unless_err none next = next
  unless_err (some e) next = pure (err e)

-- The name and the decimal of a token, which are set before the decimal is checked.
unfoldable pub set_name_and_decimal : ChainConfig → TokenConfig → Server → Server
set_name_and_decimal config token s = record s {
  chain_token_name_map =
      set_in s.chain_token_name_map config.chain_id token.token_address token.token_name;
  chain_token_decimal_map =
      set_in s.chain_token_decimal_map config.chain_id token.token_address token.token_decimal;
}

unfoldable pub set_addr : ℕ → TokenConfig → Server → Server
set_addr chain_id token s = record s {
  chain_token_addr_map =
      set_in s.chain_token_addr_map chain_id token.token_name token.token_address;
}

-- The allowance is raised to the largest number if it is below half of that.
unfoldable pub approve_token : ℕ → Addr → M (Result (Unit {0}))
approve_token chain_id token = do
  bound ← ask (λ env n. env.bind_token n chain_id token)
  unless_err bound (do
    allowance ← ask (λ env n. env.allowance n chain_id token)
    or_return allowance λ cur_allowance.
        if ltb cur_allowance (max_uint256 / 2)
        then (do
          approved ← ask (λ env n. env.approve n chain_id token max_uint256)
          unless_err approved (do
            mined ← ask (λ env n. env.wait_mined n chain_id token)
            unless_err mined (pure (ok tt))))
        else pure (ok tt))

unfoldable pub register_token : ChainConfig → ℕ → TokenConfig → Server → M (Result Server)
register_token config chain_id token s =
    if token.token_decimal == 0 then pure (err invalid_config) else do
      approved ← approve_token chain_id token.token_address
      or_return approved
          λ u. pure (ok (set_addr chain_id token (set_name_and_decimal config token s)))

unfoldable pub register_tokens : ChainConfig → ℕ → List TokenConfig → Server → M (Result Server)
register_tokens config chain_id [] s = pure (ok s)
register_tokens config chain_id (token ∷ tokens) s = do
  registered ← register_token config chain_id token s
  or_return registered (register_tokens config chain_id tokens)

-- The keys of erc20Map after the loop over a chain's tokens.
unfoldable pub erc20_keys : List TokenConfig → Map Addr (Unit {0}) → List Addr
erc20_keys [] m = keys m
  where
    keys : Map Addr (Unit {0}) → List Addr
    keys [] = []
    keys ((addr, u) ∷ rest) = addr ∷ keys rest
erc20_keys (token ∷ tokens) m = erc20_keys tokens (insert m token.token_address tt)

unfoldable pub set_gas_token : ChainConfig → Server → Server
set_gas_token config s = record s {
  chain_gas_token_map = insert s.chain_gas_token_map config.chain_id (record {
    gas_token_name = config.gas_token_name;
    gas_token_decimal = config.gas_token_decimal;
  });
}

unfoldable pub set_chain : ChainConfig → ℕ → Server → Server
set_chain config chain_id s = record s {
  chain_map = insert s.chain_map chain_id (record {
    config = config;
    chain_id = chain_id;
    erc20_map = erc20_keys config.token_config [];
  });
}

-- One round of the loop; bgc.chainId is read as an uint64.
unfoldable pub init_chain : ChainConfig → Server → M (Result Server)
init_chain config s = do
  connected ← ask (λ env n. env.connect n config.chain_id)
  or_return connected λ own_id. do
    let chain_id = own_id % 2 ^ 64
    registered ← register_tokens config chain_id config.token_config (set_gas_token config s)
    or_return registered λ s'. pure (ok (set_chain config chain_id s'))

unfoldable pub init_chains : List ChainConfig → Server → M (Result Server)
init_chains [] s = pure (ok s)
init_chains (config ∷ configs) s = do
  done ← init_chain config s
  or_return done (init_chains configs)

unfoldable pub init : List ChainConfig → Server → M (Result Server)
init configs s = do
  done ← init_chains configs s
  or_return done λ s'. do pinged ← ping_and_refresh_fee s'; unless_err pinged (pure (ok s'))
