-- ===== src/Server/Ping.antt =====
-- server/server.go: PingAndRefreshFee, which reports the node's balances to the gateway and takes
-- over the gateway's answer, and transactorOptions.
pub mod Balances
pub mod Refresh
use c_bridge_node.Base.{
  ℕ, ◌*◌, String, Bool, Option, none, some, List, [], ◌∷◌, ◌++◌, ltb, if◌then◌else◌,
}
use c_bridge_node.Base.Int.{from_bits}
use c_bridge_node.Base.Maps.{Map, insert, nat_eq}
use c_bridge_node.Wire.{
  Addr, ChainInfo, PingRequest, PingResponse, GatewayChainInfo, TransactorConfig, ErrMsg,
}
use c_bridge_node.Transfer.{Time, minute, seconds}
use c_bridge_node.World.{World, Fault, gateway_failed, Result, ok, err}
use c_bridge_node.Exec.{M, pure, ask, modify, ◌>>=◌, ◌>>◌}
use c_bridge_node.Chain.{BridgeConfig}
use c_bridge_node.Gateway.{ping_gateway}
use c_bridge_node.Server.{Server}

-- A token whose balance cannot be read is left out.
unfoldable pub add_balance : Addr → Result ℕ → Map Addr ℕ → Map Addr ℕ
add_balance addr (ok balance) m = insert m addr balance
add_balance addr (err e) m = m

unfoldable pub balances : ℕ → List Addr → Map Addr ℕ → M (Map Addr ℕ)
balances chain_id [] m = pure m
balances chain_id (addr ∷ addrs) m = do
  balance ← ask (λ env n. env.balance_of n chain_id addr)
  balances chain_id addrs (add_balance addr balance m)

-- The loop over the chains, in the order of the association list; Go's is any order.
unfoldable pub chain_infos : Map ℕ BridgeConfig → M (List ChainInfo)
chain_infos [] = pure []
chain_infos ((k, v) ∷ chains) = do
  token_and_balance ← balances k v.erc20_map []
  rest ← chain_infos chains
  pure (
      record {
        chain_id = k;
        token_and_balance = token_and_balance;
        fee_per_10000 = v.config.fee_rate;
      }
      ∷ rest)

unfoldable pub ping_request : Server → List ℕ → List ChainInfo → PingRequest
ping_request s sig infos = record {
  eth_addr = s.account_addr;
  chain_info = infos;
  nick_name = s.relay_node_name;
  sig = sig;
  node_version = s.version;
}

unfoldable pub set_gateway_chain_info : Map ℕ GatewayChainInfo → M (Unit {0})
set_gateway_chain_info m = modify (λ w. record w { gateway_chain_info = m })

unfoldable pub unless_gateway_err : Option ErrMsg → PingResponse → M (Option Fault)
unless_gateway_err (some e) resp = pure (some gateway_failed)
unless_gateway_err none resp = do set_gateway_chain_info resp.chain_info; pure none

unfoldable pub refresh : Result PingResponse → M (Option Fault)
unfolding unless_gateway_err
refresh (err e) = pure (some e)
refresh (ok resp) = unless_gateway_err resp.err resp

unfoldable pub ping_signed : Server → Result (List ℕ) → M (Option Fault)
ping_signed s (err e) = pure (some e)
ping_signed s (ok sig) = do
  infos ← chain_infos s.chain_map
  resp ← ping_gateway (ping_request s sig infos)
  refresh resp

unfoldable pub ping_and_refresh_fee : Server → M (Option Fault)
ping_and_refresh_fee s = do sig ← ask (λ env n. env.sign n s.account_addr); ping_signed s sig

-- The options of a chain's transactor.
pub data TxOption : Type 0 where
  with_timeout with_block_delay with_add_gas_gwei with_gas_limit : ℕ → TxOption
  with_polling_interval : Time → TxOption
  with_add_gas_estimate_ratio : TxOption

-- A getter of a missing TransactorConfig gives zero.
unfoldable pub gas_options : Option TransactorConfig → List TxOption
gas_options none = []
gas_options (some c) =
    (if ltb 0 c.add_gas_gwei then with_add_gas_gwei c.add_gas_gwei ∷ [] else [])
    ++ ((if c.add_gas_estimate_ratio_positive then with_add_gas_estimate_ratio ∷ [] else [])
        ++ (if ltb 0 c.gas_limit then with_gas_limit c.gas_limit ∷ [] else []))

-- The polling interval is a time.Duration.
unfoldable pub transactor_options : BridgeConfig → List TxOption
transactor_options bc =
    with_timeout (5 * minute)
    ∷ with_block_delay bc.config.watch_config.block_delay
    ∷ with_polling_interval (seconds (from_bits bc.config.watch_config.polling_interval))
    ∷ gas_options bc.config.transactor_config
