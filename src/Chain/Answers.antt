-- ===== src/Chain/Answers.antt =====
-- Where the answers come from: what the node takes for the state of a transfer, the fee or the time
-- is an answer that the environment gave at some moment.
use c_bridge_node.Base.{ℕ, ◌≡◌, List}
use c_bridge_node.Base.Int.{ℤ}
use c_bridge_node.Wire.{Hash}
use c_bridge_node.Transfer.{Time, Row}
use c_bridge_node.World.{Env, Sent, Result, TransferInfo}
use c_bridge_node.Exec.Keeps.{Yields, Yields-mono, Yields-bind, Yields-pure, Yields-Unit}
use c_bridge_node.Exec.Views.{View, On, Keeps-ask, Yields-ask}
use c_bridge_node.Dal.{now}
use c_bridge_node.Chain.{BridgeConfig, get_transfer, safe_blk_num}
use c_bridge_node.Gateway.{get_fee, fee_of_response}

-- The chain gave this answer about a transfer.
pub record ChainSaid (e : Env) (chain : ℕ) (tid : Hash) (r : Result TransferInfo) : Type 0 where
  pub moment : ℕ
  pub block : ℕ
  pub answer : r ≡ e.transfers moment chain block tid

-- The gateway gave this fee, or error, for a transfer out.
pub record GatewaySaid (e : Env) (tid : Hash) (r : Result ℤ) : Type 0 where
  pub moment : ℕ
  pub answer : r ≡ fee_of_response (e.rpc_get_fee moment tid)

pub record ClockSaid (e : Env) (t : Time) : Type 0 where
  pub moment : ℕ
  pub answer : t ≡ e.clock moment

module _ {V : View} (e : Env)
    (known : (env : Env) (t : List Row) (s : List Sent) → V env t s → env ≡ e) where
  pub Yields-now : Yields (On V) now (ClockSaid e)
  unfolding now
  Yields-now =
      Yields-mono _ _ _ (λ t said. record { moment = said.0; answer = said.1 })
        (Yields-ask e (λ env n. env.clock n) known)

  pub Yields-get_transfer :
      (bc : BridgeConfig) (tid : Hash)
      → Yields (On V) (get_transfer bc tid) (ChainSaid e bc.chain_id tid)
  unfolding get_transfer
  Yields-get_transfer bc tid =
      Yields-bind _ _ (λ _. Unit {0}) _ (Yields-Unit _ (Keeps-ask _))
        λ current u.
          let safe = safe_blk_num current bc.config.watch_config.block_delay in
          Yields-mono _ _ _ (λ r said. record { moment = said.0; block = safe; answer = said.1 })
            (Yields-ask e (λ env n. env.transfers n bc.chain_id safe tid) known)

  pub Yields-get_fee : (tid : Hash) → Yields (On V) (get_fee tid) (GatewaySaid e tid)
  unfolding get_fee
  Yields-get_fee tid =
      Yields-bind _ _ (λ resp. (n : ℕ) × (resp ≡ e.rpc_get_fee n tid)) _ (Yields-ask e _ known)
        λ resp said.
          Yields-pure _ _ (record { moment = said.0; answer = λ i. fee_of_response (said.1 i) })
