-- ===== src/Node/Once/Quiet.antt =====
-- Questions, queries, the ping and the pages change neither the table nor the transactions.
use c_bridge_node.Base.{ℕ, String, Bool, Option, none, some, List, [], ◌∷◌}
use c_bridge_node.Base.Maps.{Map}
use c_bridge_node.Wire.{Hash, Addr, ErrMsg, PingResponse, GatewayChainInfo}
use c_bridge_node.Transfer.{Row}
use c_bridge_node.World.{Sent, Call, Fault, Result, ok, err}
use c_bridge_node.Exec.{M, ask, modify, pure, ◌>>=◌}
use c_bridge_node.Exec.Steps.{Relation, Steps, Steps-pure, Steps-bind, steps_rules}
use c_bridge_node.Dal.{now}
use c_bridge_node.Dal.Queries.{
  query, query_row, get_transfer_by_tid, get_all_transfers, get_all_transfers_with_limit,
  get_all_confirmable_locked_transfer, get_all_refund_able_transfer_in,
}
use c_bridge_node.Chain.{BridgeConfig, get_transfer, transact}
use c_bridge_node.Gateway.{get_fee, ping_gateway}
use c_bridge_node.Server.{Server}
use c_bridge_node.Server.Ping.{
  balances, chain_infos, set_gateway_chain_info, refresh, unless_gateway_err, ping_signed,
  ping_and_refresh_fee,
}
use c_bridge_node.Server.Summary.{get_total_summary}
use c_bridge_node.Server.Listing.{page_within, parse_uint, get_transfer_page}
use c_bridge_node.Server.TransferOut.{Outcome, or_retry, or_give_up, or_panic}
use c_bridge_node.Server.Events.{unless_failed, if_parsed}

module _ {ρ : Relation} where
  pub now-Steps : Steps ρ now
  unfolding now
  now-Steps = search steps_rules

  pub query-Steps : (q : List Row → List Row) → Steps ρ (query q)
  unfolding query
  query-Steps q = search steps_rules

  pub get_all_confirmable_locked_transfer-Steps : Steps ρ get_all_confirmable_locked_transfer
  unfolding get_all_confirmable_locked_transfer
  get_all_confirmable_locked_transfer-Steps = query-Steps _

  pub get_all_refund_able_transfer_in-Steps : Steps ρ get_all_refund_able_transfer_in
  unfolding get_all_refund_able_transfer_in
  get_all_refund_able_transfer_in-Steps = search (steps_rules, now-Steps, query-Steps)

  pub get_transfer_by_tid-Steps : (tid : Hash) → Steps ρ (get_transfer_by_tid tid)
  unfolding get_transfer_by_tid query_row
  get_transfer_by_tid-Steps tid = search steps_rules

  pub get_transfer-Steps : (bc : BridgeConfig) (tid : Hash) → Steps ρ (get_transfer bc tid)
  unfolding get_transfer
  get_transfer-Steps bc tid = search steps_rules

  pub get_fee-Steps : (tid : Hash) → Steps ρ (get_fee tid)
  unfolding get_fee
  get_fee-Steps tid = search steps_rules

  -- A transaction is one more entry of `sent`.
  pub transact-Steps :
      (bc : BridgeConfig) (tid : Hash) (call : Call)
      → ((t : List Row) (s : List Sent) (outcome : Option Fault)
          → ρ.rel t s t (
              record { chain = bc.chain_id; transfer_id = tid; call = call; outcome = outcome }
              ∷ s))
      → Steps ρ (transact bc tid call)
  unfolding transact ◌>>=◌ ask modify pure
  transact-Steps bc tid call h = record {
    each = λ w. (
      ρ.reflexive w.table w.sent,
      λ w'. (h w'.table w'.sent (w.env.transact w.steps bc.chain_id call), tt),
    );
  }

  set_gateway_chain_info-Steps : (m : Map ℕ GatewayChainInfo) → Steps ρ (set_gateway_chain_info m)
  unfolding set_gateway_chain_info modify
  set_gateway_chain_info-Steps m = record { each = λ w. (ρ.reflexive w.table w.sent, tt) }

  unless_gateway_err-Steps :
      (e : Option ErrMsg) (resp : PingResponse) → Steps ρ (unless_gateway_err e resp)
  unfolding unless_gateway_err
  unless_gateway_err-Steps (some e) resp = Steps-pure _
  unless_gateway_err-Steps none resp = search (steps_rules, set_gateway_chain_info-Steps)

  refresh-Steps : (resp : Result PingResponse) → Steps ρ (refresh resp)
  unfolding refresh
  refresh-Steps (err e) = Steps-pure _
  refresh-Steps (ok resp) = unless_gateway_err-Steps resp.err resp

  balances-Steps :
      (chain_id : ℕ) (addrs : List Addr) (m : Map Addr ℕ) → Steps ρ (balances chain_id addrs m)
  unfolding balances
  balances-Steps chain_id [] m = Steps-pure m
  balances-Steps chain_id (addr ∷ addrs) m = search (steps_rules, balances-Steps chain_id addrs)

  chain_infos-Steps : (chains : Map ℕ BridgeConfig) → Steps ρ (chain_infos chains)
  unfolding chain_infos
  chain_infos-Steps [] = Steps-pure []
  chain_infos-Steps ((k, v) ∷ chains) =
      Steps-bind _ _ (balances-Steps k v.erc20_map [])
        λ found. Steps-bind _ _ (chain_infos-Steps chains) λ rest. Steps-pure _

  ping_signed-Steps : (s : Server) (sig : Result (List ℕ)) → Steps ρ (ping_signed s sig)
  unfolding ping_signed ping_gateway
  ping_signed-Steps s (err e) = Steps-pure _
  ping_signed-Steps s (ok sig) = search (steps_rules, chain_infos-Steps, refresh-Steps)

  pub ping_and_refresh_fee-Steps : (s : Server) → Steps ρ (ping_and_refresh_fee s)
  unfolding ping_and_refresh_fee
  ping_and_refresh_fee-Steps s = search (steps_rules, ping_signed-Steps)

  pub get_total_summary-Steps :
      (addr_string : Addr → String) (s : Server) → Steps ρ (get_total_summary addr_string s)
  unfolding get_total_summary get_all_transfers
  get_total_summary-Steps addr_string s = search (steps_rules, query-Steps)

  page_within-Steps : (limit : Option ℕ) → Steps ρ (page_within limit)
  unfolding page_within get_all_transfers_with_limit
  page_within-Steps none = Steps-pure _
  page_within-Steps (some limit) = search (steps_rules, query-Steps)

  pub get_transfer_page-Steps : (limit : String) → Steps ρ (get_transfer_page limit)
  unfolding get_transfer_page
  get_transfer_page-Steps limit = page_within-Steps (parse_uint limit)

  pub unless_failed-Steps :
      (r : Result (Unit {0})) (m : M Bool) → Steps ρ m → Steps ρ (unless_failed r m)
  unfolding unless_failed
  unless_failed-Steps (ok u) m h = h
  unless_failed-Steps (err e) m h = Steps-pure _

  pub or_retry-Steps : (r : Result (Unit {0})) (m : M Outcome) → Steps ρ m → Steps ρ (or_retry r m)
  unfolding or_retry
  or_retry-Steps (ok u) m h = h
  or_retry-Steps (err e) m h = Steps-pure _

  pub or_panic-Steps :
      (o : Option ℕ) (f : ℕ → M Outcome) → ((n : ℕ) → Steps ρ (f n)) → Steps ρ (or_panic o f)
  unfolding or_panic
  or_panic-Steps none f h = Steps-pure _
  or_panic-Steps (some n) f h = h n

module _ {ρ : Relation} {A : Type 0} where
  pub if_parsed-Steps :
      (o : Option A) (f : A → M Bool) → ((a : A) → Steps ρ (f a)) → Steps ρ (if_parsed o f)
  unfolding if_parsed
  if_parsed-Steps none f h = Steps-pure _
  if_parsed-Steps (some a) f h = h a

  pub or_give_up-Steps :
      (o : Option A) (f : A → M Outcome) → ((a : A) → Steps ρ (f a)) → Steps ρ (or_give_up o f)
  unfolding or_give_up
  or_give_up-Steps none f h = Steps-pure _
  or_give_up-Steps (some a) f h = h a

pub ruleset quiet_rules = (
  steps_rules, now-Steps, query-Steps, get_all_confirmable_locked_transfer-Steps,
  get_all_refund_able_transfer_in-Steps, get_transfer_by_tid-Steps, get_transfer-Steps,
  get_fee-Steps, unless_failed-Steps, or_retry-Steps, or_panic-Steps, if_parsed-Steps,
  or_give_up-Steps,
)
