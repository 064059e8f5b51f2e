-- ===== src/Node/Progress/Reports.antt =====
-- The ping and the two pages (server/server.go) change nothing that a view shows.
use c_bridge_node.Base.{ℕ, String, Option, none, some, List, [], ◌∷◌}
use c_bridge_node.Base.Maps.{Map}
use c_bridge_node.Wire.{Addr, ErrMsg, PingResponse, GatewayChainInfo, PingRequest}
use c_bridge_node.World.{Result, ok, err}
use c_bridge_node.Exec.{modify}
use c_bridge_node.Exec.Keeps.{Keeps, Keeps-pure, Keeps-bind, keeps_rules}
use c_bridge_node.Exec.Views.{View, On, Keeps-ask}
use c_bridge_node.Dal.Reads.{Keeps-query}
use c_bridge_node.Dal.Queries.{get_all_transfers, get_all_transfers_with_limit}
use c_bridge_node.Chain.{BridgeConfig}
use c_bridge_node.Gateway.{ping_gateway}
use c_bridge_node.Server.{Server}
use c_bridge_node.Server.Ping.{
  balances, chain_infos, set_gateway_chain_info, refresh, unless_gateway_err, ping_signed,
  ping_and_refresh_fee,
}
use c_bridge_node.Server.Summary.{get_total_summary}
use c_bridge_node.Server.Listing.{page_within, parse_uint, get_transfer_page}

module _ {V : View} where
  set_gateway_chain_info-Keeps :
      (m : Map ℕ GatewayChainInfo) → Keeps (On V) (set_gateway_chain_info m)
  unfolding set_gateway_chain_info modify
  set_gateway_chain_info-Keeps m = record { always = λ w v. (record { holds = v.holds }, tt) }

  ping_gateway-Keeps : (req : PingRequest) → Keeps (On V) (ping_gateway req)
  unfolding ping_gateway
  ping_gateway-Keeps req = search (keeps_rules, Keeps-ask)

  unless_gateway_err-Keeps :
      (e : Option ErrMsg) (resp : PingResponse) → Keeps (On V) (unless_gateway_err e resp)
  unfolding unless_gateway_err
  unless_gateway_err-Keeps (some e) resp = Keeps-pure _
  unless_gateway_err-Keeps none resp = search (keeps_rules, set_gateway_chain_info-Keeps)

  refresh-Keeps : (resp : Result PingResponse) → Keeps (On V) (refresh resp)
  unfolding refresh
  refresh-Keeps (err e) = Keeps-pure _
  refresh-Keeps (ok resp) = unless_gateway_err-Keeps resp.err resp

  balances-Keeps :
      (chain_id : ℕ) (addrs : List Addr) (m : Map Addr ℕ) → Keeps (On V) (balances chain_id addrs m)
  unfolding balances
  balances-Keeps chain_id [] m = Keeps-pure m
  balances-Keeps chain_id (addr ∷ addrs) m =
      search (keeps_rules, Keeps-ask, balances-Keeps chain_id addrs)

  chain_infos-Keeps : (chains : Map ℕ BridgeConfig) → Keeps (On V) (chain_infos chains)
  unfolding chain_infos
  chain_infos-Keeps [] = Keeps-pure []
  chain_infos-Keeps ((k, v) ∷ chains) =
      Keeps-bind _ _ (balances-Keeps k v.erc20_map [])
        λ found. Keeps-bind _ _ (chain_infos-Keeps chains) λ rest. Keeps-pure _

  ping_signed-Keeps : (s : Server) (sig : Result (List ℕ)) → Keeps (On V) (ping_signed s sig)
  unfolding ping_signed
  ping_signed-Keeps s (err e) = Keeps-pure _
  ping_signed-Keeps s (ok sig) =
      search (keeps_rules, chain_infos-Keeps, ping_gateway-Keeps, refresh-Keeps)

  pub ping_and_refresh_fee-Keeps : (s : Server) → Keeps (On V) (ping_and_refresh_fee s)
  unfolding ping_and_refresh_fee
  ping_and_refresh_fee-Keeps s = search (keeps_rules, Keeps-ask, ping_signed-Keeps)

  pub get_total_summary-Keeps :
      (addr_string : Addr → String) (s : Server) → Keeps (On V) (get_total_summary addr_string s)
  unfolding get_total_summary get_all_transfers
  get_total_summary-Keeps addr_string s = search (keeps_rules, Keeps-query)

  page_within-Keeps : (limit : Option ℕ) → Keeps (On V) (page_within limit)
  unfolding page_within get_all_transfers_with_limit
  page_within-Keeps none = Keeps-pure _
  page_within-Keeps (some limit) = search (keeps_rules, Keeps-query)

  pub get_transfer_page-Keeps : (limit : String) → Keeps (On V) (get_transfer_page limit)
  unfolding get_transfer_page
  get_transfer_page-Keeps limit = page_within-Keeps (parse_uint limit)
