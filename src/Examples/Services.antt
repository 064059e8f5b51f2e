-- ===== src/Examples/Services.antt =====
-- Start, ping, pages and the monitor's table at concrete inputs.
use c_bridge_node.Base.{ℕ, ◌≡◌, ◌≢◌, refl, true, false, none, some, List, [], ◌∷◌, ◌⊎◌, map, arith}
use c_bridge_node.Base.Int.{pos}
use c_bridge_node.Base.Maps.{lookup, insert, change}
use c_bridge_node.Transfer.{Row, scan_transfer}
use c_bridge_node.World.{ok}
use c_bridge_node.Exec.{perform, pure, ask, modify, ◌>>=◌}
use c_bridge_node.Dal.Monitor.{upsert_monitor_block, get_monitor_block}
use c_bridge_node.Dal.Monitor.Blocks.{get-upsert}
use c_bridge_node.Gateway.{ping_gateway, digits}
use c_bridge_node.Server.Summary.{Summary, get_total_summary}
use c_bridge_node.Server.Summary.Report.{IsSummaryOf, get_total_summary_lem}
use c_bridge_node.Server.Ping.{
  balances, add_balance, chain_infos, ping_request, set_gateway_chain_info, refresh, ping_signed,
  ping_and_refresh_fee,
}
use c_bridge_node.Server.Ping.Balances.{IsLater}
use c_bridge_node.Server.Ping.Refresh.{Accepted, ping_and_refresh_fee_cases}
use c_bridge_node.Server.Init.{
  new_server, set_in, or_return, unless_err, set_name_and_decimal, set_addr, approve_token,
  register_token, register_tokens, erc20_keys, set_gas_token, set_chain, init_chain, init_chains,
  init,
}
use c_bridge_node.Server.Init.Tokens.{IsConsistent}
use c_bridge_node.Server.Init.Consistent.{init-IsConsistent}
use c_bridge_node.Server.Listing.{get_transfer_page, page, line_of, parse_uint}
use c_bridge_node.Server.Listing.Page.{Shows, get_transfer_page_lem}
use c_bridge_node.Examples.{
  server, booted, env_pinged, env_with, chain_config, with_table, start, planned, user_out,
}

get_total_summary_lem_example :
    (m : Summary) × ((perform
        (get_total_summary (λ a. "") server)
        (with_table (env_with 0) (planned ∷ user_out ∷ []))).0
      ≡ some m)
    × IsSummaryOf (map scan_transfer (planned ∷ user_out ∷ [])) m
get_total_summary_lem_example =
    get_total_summary_lem (λ a. "") server (with_table (env_with 0) (planned ∷ user_out ∷ [])) refl
      (omega arith)

ping_and_refresh_fee_cases_example :
    (((perform (ping_and_refresh_fee server) (with_table env_pinged [])).0 ≢ none)
      × IsLater
          (with_table env_pinged [])
          (perform (ping_and_refresh_fee server) (with_table env_pinged [])).1)
    ⊎ (((perform (ping_and_refresh_fee server) (with_table env_pinged [])).0 ≡ none)
        × Accepted server
            (with_table env_pinged [])
            (perform (ping_and_refresh_fee server) (with_table env_pinged [])).1)
ping_and_refresh_fee_cases_example = ping_and_refresh_fee_cases server (with_table env_pinged [])

own_id : (n id own : ℕ) → env_pinged.connect n id ≡ ok own → own ≡ id
own_id n id own h = ground arith

init-IsConsistent_example : IsConsistent booted
unfolding init init_chains init_chain register_tokens register_token approve_token set_in
    set_name_and_decimal set_addr set_gas_token set_chain erc20_keys or_return unless_err new_server
    insert change lookup ping_and_refresh_fee ping_signed chain_infos balances add_balance
    ping_request ping_gateway refresh set_gateway_chain_info pure ask modify ◌>>=◌
init-IsConsistent_example =
    init-IsConsistent (chain_config 1 ∷ []) "v1.0.2" "node" 11 (with_table env_pinged []) booted
      own_id (omega arith, tt) refl

get_transfer_page_lem_example :
    (rows : List Row) × ((perform (get_transfer_page "2") start).0
      ≡ page (map line_of (map scan_transfer rows)))
    × Shows start.table 2 rows
unfolding parse_uint digits
get_transfer_page_lem_example = get_transfer_page_lem "2" 2 start refl refl

get-upsert_example :
    ((perform (upsert_monitor_block "out" 7 (pos 3) false) start).0 ≡ none)
    × ((perform
          (get_monitor_block "out")
          (perform (upsert_monitor_block "out" 7 (pos 3) false) start).1).0
        ≡ ((7, pos 3), ok true))
get-upsert_example = get-upsert "out" 7 (pos 3) false start refl refl refl refl
