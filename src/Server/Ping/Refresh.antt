-- ===== src/Server/Ping/Refresh.antt =====
-- What PingAndRefreshFee asks, and what it takes over.
use c_bridge_node.Base.{ℕ, ◌≡◌, ◌≢◌, refl, none, some, List, map, arith, ◌⊎◌, inl, inr}
use c_bridge_node.Base.Lists.{All}
use c_bridge_node.Base.Maps.{nat_eq}
use c_bridge_node.Wire.{ChainInfo, PingResponse}
use c_bridge_node.World.{World, Fault, Result, ok, err}
use c_bridge_node.Exec.{pure, perform, perform->>=, ◌>>=◌}
use c_bridge_node.Gateway.{ping_gateway}
use c_bridge_node.Gateway.Replies.{ping_gateway-ok}
use c_bridge_node.Server.{Server}
use c_bridge_node.Server.Ping.{
  chain_infos, ping_request, set_gateway_chain_info, refresh, ping_signed, ping_and_refresh_fee,
}
use c_bridge_node.Server.Ping.Balances.{
  IsLater, IsLater-trans, chain_infos-IsLater, chain_ids, fee_rates, chain_infos-ids, HasBalances,
  chain_infos-All,
}

-- The gateway accepted a ping with this request.
pub record Accepted (s : Server) (w w' : World) : Type 0 where
  pub sig : List ℕ
  pub signed : w.env.sign w.steps s.account_addr ≡ ok sig
  pub infos : List ChainInfo
  pub ids : map (λ i. i.chain_id) infos ≡ chain_ids s.chain_map
  pub rates : map (λ i. i.fee_per_10000) infos ≡ fee_rates s.chain_map
  pub told : All (HasBalances w.env) infos
  pub moment : ℕ
  pub resp : PingResponse
  pub answer :
      w.env.rpc_ping moment (record {
        eth_addr = s.account_addr;
        chain_info = infos;
        nick_name = s.relay_node_name;
        sig = sig;
        node_version = s.version;
      })
      ≡ ok resp
  pub no_err : resp.err ≡ none
  pub taken_over : w'.gateway_chain_info ≡ resp.chain_info

some-none : (e : Fault) → some e ≢ none
some-none e h = absurd (ground arith)

refresh_cases :
    (s : Server) (w w₁ : World) (sig : List ℕ) (infos : List ChainInfo)
    → w.env.sign w.steps s.account_addr ≡ ok sig
    → map (λ i. i.chain_id) infos ≡ chain_ids s.chain_map
    → map (λ i. i.fee_per_10000) infos ≡ fee_rates s.chain_map
    → All (HasBalances w.env) infos
    → IsLater w w₁
    → (r : Result PingResponse) → (perform (ping_gateway (ping_request s sig infos)) w₁).0 ≡ r
    → (((perform (refresh r) (perform (ping_gateway (ping_request s sig infos)) w₁).1).0 ≢ none)
        × IsLater w
            (perform (refresh r) (perform (ping_gateway (ping_request s sig infos)) w₁).1).1)
      ⊎ (((perform (refresh r) (perform (ping_gateway (ping_request s sig infos)) w₁).1).0 ≡ none)
          × Accepted s w
              (perform (refresh r) (perform (ping_gateway (ping_request s sig infos)) w₁).1).1)
unfolding refresh set_gateway_chain_info ping_gateway ping_request ◌>>=◌
refresh_cases s w w₁ sig infos signed ids rates told later (err e) h = inl (
  some-none e,
  IsLater-trans w w₁ _ later (record {
    same_env = refl;
    same_table = refl;
    same_monitor = refl;
    same_sent = refl;
    same_info = refl;
  }),
)
refresh_cases s w w₁ sig infos signed ids rates told later (ok resp) h =
    let (answer, no_err) = ping_gateway-ok (ping_request s sig infos) w₁ resp h in
    inr (
      rw no_err refl,
      record {
        sig = sig;
        signed = signed;
        infos = infos;
        ids = ids;
        rates = rates;
        told = told;
        moment = w₁.steps;
        resp = resp;
        answer = rw (← later.same_env) answer;
        no_err = no_err;
        taken_over = rw no_err refl;
      },
    )

signed_cases :
    (s : Server) (w : World) (r : Result (List ℕ))
    → w.env.sign w.steps s.account_addr ≡ r
    → (w₀ : World) → IsLater w w₀
    → (((perform (ping_signed s r) w₀).0 ≢ none) × IsLater w (perform (ping_signed s r) w₀).1)
      ⊎ (((perform (ping_signed s r) w₀).0 ≡ none) × Accepted s w (perform (ping_signed s r) w₀).1)
unfolding ping_signed pure
signed_cases s w (err e) h w₀ later = inl (some-none e, later)
signed_cases s w (ok sig) h w₀ later =
    let (ids, rates) = chain_infos-ids s.chain_map w₀ in
    rw (perform->>=, perform->>=)
      (refresh_cases s w (perform (chain_infos s.chain_map) w₀).1 sig
        (perform (chain_infos s.chain_map) w₀).0 h ids rates
        (chain_infos-All w.env s.chain_map w₀ later.same_env)
        (IsLater-trans w w₀ _ later (chain_infos-IsLater s.chain_map w₀)) _ refl)

-- A ping ends in one of two ways. It returns an error, and nothing that the node keeps has changed;
-- or it returns none: then the gateway accepted a request, signed for the node's account, with an
-- entry for each configured chain at its fee rate, with balances that the chain gave; and the chain
-- information of the gateway's answer is the node's from then on.
pub ping_and_refresh_fee_cases :
    (s : Server) (w : World)
    → (((perform (ping_and_refresh_fee s) w).0 ≢ none)
        × IsLater w (perform (ping_and_refresh_fee s) w).1)
      ⊎ (((perform (ping_and_refresh_fee s) w).0 ≡ none)
          × Accepted s w (perform (ping_and_refresh_fee s) w).1)
unfolding ping_and_refresh_fee ◌>>=◌
ping_and_refresh_fee_cases s w =
    signed_cases s w (w.env.sign w.steps s.account_addr) refl _ (record {
      same_env = refl;
      same_table = refl;
      same_monitor = refl;
      same_sent = refl;
      same_info = refl;
    })
