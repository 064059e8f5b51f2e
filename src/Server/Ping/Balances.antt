-- ===== src/Server/Ping/Balances.antt =====
-- What the loops of PingAndRefreshFee over chains and tokens collect.
use c_bridge_node.Base.{ℕ, ◌≡◌, refl, sym, ap, ◌∙◌, ◌==◌, Bool-cases, List, [], ◌∷◌, map, inl, inr}
use c_bridge_node.Base.Lists.{All}
use c_bridge_node.Base.Maps.{Map, insert, nat_eq}
use c_bridge_node.Wire.{Addr, ChainInfo}
use c_bridge_node.World.{World, Env, Result, ok, err}
use c_bridge_node.Exec.{perform, perform->>=, ask, ◌>>=◌}
use c_bridge_node.Chain.{BridgeConfig}
use c_bridge_node.Server.Ping.{add_balance, balances, chain_infos}

-- Only the count of the effects has moved on.
pub record IsLater (w w' : World) : Type 0 where
  pub same_env : w'.env ≡ w.env
  pub same_table : w'.table ≡ w.table
  pub same_monitor : w'.monitor ≡ w.monitor
  pub same_sent : w'.sent ≡ w.sent
  pub same_info : w'.gateway_chain_info ≡ w.gateway_chain_info

pub IsLater-trans : (u v w : World) → IsLater u v → IsLater v w → IsLater u w
IsLater-trans u v w h k = record {
  same_env = k.same_env ∙ h.same_env;
  same_table = k.same_table ∙ h.same_table;
  same_monitor = k.same_monitor ∙ h.same_monitor;
  same_sent = k.same_sent ∙ h.same_sent;
  same_info = k.same_info ∙ h.same_info;
}

IsLater-refl : (w : World) → IsLater w w
IsLater-refl w = record {
  same_env = refl;
  same_table = refl;
  same_monitor = refl;
  same_sent = refl;
  same_info = refl;
}

balances-IsLater :
    (chain_id : ℕ) (addrs : List Addr) (m : Map Addr ℕ) (w : World)
    → IsLater w (perform (balances chain_id addrs m) w).1
unfolding balances ◌>>=◌
balances-IsLater chain_id [] m w = IsLater-refl w
balances-IsLater chain_id (addr ∷ addrs) m w =
    IsLater-trans w (perform (ask (λ env n. env.balance_of n chain_id addr)) w).1 _
      (record {
        same_env = refl;
        same_table = refl;
        same_monitor = refl;
        same_sent = refl;
        same_info = refl;
      })
      (balances-IsLater chain_id addrs _ _)

pub chain_infos-IsLater :
    (chains : Map ℕ BridgeConfig) (w : World) → IsLater w (perform (chain_infos chains) w).1
unfolding chain_infos ◌>>=◌
chain_infos-IsLater [] w = IsLater-refl w
chain_infos-IsLater ((k, v) ∷ chains) w =
    rw (perform->>=, perform->>=)
      (IsLater-trans w (perform (balances k v.erc20_map []) w).1 _
        (balances-IsLater k v.erc20_map [] w)
        (chain_infos-IsLater chains (perform (balances k v.erc20_map []) w).1))

abbrev pub chain_ids : Map ℕ BridgeConfig → List ℕ
chain_ids [] = []
chain_ids ((k, v) ∷ chains) = k ∷ chain_ids chains

abbrev pub fee_rates : Map ℕ BridgeConfig → List ℕ
fee_rates [] = []
fee_rates ((k, v) ∷ chains) = v.config.fee_rate ∷ fee_rates chains

pub chain_infos-ids :
    (chains : Map ℕ BridgeConfig) (w : World)
    → (map (λ i. i.chain_id) (perform (chain_infos chains) w).0 ≡ chain_ids chains)
      × (map (λ i. i.fee_per_10000) (perform (chain_infos chains) w).0 ≡ fee_rates chains)
unfolding chain_infos ◌>>=◌
chain_infos-ids [] w = (refl, refl)
chain_infos-ids ((k, v) ∷ chains) w =
    let rest = chain_infos-ids chains (perform (balances k v.erc20_map []) w).1 in
    rw (perform->>=, perform->>=)
      (ap (λ ids. k ∷ ids) rest.0, ap (λ rates. v.config.fee_rate ∷ rates) rest.1)

-- A token with the balance that the chain gave for it at some moment.
abbrev pub IsBalance : Env → ℕ → Addr × ℕ → Type 0
IsBalance e chain_id entry = (n : ℕ) × (e.balance_of n chain_id entry.0 ≡ ok entry.1)

abbrev pub HasBalances : Env → ChainInfo → Type 0
HasBalances e info = All (IsBalance e info.chain_id) info.token_and_balance

insert-All :
    (P : Addr × ℕ → Type 0) (m : Map Addr ℕ) (k : Addr) (v : ℕ)
    → P (k, v)
    → All P m
    → All P (insert m k v)
unfolding insert
insert-All P [] k v new h = (new, tt)
insert-All P ((j, x) ∷ m) k v new h = elim (Bool-cases (j == k)) [
  | inl e ↦ rw e (new, h.1)
  | inr e ↦ rw e (h.0, insert-All P m k v new h.1)
]

module _ (e : Env) where
  add_balance-All :
      (chain_id n : ℕ) (addr : Addr) (r : Result ℕ) (m : Map Addr ℕ)
      → e.balance_of n chain_id addr ≡ r
      → All (IsBalance e chain_id) m
      → All (IsBalance e chain_id) (add_balance addr r m)
  unfolding add_balance
  add_balance-All chain_id n addr (ok balance) m said h = insert-All _ m addr balance (n, said) h
  add_balance-All chain_id n addr (err x) m said h = h

  balances-All :
      (chain_id : ℕ) (addrs : List Addr) (m : Map Addr ℕ) (w : World)
      → w.env ≡ e
      → All (IsBalance e chain_id) m
      → All (IsBalance e chain_id) (perform (balances chain_id addrs m) w).0
  unfolding balances ◌>>=◌ ask
  balances-All chain_id [] m w env h = h
  balances-All chain_id (addr ∷ addrs) m w env h = balances-All chain_id addrs _ _ env (
      add_balance-All chain_id w.steps addr (w.env.balance_of w.steps chain_id addr) m
        (ap (λ x. x.balance_of w.steps chain_id addr) (sym env)) h)

  pub chain_infos-All :
      (chains : Map ℕ BridgeConfig) (w : World)
      → w.env ≡ e
      → All (HasBalances e) (perform (chain_infos chains) w).0
  unfolding chain_infos ◌>>=◌
  chain_infos-All [] w env = tt
  chain_infos-All ((k, v) ∷ chains) w env =
      rw (perform->>=, perform->>=)
        (
          balances-All k v.erc20_map [] w env tt,
          chain_infos-All chains (perform (balances k v.erc20_map []) w).1
              ((balances-IsLater k v.erc20_map [] w).same_env ∙ env),
        )
