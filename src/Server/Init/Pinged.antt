-- ===== src/Server/Init/Pinged.antt =====
-- The ping that ends Init, as the gateway saw it.
use c_bridge_node.Base.{ℕ, ◌<◌, ◌^◌, ◌≡◌, refl, List, String, inl, inr}
use c_bridge_node.Base.Lists.{All}
use c_bridge_node.Wire.{Addr, ChainConfig}
use c_bridge_node.World.{World, ok}
use c_bridge_node.Exec.{perform}
use c_bridge_node.Exec.Keeps.{Always-perform}
use c_bridge_node.Exec.Views.{On}
use c_bridge_node.Server.{Server}
use c_bridge_node.Server.Init.{init, init_chains, new_server}
use c_bridge_node.Server.Init.Consistent.{
  Good, InEnv, init-ok, init_chains-Good, new_server-IsConsistent,
}
use c_bridge_node.Server.Ping.{ping_and_refresh_fee}
use c_bridge_node.Server.Ping.Refresh.{Accepted, ping_and_refresh_fee_cases}

-- At some moment after `w` the gateway has accepted the ping of this server.
pub record IsPinged (s : Server) (w : World) : Type 0 where
  pub before : World
  pub same_env : before.env ≡ w.env
  pub after : World
  pub accepted : Accepted s before after

pub init-IsPinged :
    (configs : List ChainConfig) (version name : String) (account : Addr) (w : World) (s' : Server)
    → ((n id own_id : ℕ) → w.env.connect n id ≡ ok own_id → own_id ≡ id)
    → All (λ config. config.chain_id < 2 ^ 64) configs
    → (perform (init configs (new_server version name account)) w).0 ≡ ok s'
    → IsPinged s' w
init-IsPinged configs version name account w s' own_ids small h =
    let starting = init_chains configs (new_server version name account) in
    let (registered, pinged) = init-ok configs (new_server version name account) s' w h in
    let (in_env, good) =
      Always-perform (On (InEnv w.env)) Good starting
        (init_chains-Good w.env own_ids configs (new_server version name account) small
          (new_server-IsConsistent version name account)).always
        w (record { holds = refl }) in
    elim (ping_and_refresh_fee_cases s' (perform starting w).1) [
      | inl failed ↦ absurd (failed.0 pinged)
      | inr succeeded ↦ record {
        before = (perform starting w).1;
        same_env = in_env.holds;
        after = (perform (ping_and_refresh_fee s') (perform starting w).1).1;
        accepted = succeeded.1;
      }
    ]
