-- ===== src/Chain/Keeps.antt =====
-- What the questions to the chains and the gateway, and a transaction, keep.
use c_bridge_node.Base.{Option, List, ◌∷◌}
use c_bridge_node.Wire.{Hash}
use c_bridge_node.Transfer.{Row}
use c_bridge_node.World.{Env, Sent, Call, Fault}
use c_bridge_node.Exec.{◌>>=◌}
use c_bridge_node.Exec.Keeps.{Keeps, keeps_rules}
use c_bridge_node.Exec.Views.{View, On, Keeps-ask}
use c_bridge_node.Chain.{BridgeConfig, get_transfer, transact}
use c_bridge_node.Gateway.{get_fee}

module _ {V : View} where
  pub Keeps-get_transfer : (bc : BridgeConfig) (tid : Hash) → Keeps (On V) (get_transfer bc tid)
  unfolding get_transfer
  Keeps-get_transfer bc tid = search (keeps_rules, Keeps-ask)

  pub Keeps-get_fee : (tid : Hash) → Keeps (On V) (get_fee tid)
  unfolding get_fee
  Keeps-get_fee tid = search (keeps_rules, Keeps-ask)

  -- A transaction is one more entry of `sent`.
  pub Keeps-transact :
      (bc : BridgeConfig) (tid : Hash) (call : Call)
      → ((env : Env) (t : List Row) (s : List Sent) (outcome : Option Fault)
          → V env t s
          → V env t (
              record { chain = bc.chain_id; transfer_id = tid; call = call; outcome = outcome }
              ∷ s))
      → Keeps (On V) (transact bc tid call)
  unfolding transact ◌>>=◌
  Keeps-transact bc tid call h = record {
    always = λ w v. (
      record { holds = v.holds },
      λ w' v'. (
        record {
          holds = h w'.env w'.table w'.sent (w.env.transact w.steps bc.chain_id call) v'.holds;
        },
        tt,
      ),
    );
  }
