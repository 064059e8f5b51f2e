-- ===== src/Server/Startup/Watched.antt =====
-- What a start of the server (Init of server/server.go) has set up when it succeeds.
use mathlib.Core.Path.{subst}
use c_bridge_node.Util.KeyStore.{returned}
use c_bridge_node.Base.{
  ℕ, ◌≡◌, refl, sym, ap, String, true, Option, none, some, List, [], ◌∷◌, arith, inl, inr,
  Bool-cases,
}
use c_bridge_node.Base.Maps.{Map}
use c_bridge_node.World.{rpc_failed, World, Fault, Result, ok, err}
use c_bridge_node.Exec.{M, perform, perform->>=, pure}
use c_bridge_node.Exec.Keeps.{
  Yields, Yields-perform, Yields-bind, Yields-mono, Yields-pure, Yields-Unit,
}
use c_bridge_node.Exec.Views.{View, On, Keeps-ask}
use c_bridge_node.Chain.{BridgeConfig}
use c_bridge_node.Server.{Server}
use c_bridge_node.Server.Init.{or_return}
use c_bridge_node.Server.Startup.{
  MonitorConfig, Services, Started, result_of, start_monitor, start_each, start_chain, start_chains,
  start_monitors, or_end, events,
}

-- No world is left out.
abbrev Any : View
Any env t s = Unit

-- A monitor of this chain that was accepted, for this event.
pub record IsMonitor (svc : Services) (bc : BridgeConfig) (event : String) (cfg : MonitorConfig)
    : Type 0 where
  pub accepted : svc.monitor cfg ≡ none
  pub chain : cfg.chain_id ≡ bc.chain_id
  pub event_of : cfg.event_name ≡ event
  pub delay : cfg.forward_delay ≡ bc.config.watch_config.forward_block_delay

-- One monitor for each event, in order.
abbrev pub AreMonitors : Services → BridgeConfig → List String → List MonitorConfig → Type 0
AreMonitors svc bc [] [] = Unit
AreMonitors svc bc (event ∷ later) (cfg ∷ cfgs) =
    IsMonitor svc bc event cfg × AreMonitors svc bc later cfgs
AreMonitors svc bc _ _ = ⊥

-- A watch service, and the monitors of the bridge contract's four events.
pub record IsWatched (svc : Services) (bc : BridgeConfig) (cfgs : List MonitorConfig) : Type 0 where
  pub watched : svc.new_watch_service bc.chain_id ≡ true
  pub monitors :
      AreMonitors svc bc
        ("LogNewTransferOut" ∷ "LogNewTransferIn" ∷ "LogTransferConfirmed" ∷ "LogTransferRefunded"
          ∷ [])
        cfgs

abbrev pub AreWatched : Services → Map ℕ BridgeConfig → List (List MonitorConfig) → Type 0
AreWatched svc [] [] = Unit
AreWatched svc ((id, bc) ∷ chains) (cfgs ∷ all) = IsWatched svc bc cfgs × AreWatched svc chains all
AreWatched svc _ _ = ⊥

abbrev pub IfOk : {A : Type 0} → (A → Type 0) → Result A → Type 0
IfOk Q (ok a) = Q a
IfOk Q (err e) = Unit

module _ {A B : Type 0} {P : World → Type 0} where
  pub Yields-or_return :
      (Q : A → Type 0) (R : B → Type 0) (r : Result A) (f : A → M (Result B))
      → IfOk Q r
      → ((a : A) → Q a → Yields P (f a) (IfOk R))
      → Yields P (or_return r f) (IfOk R)
  unfolding or_return
  Yields-or_return Q R (ok a) f q y = y a q
  Yields-or_return Q R (err e) f q y = Yields-pure (err e) (IfOk R) tt

module _ (svc : Services) where
  start_monitor-IsMonitor :
      (bc : BridgeConfig) (event : String)
      → Yields (On Any) (start_monitor svc bc event) (IfOk (IsMonitor svc bc event))
  unfolding start_monitor
  start_monitor-IsMonitor bc event =
      Yields-bind _ _ (λ block. Unit) _ (Yields-Unit _ (Keeps-ask _))
        λ block u. Yields-pure _ (IfOk (IsMonitor svc bc event)) (checked _ refl refl refl)
    where
      accepted_is :
          (fault : Option Fault) (cfg : MonitorConfig)
          → svc.monitor cfg ≡ fault
          → cfg.chain_id ≡ bc.chain_id
          → cfg.event_name ≡ event
          → cfg.forward_delay ≡ bc.config.watch_config.forward_block_delay
          → IfOk (IsMonitor svc bc event) (result_of fault cfg)
      accepted_is none cfg h chain name delay = record {
        accepted = h;
        chain = chain;
        event_of = name;
        delay = delay;
      }
      accepted_is (some e) cfg h chain name delay = tt

      checked :
          (cfg : MonitorConfig)
          → cfg.chain_id ≡ bc.chain_id
          → cfg.event_name ≡ event
          → cfg.forward_delay ≡ bc.config.watch_config.forward_block_delay
          → IfOk (IsMonitor svc bc event) (result_of (svc.monitor cfg) cfg)
      checked cfg = accepted_is (svc.monitor cfg) cfg refl

  start_each-AreMonitors :
      (bc : BridgeConfig) (later : List String)
      → Yields (On Any) (start_each svc bc later) (IfOk (AreMonitors svc bc later))
  unfolding start_each
  start_each-AreMonitors bc [] = Yields-pure (ok []) (IfOk (AreMonitors svc bc [])) tt
  start_each-AreMonitors bc (event ∷ later) =
      Yields-bind _ _ (IfOk (IsMonitor svc bc event)) _ (start_monitor-IsMonitor bc event)
        λ started is. Yields-or_return (IsMonitor svc bc event) _ started _ is λ cfg ok_cfg.
          Yields-bind _ _ (IfOk (AreMonitors svc bc later)) _ (start_each-AreMonitors bc later)
            λ rest are. Yields-or_return (AreMonitors svc bc later) _ rest _ are λ cfgs ok_cfgs.
              Yields-pure (ok (cfg ∷ cfgs)) (IfOk (AreMonitors svc bc (event ∷ later)))
                (ok_cfg, ok_cfgs)

  start_chain-IsWatched :
      (bc : BridgeConfig) → Yields (On Any) (start_chain svc bc) (IfOk (IsWatched svc bc))
  unfolding start_chain
  start_chain-IsWatched bc = elim (Bool-cases (svc.new_watch_service bc.chain_id)) [
    | inl e ↦ rw e (Yields-mono _ _ _ (λ r. watched_of r e) (start_each-AreMonitors bc events))
    | inr e ↦ rw e (Yields-pure (err rpc_failed) (IfOk (IsWatched svc bc)) tt)
  ]
    where
      watched_of :
          (r : Result (List MonitorConfig))
          → svc.new_watch_service bc.chain_id ≡ true
          → IfOk (AreMonitors svc bc events) r
          → IfOk (IsWatched svc bc) r
      watched_of (ok cfgs) e are = record { watched = e; monitors = are }
      watched_of (err x) e are = tt

  pub start_chains-AreWatched :
      (chains : Map ℕ BridgeConfig)
      → Yields (On Any) (start_chains svc chains) (IfOk (AreWatched svc chains))
  unfolding start_chains
  start_chains-AreWatched [] = Yields-pure (ok []) (IfOk (AreWatched svc [])) tt
  start_chains-AreWatched ((id, bc) ∷ chains) =
      Yields-bind _ _ (IfOk (IsWatched svc bc)) _ (start_chain-IsWatched bc) λ started is.
        Yields-or_return (IsWatched svc bc) _ started _ is λ cfgs ok_cfgs.
          Yields-bind _ _ (IfOk (AreWatched svc chains)) _ (start_chains-AreWatched chains)
            λ rest are. Yields-or_return (AreWatched svc chains) _ rest _ are λ all ok_all.
              Yields-pure (ok (cfgs ∷ all)) (IfOk (AreWatched svc ((id, bc) ∷ chains)))
                (ok_cfgs, ok_all)

  -- What a successful start of the monitors returns.
  pub start_monitors-AreWatched :
      (s : Server) (st : Started) (w : World)
      → (perform (start_monitors svc s) w).0 ≡ returned (ok st)
      → (st.server ≡ s) × AreWatched svc s.chain_map st.monitors
  unfolding start_monitors or_end pure
  start_monitors-AreWatched s st w h =
      watched_of (perform (start_chains svc s.chain_map) w).0
        (perform (start_chains svc s.chain_map) w).1
        (Yields-perform (start_chains-AreWatched s.chain_map) w (record { holds = tt }))
        (rw perform->>= at h)
    where
      watched_of :
          (r : Result (List (List MonitorConfig))) (w' : World)
          → IfOk (AreWatched svc s.chain_map) r
          → (perform
              (or_end r
                (λ monitors. pure (returned (ok (record { server = s; monitors = monitors })))))
              w').0
            ≡ returned (ok st)
          → (st.server ≡ s) × AreWatched svc s.chain_map st.monitors
      watched_of (ok all) w' are h =
          let same : ◌≡◌ {A = Started} (record { server = s; monitors = all }) st = cc in
          (
            sym (ap (λ t. t.server) same),
            subst (λ t. AreWatched svc s.chain_map t.monitors) same are,
          )
      watched_of (err e) w' are h = absurd (ground arith)
