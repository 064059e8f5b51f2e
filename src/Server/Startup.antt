-- ===== src/Server/Startup.antt =====
-- server/server.go: InitGatewayClient and the whole of Init, with the registration of the monitors;
-- server/dal.go: NewDAL; server/gateway.go: NewGatewayAPI. What the node calls while it starts is a
-- parameter.
pub mod Watched
use Prim.Native.String.{◌++◌ as append}
use c_bridge_node.Base.{
  ℕ, String, Bool, true, false, Option, none, some, List, [], ◌∷◌, if◌then◌else◌,
}
use c_bridge_node.Base.Maps.{Map}
use c_bridge_node.Wire.{Addr}
use c_bridge_node.World.{Fault, rpc_failed, Result, ok, err}
use c_bridge_node.Exec.{M, pure, ask, ◌>>=◌}
use c_bridge_node.Chain.{BridgeConfig}
use c_bridge_node.Util.KeyStore.{
  CBridgeConfig, Host, ProcessResult, returned, exited, KeyConfig, get_transactor_config,
}
use c_bridge_node.Server.{Server}
use c_bridge_node.Server.Init.{init, or_return}

-- `monitor.Config`; the contract is the chain's.
pub record MonitorConfig : Type 0 where
  pub chain_id : ℕ
  pub event_name : String
  pub start_block : ℕ
  pub forward_delay : ℕ

pub record Services : Type 0 where
  -- sqldb.NewDb of a driver, an info string and a pool size
  pub new_db : String → String → ℕ → Option Fault
  -- grpc.Dial
  pub dial : String → Option Fault
  -- eth.GetAddrPrivKeyFromKeystore and eth.NewSignerFromKeystore
  pub addr_from_keystore : KeyConfig → Result Addr
  pub new_signer : KeyConfig → Option Fault
  -- watcher.NewWatchService of a chain is not nil.
  pub new_watch_service : ℕ → Bool
  -- bgc.mon.Monitor
  pub monitor : MonitorConfig → Option Fault

abbrev pub ev_log_transfer_out : String
ev_log_transfer_out = "LogNewTransferOut"

abbrev pub ev_log_transfer_in : String
ev_log_transfer_in = "LogNewTransferIn"

abbrev pub ev_log_transfer_confirmed : String
ev_log_transfer_confirmed = "LogTransferConfirmed"

abbrev pub ev_log_transfer_refunded : String
ev_log_transfer_refunded = "LogTransferRefunded"

-- In the order in which Init sets up their monitors
abbrev pub events : List String
events =
    ev_log_transfer_out ∷ ev_log_transfer_in ∷ ev_log_transfer_confirmed ∷ ev_log_transfer_refunded
    ∷ []

-- A server that is started: the monitors of each chain, in the order of the chain map.
pub record Started : Type 0 where
  pub server : Server
  pub monitors : List (List MonitorConfig)

module _ {A B : Type 0} where
  -- `if err != nil { return err }`, and the end of the process
  unfoldable pub or_end : Result A → (A → M (ProcessResult B)) → M (ProcessResult B)
  or_end (ok a) f = f a
  or_end (err e) f = pure (returned (err e))

  unfoldable pub unless_exited : ProcessResult A → (A → M (ProcessResult B)) → M (ProcessResult B)
  unless_exited (returned r) f = or_end r f
  unless_exited exited f = pure exited

abbrev pub result_of : {A : Type 0} → Option Fault → A → Result A
result_of none a = ok a
result_of (some e) a = err e

module _ (svc : Services) where
  unfoldable pub new_dal : String → Result (Unit {0})
  new_dal db =
      result_of
        (svc.new_db "postgres"
          (append "postgresql://cbridge@" (append db "/cbridge?sslmode=disable")) 20)
        tt

  unfoldable pub new_gateway_api : String → Result (Unit {0})
  new_gateway_api gateway_url = result_of (svc.dial gateway_url) tt

  -- log.Fatalln on an error
  unfoldable pub init_gateway_client : String → ProcessResult (Unit {0})
  unfolding new_gateway_api
  init_gateway_client gateway_url = elim (new_gateway_api gateway_url) [
    | ok u ↦ returned (ok tt)
    | err e ↦ exited
  ]

  -- The configuration and the call of Monitor, in monitorLogTransferOut and its like.
  unfoldable pub start_monitor : BridgeConfig → String → M (Result MonitorConfig)
  start_monitor bc event = do
    block ← ask (λ env n. env.current_block n bc.chain_id)
    let cfg : MonitorConfig = record {
      chain_id = bc.chain_id;
      event_name = event;
      start_block = block;
      forward_delay = bc.config.watch_config.forward_block_delay;
    }
    pure (result_of (svc.monitor cfg) cfg)

  -- The monitors of these events, in their order; the first that fails ends it.
  unfoldable pub start_each : BridgeConfig → List String → M (Result (List MonitorConfig))
  start_each bc [] = pure (ok [])
  start_each bc (event ∷ later) = do
    started ← start_monitor bc event
    or_return started
        λ cfg. do rest ← start_each bc later; or_return rest λ cfgs. pure (ok (cfg ∷ cfgs))

  unfoldable pub start_chain : BridgeConfig → M (Result (List MonitorConfig))
  start_chain bc =
      if svc.new_watch_service bc.chain_id then start_each bc events else pure (err rpc_failed)

  -- `for _, bgc := range s.chainMap { … }`
  unfoldable pub start_chains : Map ℕ BridgeConfig → M (Result (List (List MonitorConfig)))
  start_chains [] = pure (ok [])
  start_chains ((id, bc) ∷ chains) = do
    started ← start_chain bc
    or_return started
        λ cfgs. do rest ← start_chains chains; or_return rest λ all. pure (ok (cfgs ∷ all))

  unfoldable pub start_monitors : Server → M (ProcessResult Started)
  start_monitors s = do
    started ← start_chains s.chain_map
    or_end started λ monitors. pure (returned (ok (record { server = s; monitors = monitors })))

  -- Init from the key store on
  unfoldable pub init_with :
      CBridgeConfig → Server → ProcessResult KeyConfig → M (ProcessResult Started)
  init_with config s loaded = unless_exited loaded λ tcfg.
      or_end (svc.addr_from_keystore tcfg) λ account_addr.
        or_end (result_of (svc.new_signer tcfg) tt) λ u. do
          started ←
              init config.chain_config
                (record s { relay_node_name = config.relay_node_name; account_addr = account_addr })
          or_end started start_monitors

  unfoldable pub start_up :
      Host → CBridgeConfig → String → String → Server → M (ProcessResult Started)
  start_up host config ks pwd_dir s =
      or_end (new_dal config.db) λ u. init_with config s (get_transactor_config host ks pwd_dir)
