-- ===== src/Examples/Starts.antt =====
-- The start of the process, its key store and its goroutines at concrete inputs.
use c_bridge_node.Base.{
  [], ◌∷◌, some, ℕ, ◌^◌, ◌<◌, ◌≡◌, refl, String, true, false, none, List, [], ◌∷◌, map, arith,
  if◌then◌else◌,
}
use c_bridge_node.Base.Maps.{string_eq, lookup, insert, change}
use c_bridge_node.Base.Lists.{All}
use c_bridge_node.World.{no_rows, Result, ok, err}
use c_bridge_node.Exec.{perform, pure, ask, modify, ◌>>=◌}
use c_bridge_node.Util.KeyStore.{
  CBridgeConfig, Host, newline, trim_newlines, and_then, or_fatal, get_address_from_keystore,
  read_password, get_transactor_config, parse_cfg_file,
}
use c_bridge_node.Util.KeyStore.Passwords.{IsPasswordOf, read_password-IsPasswordOf}
use c_bridge_node.Server.Startup.{
  Services, Started, MonitorConfig, events, init_gateway_client, start_up, init_with, new_dal,
  or_end, unless_exited, start_monitors, start_chains, start_chain, start_each, start_monitor,
}
use c_bridge_node.Main.{Flags, main, check_flags, unless_fatal}
use c_bridge_node.Main.{start as start_process}
use c_bridge_node.Main.Serving.{IsServing, main-IsConsistent}
use c_bridge_node.Main.Terminal.{with_terminal, main-with_terminal}
use c_bridge_node.Server.Ping.{
  balances, add_balance, chain_infos, ping_request, set_gateway_chain_info, refresh, ping_signed,
  ping_and_refresh_fee,
}
use c_bridge_node.Server.Init.{
  new_server, set_in, or_return, unless_err, set_name_and_decimal, set_addr, approve_token,
  register_token, register_tokens, erc20_keys, set_gas_token, set_chain, init_chain, init_chains,
  init,
}
use c_bridge_node.Server.Init.Registered.{HasChain}
use c_bridge_node.Server.Init.Pinged.{IsPinged}
use c_bridge_node.Server.Init.Tokens.{IsConsistent}
use c_bridge_node.Gateway.{ping_gateway}
use c_bridge_node.Dal.{has_tid}
use c_bridge_node.Dal.Evolution.{Evolves, Progress, HasKeys}
use mathlib.Core.Path.{subst}
use c_bridge_node.World.{World}
use c_bridge_node.Exec.Threads.{Pool, here, there}
use c_bridge_node.Dal.{now}
use c_bridge_node.Dal.Queries.{
  query, get_all_start_transfer_in, get_all_confirmable_locked_transfer,
}
use c_bridge_node.Server.Send.{process_try_send_transfer_in}
use c_bridge_node.Server.Confirm.{process_try_confirm_transfer}
use c_bridge_node.Node.{send_tick, confirm_tick, handle}
use c_bridge_node.Dal.Lookups.{FindsOnlyRows}
use c_bridge_node.Chain.Sends.{SentSince}
use c_bridge_node.Node.Threads.Justified.{IsJustified, StoodWhole, Reach-IsJustified}
use c_bridge_node.Node.Threads.{Reach, Reach-perform, arrive, turn, Reach-Evolves}
use c_bridge_node.Examples.{server, booted, env_pinged, chain_config, with_table, start}

-- Files: the configuration, the key store, and the password with a newline at its end.
abbrev files : String → Result (List ℕ)
files name =
    if string_eq.beq name "config.json"
    then ok (1 ∷ [])
    else if string_eq.beq name "ks.json"
    then ok (2 ∷ [])
    else if string_eq.beq name "pwd"
    then ok (b'p' ∷ b'w' ∷ newline ∷ [])
    else err no_rows

abbrev parsed_config : CBridgeConfig
parsed_config = record {
  relay_node_name = "node";
  chain_config = chain_config 1 ∷ [];
  db = "127.0.0.1:26257";
  gateway = "gateway:443";
}

abbrev host : Host
host = record {
  read_file = files;
  parse_config = λ raw. ok parsed_config;
  address_in_json = λ ks. ok [];
  is_terminal = false;
  terminal_password = err no_rows;
  stdin_line = err no_rows;
  decrypt_key = λ ks password. none;
}

read_password-IsPasswordOf_example : IsPasswordOf host (2 ∷ []) "pwd" (b'p' ∷ b'w' ∷ [])
unfolding read_password get_address_from_keystore and_then trim_newlines
read_password-IsPasswordOf_example =
    read_password-IsPasswordOf host (2 ∷ []) "pwd" (b'p' ∷ b'w' ∷ []) refl

abbrev services : Services
services = record {
  new_db = λ driver info size. none;
  dial = λ url. none;
  addr_from_keystore = λ key. ok 11;
  new_signer = λ key. none;
  new_watch_service = λ chain. true;
  monitor = λ cfg. none;
}

abbrev flags : Flags
flags = record {
  port = 8088;
  config = "config.json";
  showver = false;
  ks = "ks.json";
  pwd_dir = "pwd";
}

abbrev monitor_of : String → MonitorConfig
monitor_of event = record { chain_id = 1; event_name = event; start_block = 100; forward_delay = 0 }

abbrev started : Started
started = record { server = booted; monitors = map monitor_of events ∷ [] }

main-with_terminal_example :
    main (with_terminal host true (ok (7 ∷ [])) (err no_rows) (λ ks p. none)) services "" flags
    ≡ main host services "" flags
main-with_terminal_example =
    main-with_terminal host true (ok (7 ∷ [])) (err no_rows) (λ ks p. none) services "" flags

own_id_of : (n id own : ℕ) → env_pinged.connect n id ≡ ok own → own ≡ id
own_id_of n id own h = ground arith

small_ids :
    (raw : List ℕ) (config : CBridgeConfig)
    → host.parse_config raw ≡ ok config
    → All (λ c. c.chain_id < 2 ^ 64) config.chain_config
small_ids raw config h =
    let same : parsed_config ≡ config = cc in
    subst (λ (c : CBridgeConfig). All (λ chain. chain.chain_id < 2 ^ 64) c.chain_config) same
      (omega arith, tt)

main-IsConsistent_example :
    (is : IsServing host services flags (with_table env_pinged []) 8088 started) × (All
        (λ c. HasChain started.server.chain_map c.chain_id)
        is.config.chain_config
      × (IsPinged started.server (with_table env_pinged []) × IsConsistent started.server))
unfolding main start_process check_flags unless_fatal init_gateway_client start_up init_with new_dal
    or_end unless_exited get_transactor_config read_password get_address_from_keystore and_then
    or_fatal trim_newlines parse_cfg_file start_monitors start_chains start_chain start_each
    start_monitor init init_chains init_chain register_tokens register_token approve_token set_in
    set_name_and_decimal set_addr set_gas_token set_chain erc20_keys or_return unless_err new_server
    insert change lookup ping_and_refresh_fee ping_signed chain_infos balances add_balance
    ping_request ping_gateway refresh set_gateway_chain_info pure ask modify ◌>>=◌
main-IsConsistent_example =
    main-IsConsistent host services "" flags (with_table env_pinged []) 8088 started own_id_of
      small_ids refl

abbrev after : ℕ → World
after n = record start { steps = n }

-- The job that sends reads the clock; the job that confirms is started, and asks whether the
-- database answers; then it is the first job's turn again.
interleaved : (pool : Pool) × Reach server start pool (after 3)
unfolding handle process_try_send_transfer_in process_try_confirm_transfer get_all_start_transfer_in
    get_all_confirmable_locked_transfer query now ask ◌>>=◌
interleaved = (
  _,
  turn (turn (arrive (turn (arrive Reach.start send_tick) here) confirm_tick) here) (there here),
)

Reach-Evolves_example : Evolves Progress start.table (after 3).table × HasKeys (after 3).table
unfolding has_tid
Reach-Evolves_example = Reach-Evolves server start (refl, tt) interleaved.1

finds_rows : FindsOnlyRows start.env
finds_rows none h = refl
finds_rows (some e) h = ground arith

-- One more tick of the job that sends, to its end.
ticked : (pool : Pool) × Reach server start pool (perform (handle server send_tick) (after 3)).1
ticked = (_, Reach-perform server start (handle server send_tick) (arrive interleaved.1 send_tick))

Reach-IsJustified_example :
    SentSince start.sent
      (IsJustified server start.env (StoodWhole ticked.1))
      (perform (handle server send_tick) (after 3)).1.sent
unfolding has_tid
Reach-IsJustified_example = Reach-IsJustified server start (refl, tt) finds_rows ticked.1
