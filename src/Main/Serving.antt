-- ===== src/Main/Serving.antt =====
-- What holds when the process of server/main/main.go serves.
use c_bridge_node.Base.{
  ℕ, ◌^◌, ◌<◌, ◌≡◌, ◌≢◌, refl, sym, ap, ◌∙◌, String, Bool, true, false, Option, none, some, List,
  arith, if◌then◌else◌,
}
use mathlib.Core.Path.{subst}
use c_bridge_node.Base.Lists.{All}
use c_bridge_node.Base.Maps.{string_eq}
use c_bridge_node.Wire.{Addr}
use c_bridge_node.World.{World, Fault, Result, ok, err}
use c_bridge_node.Exec.{M, perform, perform->>=, pure}
use c_bridge_node.Util.KeyStore.{
  CBridgeConfig, Host, ProcessResult, returned, exited, KeyConfig, get_transactor_config,
  parse_cfg_file,
}
use c_bridge_node.Util.KeyStore.Passwords.{and_then-ok}
use c_bridge_node.Server.Init.{init, new_server}
use c_bridge_node.Server.Init.Tokens.{IsConsistent}
use c_bridge_node.Server.Init.Consistent.{init-IsConsistent}
use c_bridge_node.Server.Init.Registered.{HasChain, init-HasChain}
use c_bridge_node.Server.Init.Pinged.{IsPinged, init-IsPinged}
use c_bridge_node.Server.Startup.{
  Services, Started, new_dal, result_of, or_end, unless_exited, start_monitors, start_up, init_with,
  init_gateway_client,
}
use c_bridge_node.Server.Startup.Watched.{AreWatched, start_monitors-AreWatched}
use c_bridge_node.Main.{
  Flags, Phase, fatal, version_shown, serving, check_flags, unless_fatal, start, main,
}

-- The server of a start that succeeded: the database was opened, the key store was loaded and gave
-- the account and a signer, Init registered all chains and pinged the gateway, and every chain is
-- watched.
pub record IsStarted (host : Host) (svc : Services) (config : CBridgeConfig) (f : Flags) (w : World)
    (st : Started) : Type 0 where
  pub database : new_dal svc config.db ≡ ok tt
  pub key : KeyConfig
  pub loaded : get_transactor_config host f.ks f.pwd_dir ≡ returned (ok key)
  pub account : Addr
  pub account_of : svc.addr_from_keystore key ≡ ok account
  pub signer : svc.new_signer key ≡ none
  pub version : String
  pub inited :
      (perform (init config.chain_config (new_server version config.relay_node_name account)) w).0
      ≡ ok st.server
  pub watched : AreWatched svc st.server.chain_map st.monitors

module _ {A B : Type 0} where
  or_end-ok :
      (r : Result A) (f : A → M (ProcessResult B)) (b : B) (w : World)
      → (perform (or_end r f) w).0 ≡ returned (ok b)
      → (a : A) × (r ≡ ok a) × ((perform (f a) w).0 ≡ returned (ok b))
  unfolding or_end pure
  or_end-ok (ok a) f b w h = (a, refl, h)
  or_end-ok (err e) f b w h = absurd (ground arith)

  unless_exited-ok :
      (r : ProcessResult A) (f : A → M (ProcessResult B)) (b : B) (w : World)
      → (perform (unless_exited r f) w).0 ≡ returned (ok b)
      → (a : A) × (r ≡ returned (ok a)) × ((perform (f a) w).0 ≡ returned (ok b))
  unfolding unless_exited or_end pure
  unless_exited-ok (returned (ok a)) f b w h = (a, refl, h)
  unless_exited-ok (returned (err e)) f b w h = absurd (ground arith)
  unless_exited-ok exited f b w h = absurd (ground arith)

result_of-ok : (fault : Option Fault) (a : Unit {0}) → result_of fault tt ≡ ok a → fault ≡ none
result_of-ok none a h = refl
result_of-ok (some e) a h = absurd (ground arith)

module _ (host : Host) (svc : Services) where
  start_up-IsStarted :
      (config : CBridgeConfig) (f : Flags) (version : String) (w : World) (st : Started)
      → (perform (start_up svc host config f.ks f.pwd_dir (new_server version "" 0)) w).0
        ≡ returned (ok st)
      → IsStarted host svc config f w st
  unfolding start_up init_with new_server
  start_up-IsStarted config f version w st h =
      let (u, database, h₁) = or_end-ok (new_dal svc config.db) _ st w h in
      let (key, loaded, h₂) =
        unless_exited-ok (get_transactor_config host f.ks f.pwd_dir) _ st w h₁ in
      let (account, account_of, h₃) = or_end-ok (svc.addr_from_keystore key) _ st w h₂ in
      let (v, signed, h₄) = or_end-ok (result_of (svc.new_signer key) tt) _ st w h₃ in
      let starting = init config.chain_config (new_server version config.relay_node_name account) in
      let (s, inited, h₅) =
        or_end-ok (perform starting w).0 (start_monitors svc) st (perform starting w).1
          (rw perform->>= at h₄) in
      let (same, watched) = start_monitors-AreWatched svc s st (perform starting w).1 h₅ in
      record {
        database = database;
        key = key;
        loaded = loaded;
        account = account;
        account_of = account_of;
        signer = result_of-ok (svc.new_signer key) v signed;
        version = version;
        inited = inited ∙ ap ok (sym same);
        watched = subst (λ s'. AreWatched svc s'.chain_map st.monitors) (sym same) watched;
      }

  -- What a process that serves was given, and has set up.
  pub record IsServing (f : Flags) (w : World) (port : ℕ) (st : Started) : Type 0 where
    pub flags : (f.config ≢ "") × (f.ks ≢ "") × (f.pwd_dir ≢ "") × (f.showver ≡ false)
    pub port_of : port ≡ f.port
    pub config : CBridgeConfig
    pub parsed : parse_cfg_file host f.config ≡ ok config
    pub connected : svc.dial config.gateway ≡ none
    pub started : IsStarted host svc config f w st

  unless_fatal-serving :
      {A : Type 0} (r : ProcessResult A) (g : A → M Phase) (w : World) (port : ℕ) (st : Started)
      → (perform (unless_fatal r g) w).0 ≡ serving port st
      → (a : A) × (r ≡ returned (ok a)) × ((perform (g a) w).0 ≡ serving port st)
  unfolding unless_fatal pure
  unless_fatal-serving (returned (ok a)) g w port st h = (a, refl, h)
  unless_fatal-serving (returned (err e)) g w port st h = absurd (ground arith)
  unless_fatal-serving exited g w port st h = absurd (ground arith)

  init_gateway_client-ok :
      (url : String) (u : Unit {0})
      → init_gateway_client svc url ≡ returned (ok u)
      → svc.dial url ≡ none
  unfolding init_gateway_client
  init_gateway_client-ok url u h = ground arith

  serving-of :
      (p q : ℕ) (s t : Started) (w : World)
      → (perform (pure (serving p s)) w).0 ≡ serving q t
      → (p ≡ q) × (s ≡ t)
  unfolding pure
  serving-of p q s t w h = (cc, cc)

  check_flags-true :
      (f : Flags) → check_flags f ≡ true → (f.config ≢ "") × (f.ks ≢ "") × (f.pwd_dir ≢ "")
  unfolding check_flags
  check_flags-true f h = (
    λ empty. ground (arith, (string_eq.beq_iff f.config "").1 empty),
    λ empty. ground (arith, (string_eq.beq_iff f.ks "").1 empty),
    λ empty. ground (arith, (string_eq.beq_iff f.pwd_dir "").1 empty),
  )

  start-IsServing :
      (version : String) (f : Flags) (w : World) (port : ℕ) (st : Started)
      → (f.config ≢ "") × (f.ks ≢ "") × (f.pwd_dir ≢ "")
      → f.showver ≡ false
      → (perform (start host svc version f) w).0 ≡ serving port st
      → IsServing f w port st
  unfolding start
  start-IsServing version f w port st given not_shown h =
      let (config, parsed, h₁) =
        unless_fatal-serving (returned (parse_cfg_file host f.config)) _ w port st h in
      let (u, connected, h₂) =
        unless_fatal-serving (init_gateway_client svc config.gateway) _ w port st h₁ in
      let starting = start_up svc host config f.ks f.pwd_dir (new_server version "" 0) in
      let (st', started, h₃) =
        unless_fatal-serving (perform starting w).0 _ (perform starting w).1 port st
          (rw perform->>= at h₂) in
      let (same_port, same) = serving-of f.port port st' st (perform starting w).1 h₃ in
      record {
        flags = (given.0, given.1, given.2, not_shown);
        port_of = sym same_port;
        config = config;
        parsed = cc;
        connected = init_gateway_client-ok config.gateway u connected;
        started =
            start_up-IsStarted config f version w st (started ∙ ap (λ t. returned (ok t)) same);
      }

  past_flags :
      (checked shown : Bool) (m : M Phase) (w : World) (port : ℕ) (st : Started)
      → (perform (if checked then (if shown then pure version_shown else m) else pure fatal) w).0
        ≡ serving port st
      → (checked ≡ true) × (shown ≡ false) × ((perform m w).0 ≡ serving port st)
  unfolding pure
  past_flags true false m w port st h = (refl, refl, h)
  past_flags true true m w port st h = absurd (ground arith)
  past_flags false shown m w port st h = absurd (ground arith)

  main-IsServing :
      (version : String) (f : Flags) (w : World) (port : ℕ) (st : Started)
      → (perform (main host svc version f) w).0 ≡ serving port st
      → IsServing f w port st
  unfolding main
  main-IsServing version f w port st h =
      let (checked, not_shown, h₁) = past_flags (check_flags f) f.showver _ w port st h in
      start-IsServing _ f w port st (check_flags-true f checked) not_shown h₁

-- A process that serves was given the flags -c, -ks and -pwddir, and not -v. It has read its
-- configuration, connected to the gateway, opened its database, and loaded the key store with its
-- password for an account and a signer, and its Init has succeeded; every registered chain has a watch
-- service and accepted monitors of the four events in their order. Where chains answer with their
-- configured ids, uint64s, every configured chain is registered, the gateway has accepted a signed ping
-- that lists every registered chain, and the token maps are consistent.
pub main-IsConsistent :
    (host : Host) (svc : Services) (version : String) (f : Flags) (w : World) (port : ℕ)
    (st : Started)
    → ((n id own_id : ℕ) → w.env.connect n id ≡ ok own_id → own_id ≡ id)
    → ((raw : List ℕ) (config : CBridgeConfig)
        → host.parse_config raw ≡ ok config
        → All (λ c. c.chain_id < 2 ^ 64) config.chain_config)
    → (perform (main host svc version f) w).0 ≡ serving port st
    → (is : IsServing host svc f w port st) × (All
          (λ c. HasChain st.server.chain_map c.chain_id)
          is.config.chain_config
        × (IsPinged st.server w × IsConsistent st.server))
unfolding parse_cfg_file
main-IsConsistent host svc version f w port st own_ids small h =
    let is = main-IsServing host svc version f w port st h in
    (
      is,
      (
        init-HasChain is.config.chain_config is.started.version is.config.relay_node_name
            is.started.account w st.server own_ids (parsed_small is.config is.parsed)
            is.started.inited,
        (
          init-IsPinged is.config.chain_config is.started.version is.config.relay_node_name
              is.started.account w st.server own_ids (parsed_small is.config is.parsed)
              is.started.inited,
          init-IsConsistent is.config.chain_config is.started.version is.config.relay_node_name
              is.started.account w st.server own_ids (parsed_small is.config is.parsed)
              is.started.inited,
        ),
      ),
    )
  where
    parsed_small :
        (config : CBridgeConfig)
        → parse_cfg_file host f.config ≡ ok config
        → All (λ c. c.chain_id < 2 ^ 64) config.chain_config
    parsed_small config parsed =
        let (raw, found, ok_config) =
          and_then-ok (host.read_file f.config) host.parse_config config parsed in
        small raw config ok_config
