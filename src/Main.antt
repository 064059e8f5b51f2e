-- ===== src/Main.antt =====
-- server/main/main.go: the flags, and the start of the process. What it starts then are the
-- goroutines of Node/Threads and the web server with the pages of Server/Summary and Server/Listing.
pub mod Serving
pub mod Terminal
use c_bridge_node.Base.{ℕ, String, Bool, true, false, not, ◌&&◌, if◌then◌else◌}
use c_bridge_node.Base.Maps.{string_eq}
use c_bridge_node.World.{Result, ok, err}
use c_bridge_node.Exec.{M, pure, ◌>>=◌}
use c_bridge_node.Util.KeyStore.{
  CBridgeConfig, Host, ProcessResult, returned, exited, parse_cfg_file,
}
use c_bridge_node.Server.Init.{new_server}
use c_bridge_node.Server.Startup.{Services, Started, init_gateway_client, start_up}

-- The values of the flags -p, -c, -v, -ks and -pwddir
pub record Flags : Type 0 where
  pub port : ℕ
  pub config : String
  pub showver : Bool
  pub ks : String
  pub pwd_dir : String

-- What the process comes to: log.Fatal, os.Exit(0), or the goroutines and the web server.
pub data Phase : Type 0 where
  fatal : Phase
  version_shown : Phase
  serving : ℕ → Started → Phase

-- checkFlags returns.
unfoldable pub check_flags : Flags → Bool
check_flags f =
    not (string_eq.beq f.config "")
    && not (string_eq.beq f.ks "")
    && not (string_eq.beq f.pwd_dir "")

module _ {A : Type 0} where
  -- `if err != nil { log.Fatal(err) }`
  unfoldable pub unless_fatal : ProcessResult A → (A → M Phase) → M Phase
  unless_fatal (returned (ok a)) f = f a
  unless_fatal (returned (err e)) f = pure fatal
  unless_fatal exited f = pure fatal

module _ (host : Host) (svc : Services) where
  -- From the configuration file on, with the version of the build.
  unfoldable pub start : String → Flags → M Phase
  start version f = unless_fatal (returned (parse_cfg_file host f.config)) λ cb_config.
      unless_fatal (init_gateway_client svc cb_config.gateway) λ u. do
        started ← start_up svc host cb_config f.ks f.pwd_dir (new_server version "" 0)
        unless_fatal started λ st. pure (serving f.port st)

  unfoldable pub main : String → Flags → M Phase
  main version f =
      if check_flags f
      then (if f.showver then pure version_shown else start (version_or_default version) f)
      else pure fatal
    where
      version_or_default : String → String
      version_or_default v = if string_eq.beq v "" then "v1.0.2" else v
