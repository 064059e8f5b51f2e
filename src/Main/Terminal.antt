-- ===== src/Main/Terminal.antt =====
-- The terminal of server/main/main.go: since checkFlags wants -pwddir, ReadPassword never asks it.
use c_bridge_node.Base.{
  ℕ, ◌≡◌, refl, ap, String, Bool, true, false, Option, List, arith, inl, inr, Bool-cases,
  if◌then◌else◌,
}
use c_bridge_node.Base.Maps.{string_eq}
use c_bridge_node.World.{Fault, Result, ok}
use c_bridge_node.Exec.{pure, ◌>>=◌}
use c_bridge_node.Util.KeyStore.{
  Host, returned, or_fatal, get_transactor_config, read_password, get_address_from_keystore,
  parse_cfg_file,
}
use c_bridge_node.Server.Init.{new_server}
use c_bridge_node.Server.Startup.{
  Services, new_dal, or_end, start_up, init_with, init_gateway_client,
}
use c_bridge_node.Main.{
  Flags, fatal, version_shown, serving, check_flags, unless_fatal, start, main,
}

module _ (host : Host) (terminal : Bool) (password line : Result (List ℕ))
    (decrypt : List ℕ → List ℕ → Option Fault) where
  -- The same files, with another terminal and other answers of the decryption.
  abbrev pub with_terminal : Host
  with_terminal = record host {
    is_terminal = terminal;
    terminal_password = password;
    stdin_line = line;
    decrypt_key = decrypt;
  }

  read_password_same :
      (ks_bytes : List ℕ) (pwd_dir : String)
      → string_eq.beq pwd_dir "" ≡ false
      → read_password with_terminal ks_bytes pwd_dir ≡ read_password host ks_bytes pwd_dir
  unfolding read_password get_address_from_keystore
  read_password_same ks_bytes pwd_dir given = rw given refl

  get_transactor_config_same :
      (ks pwd_dir : String)
      → string_eq.beq pwd_dir "" ≡ false
      → get_transactor_config with_terminal ks pwd_dir ≡ get_transactor_config host ks pwd_dir
  unfolding get_transactor_config
  get_transactor_config_same ks pwd_dir given i = or_fatal (host.read_file ks) λ ksjson.
      or_fatal (read_password_same ksjson pwd_dir given i)
        λ passphrase. returned (ok (record { keyjson = ksjson; passphrase = passphrase }))

  start_same :
      (svc : Services) (version : String) (f : Flags)
      → string_eq.beq f.pwd_dir "" ≡ false
      → start with_terminal svc version f ≡ start host svc version f
  unfolding start start_up parse_cfg_file
  start_same svc version f given =
      ap
        (λ loaded. unless_fatal (returned (parse_cfg_file host f.config)) λ cb_config.
          unless_fatal (init_gateway_client svc cb_config.gateway) λ u. do
            started ←
                or_end (new_dal svc cb_config.db)
                  (λ v. init_with svc cb_config (new_server version "" 0) loaded)
            unless_fatal started (λ st. pure (serving f.port st)))
        (get_transactor_config_same f.ks f.pwd_dir given)

  given_dir : (f : Flags) → check_flags f ≡ true → string_eq.beq f.pwd_dir "" ≡ false
  unfolding check_flags
  given_dir f h = ground arith

  -- Whatever the terminal and the standard input are and say, and whatever the decryption that
  -- ReadPassword tries says, the process does the same: its password is that of -pwddir.
  pub main-with_terminal :
      (svc : Services) (version : String) (f : Flags)
      → main with_terminal svc version f ≡ main host svc version f
  unfolding main
  main-with_terminal svc version f = elim (Bool-cases (check_flags f)) [
    | inl e ↦
        ap
          (λ m. if check_flags f then (if f.showver then pure version_shown else m) else pure fatal)
          (start_same svc _ f (given_dir f e))
    | inr e ↦ rw e refl
  ]
