-- ===== src/Util/KeyStore.antt =====
-- server/util.go: GetTransactorConfig, ReadPassword, GetAddressFromKeystore and ParseCfgFile. The file
-- system, the terminal, the JSON parsers and the key store's decryption are parameters.
pub mod Passwords
use c_bridge_node.Base.{
  ℕ, String, Bool, true, false, ◌&&◌, Option, none, some, List, [], ◌∷◌, ◌==◌, if◌then◌else◌,
}
use c_bridge_node.Base.Maps.{string_eq}
use c_bridge_node.Wire.{ChainConfig}
use c_bridge_node.World.{Fault, Result, ok, err}

-- `CBridgeConfig` of cbridgenode/cbridge_node.pb.go
pub record CBridgeConfig : Type 0 where
  pub relay_node_name : String
  pub chain_config : List ChainConfig
  pub db : String
  pub gateway : String

-- What the process asks of its host while it starts, each at most once for given arguments.
pub record Host : Type 0 where
  -- ioutil.ReadFile
  pub read_file : String → Result (List ℕ)
  -- protojson's Unmarshal into a CBridgeConfig
  pub parse_config : List ℕ → Result CBridgeConfig
  -- json.Unmarshal: the field Address
  pub address_in_json : List ℕ → Result (List ℕ)
  -- terminal.IsTerminal and terminal.ReadPassword of the standard input
  pub is_terminal : Bool
  pub terminal_password : Result (List ℕ)
  -- ReadString('\n') of the standard input
  pub stdin_line : Result (List ℕ)
  -- keystore.DecryptKey of a key store with a password
  pub decrypt_key : List ℕ → List ℕ → Option Fault

-- A Go function that calls log.Fatal may end the process instead of returning.
pub data ProcessResult (A : Type 0) : Type 0 where
  returned : Result A → ProcessResult A
  exited : ProcessResult A

-- `eth.TransactorConfig` as eth.NewTransactorConfig makes it
pub record KeyConfig : Type 0 where
  pub keyjson : List ℕ
  pub passphrase : List ℕ

abbrev pub newline : ℕ
newline = b'\n'

abbrev pub drop_newlines : List ℕ → List ℕ
drop_newlines [] = []
drop_newlines (c ∷ s) = if c == newline then drop_newlines s else c ∷ s

-- The newline c goes if nothing stays after it.
abbrev pub keep_unless_last : ℕ → List ℕ → List ℕ
keep_unless_last c [] = if c == newline then [] else c ∷ []
keep_unless_last c (d ∷ s) = c ∷ d ∷ s

abbrev pub drop_last_newlines : List ℕ → List ℕ
drop_last_newlines [] = []
drop_last_newlines (c ∷ s) = keep_unless_last c (drop_last_newlines s)

-- strings.Trim(s, "\n")
unfoldable pub trim_newlines : List ℕ → List ℕ
trim_newlines s = drop_last_newlines (drop_newlines s)

-- strings.TrimSuffix(s, "\n")
unfoldable pub trim_suffix : List ℕ → List ℕ
trim_suffix [] = []
trim_suffix (c ∷ []) = if c == newline then [] else c ∷ []
trim_suffix (c ∷ d ∷ s) = c ∷ trim_suffix (d ∷ s)

module _ {A B : Type 0} where
  -- `if err != nil { return err }`
  unfoldable pub and_then : Result A → (A → Result B) → Result B
  and_then (ok a) f = f a
  and_then (err e) f = err e

  -- `if err != nil { log.Fatal(err) }`
  unfoldable pub or_fatal : Result A → (A → ProcessResult B) → ProcessResult B
  or_fatal (ok a) f = f a
  or_fatal (err e) f = exited

module _ (host : Host) where
  unfoldable pub parse_cfg_file : String → Result CBridgeConfig
  parse_cfg_file f = and_then (host.read_file f) host.parse_config

  unfoldable pub get_address_from_keystore : List ℕ → Result (List ℕ)
  get_address_from_keystore ks_bytes = host.address_in_json ks_bytes

  unfoldable pub password_from_stdin : Result (List ℕ)
  password_from_stdin =
      if host.is_terminal
      then host.terminal_password
      else and_then host.stdin_line (λ line. ok (trim_suffix line))

  unfoldable pub unless_refused : Option Fault → List ℕ → Result (List ℕ)
  unless_refused (some e) password = err e
  unless_refused none password = ok password

  unfoldable pub read_password : List ℕ → String → Result (List ℕ)
  unfolding get_address_from_keystore password_from_stdin unless_refused
  read_password ks_bytes pwd_dir = and_then (get_address_from_keystore ks_bytes) λ ks_address.
      if string_eq.beq pwd_dir ""
      then and_then password_from_stdin
          (λ password. unless_refused (host.decrypt_key ks_bytes password) password)
      else and_then (host.read_file pwd_dir) (λ pwd_bytes. ok (trim_newlines pwd_bytes))

  unfoldable pub get_transactor_config : String → String → ProcessResult KeyConfig
  unfolding read_password or_fatal
  get_transactor_config ks pwd_dir = or_fatal (host.read_file ks) λ ksjson.
      or_fatal (read_password ksjson pwd_dir)
        λ password. returned (ok (record { keyjson = ksjson; passphrase = password }))
