-- ===== src/Server/Init/Consistent.antt =====
-- Init keeps its token maps consistent.
use c_bridge_node.Base.{
  ℕ, ◌%◌, ◌^◌, ◌/◌, ◌<◌, ◌≡◌, refl, sym, ◌∙◌, Option, none, some, List, [], ◌∷◌, arith, ◌==◌, ltb,
  String, Bool-cases, inl, inr,
}
use mathlib.Core.Path.{subst}
use c_bridge_node.Base.Lists.{All}
use c_bridge_node.Base.Maps.{lookup}
use c_bridge_node.Wire.{Addr, TokenConfig, ChainConfig}
use c_bridge_node.World.{World, Env, Fault, invalid_config, Result, ok, err}
use c_bridge_node.Exec.{perform, perform->>=, M, pure, ◌>>=◌}
use c_bridge_node.Exec.Keeps.{
  Keeps, Yields, Yields-perform, Keeps-pure, Keeps-bind, Keeps-if, Yields-bind, Yields-pure,
  Yields-Unit,
}
use c_bridge_node.Exec.Views.{View, On, Keeps-ask, Yields-ask}
use c_bridge_node.Server.{Server}
use c_bridge_node.Server.TransferOut.{lookup_in}
use c_bridge_node.Server.Init.{
  max_uint256, register_token, register_tokens, set_gas_token, set_chain, init_chain, init_chains,
  init, or_return, unless_err, approve_token, new_server,
}
use c_bridge_node.Server.Ping.{ping_and_refresh_fee}
use c_bridge_node.Server.Init.Tokens.{IsConsistent, set-IsConsistent}

-- A server that is returned is consistent.
abbrev pub Good : Result Server → Type 0
Good (ok s) = IsConsistent s
Good (err e) = Unit

module _ {P : World → Type 0} {A B : Type 0} where
  Keeps-or_return :
      (r : Result A) (f : A → M (Result B)) → ((a : A) → Keeps P (f a)) → Keeps P (or_return r f)
  unfolding or_return
  Keeps-or_return (ok a) f k = k a
  Keeps-or_return (err e) f k = Keeps-pure (err e)

module _ {P : World → Type 0} {B : Type 0} where
  Keeps-unless_err : (e : Option Fault) (m : M (Result B)) → Keeps P m → Keeps P (unless_err e m)
  unfolding unless_err
  Keeps-unless_err none m k = k
  Keeps-unless_err (some e) m k = Keeps-pure (err e)

module _ {P : World → Type 0} where
  Good-or_return :
      {A : Type 0} (r : Result A) (f : A → M (Result Server))
      → ((a : A) → r ≡ ok a → Yields P (f a) Good)
      → Yields P (or_return r f) Good
  unfolding or_return
  Good-or_return (ok a) f y = y a refl
  Good-or_return (err e) f y = Yields-pure (err e) Good tt

module _ (e : Env) where
  abbrev pub InEnv : View
  InEnv env t s = env ≡ e

  pub approve_token-InEnv :
      (chain_id : ℕ) (token : Addr) → Keeps (On InEnv) (approve_token chain_id token)
  unfolding approve_token
  approve_token-InEnv chain_id token = Keeps-bind _ _ (Keeps-ask _) λ bound.
      Keeps-unless_err bound _ (
        Keeps-bind _ _ (Keeps-ask _) λ allowance. Keeps-or_return allowance _ λ cur_allowance.
          Keeps-if (ltb cur_allowance (max_uint256 / 2)) _ _
            (λ small. Keeps-bind _ _ (Keeps-ask _) λ approved.
              Keeps-unless_err approved _ (
                Keeps-bind _ _ (Keeps-ask _)
                  λ mined. Keeps-unless_err mined _ (Keeps-pure (ok tt))))
            (λ enough. Keeps-pure (ok tt)))

  register_token-Good :
      (config : ChainConfig) (token : TokenConfig) (s : Server)
      → IsConsistent s
      → Yields (On InEnv) (register_token config config.chain_id token s) Good
  unfolding register_token
  register_token-Good config token s h = elim (Bool-cases (token.token_decimal == 0)) [
    | inl zero_decimal ↦ rw zero_decimal (Yields-pure (err invalid_config) Good tt)
    | inr nonzero ↦ rw nonzero (
        Yields-bind _ _ (λ r. Unit {0}) Good
          (Yields-Unit _ (approve_token-InEnv config.chain_id token.token_address))
          λ approved u.
            Good-or_return approved _
              λ v ok_v. Yields-pure _ Good (set-IsConsistent config token s (ground arith) h))
  ]

  register_tokens-Good :
      (config : ChainConfig) (tokens : List TokenConfig) (s : Server)
      → IsConsistent s
      → Yields (On InEnv) (register_tokens config config.chain_id tokens s) Good
  unfolding register_tokens
  register_tokens-Good config [] s h = Yields-pure (ok s) Good h
  register_tokens-Good config (token ∷ tokens) s h =
      Yields-bind _ _ Good Good (register_token-Good config token s h) λ registered good.
        Good-or_return registered _
          λ s' ok_s. register_tokens-Good config tokens s' (subst Good ok_s good)

  module _ (own_ids : (n id own_id : ℕ) → e.connect n id ≡ ok own_id → own_id ≡ id) where
    -- Neither the gas tokens nor the chains are part of what is consistent.
    set_gas-IsConsistent :
        (config : ChainConfig) (s : Server) → IsConsistent s → IsConsistent (set_gas_token config s)
    unfolding set_gas_token
    set_gas-IsConsistent config s h = record {
      decimal_of_name = h.decimal_of_name;
      positive = h.positive;
      decimal_of_addr = h.decimal_of_addr;
    }

    set_chain-IsConsistent :
        (config : ChainConfig) (chain_id : ℕ) (s : Server)
        → IsConsistent s
        → IsConsistent (set_chain config chain_id s)
    unfolding set_chain
    set_chain-IsConsistent config chain_id s h = record {
      decimal_of_name = h.decimal_of_name;
      positive = h.positive;
      decimal_of_addr = h.decimal_of_addr;
    }

    init_chain-Good :
        (config : ChainConfig) (s : Server)
        → config.chain_id < 2 ^ 64
        → IsConsistent s
        → Yields (On InEnv) (init_chain config s) Good
    unfolding init_chain
    init_chain-Good config s small h =
        Yields-bind _ _ (λ r. (n : ℕ) × (r ≡ e.connect n config.chain_id)) Good
          (Yields-ask e (λ env n. env.connect n config.chain_id) (λ env t sent known. known))
          λ connected answer. Good-or_return connected _ λ own_id ok_id.
            let same : own_id % 2 ^ 64 ≡ config.chain_id =
              omega (arith, own_ids answer.0 config.chain_id own_id (sym answer.1 ∙ ok_id)) in
            rw same (
              Yields-bind _ _ Good Good
                (register_tokens-Good config config.token_config (set_gas_token config s)
                  (set_gas-IsConsistent config s h))
                λ registered good. Good-or_return registered _ λ s' ok_s.
                  Yields-pure _ Good
                    (set_chain-IsConsistent config config.chain_id s' (subst Good ok_s good)))

    pub init_chains-Good :
        (configs : List ChainConfig) (s : Server)
        → All (λ config. config.chain_id < 2 ^ 64) configs
        → IsConsistent s
        → Yields (On InEnv) (init_chains configs s) Good
    unfolding init_chains
    init_chains-Good [] s small h = Yields-pure (ok s) Good h
    init_chains-Good (config ∷ configs) s small h =
        Yields-bind _ _ Good Good (init_chain-Good config s small.0 h) λ done good.
          Good-or_return done _
            λ s' ok_s. init_chains-Good configs s' small.1 (subst Good ok_s good)

pub new_server-IsConsistent :
    (version name : String) (account : Addr) → IsConsistent (new_server version name account)
unfolding new_server lookup_in lookup
new_server-IsConsistent version name account = record {
  decimal_of_name = λ chain token name found. absurd (ground arith);
  positive = λ chain token zero. absurd (ground arith);
  decimal_of_addr = λ chain token name found. absurd (ground arith);
}

ok_server : (s s' : Server) → ◌≡◌ {A = Result Server} (ok s) (ok s') → s ≡ s'
ok_server s s' same = cc

pinged-ok :
    (pinged : Option Fault) (s s' : Server) (w : World)
    → (perform (unless_err pinged (pure (ok s))) w).0 ≡ ok s'
    → (pinged ≡ none) × (◌≡◌ {A = Result Server} (ok s) (ok s'))
unfolding unless_err pure
pinged-ok none s s' w h = (refl, h)
pinged-ok (some e) s s' w h = absurd (ground arith)

-- The ping of this server in this world returned no error.
abbrev pub Pinged : Server → World → Type 0
Pinged s w = (perform (ping_and_refresh_fee s) w).0 ≡ none

finish-ok :
    (r : Result Server) (s' : Server) (w : World)
    → (perform
        (or_return r (λ s. ping_and_refresh_fee s >>= λ pinged. unless_err pinged (pure (ok s))))
        w).0
      ≡ ok s'
    → (r ≡ ok s') × Pinged s' w
unfolding or_return pure
finish-ok (ok s) s' w h =
    let (no_err, same) =
      pinged-ok (perform (ping_and_refresh_fee s) w).0 s s' (perform (ping_and_refresh_fee s) w).1
        (rw perform->>= at h) in
    (same, subst (λ t. Pinged t w) (ok_server s s' same) no_err)
finish-ok (err e) s' w h = absurd (ground arith)

-- A successful Init has registered the chains, and then its ping has succeeded.
pub init-ok :
    (configs : List ChainConfig) (s s' : Server) (w : World)
    → (perform (init configs s) w).0 ≡ ok s'
    → ((perform (init_chains configs s) w).0 ≡ ok s')
      × Pinged s' (perform (init_chains configs s) w).1
unfolding init
init-ok configs s s' w h =
    finish-ok (perform (init_chains configs s) w).0 s' (perform (init_chains configs s) w).1
      (rw perform->>= at h)

-- Where every chain answers with its configured id, an uint64, and Init succeeds on the empty maps
-- of NewServer: on every chain a token with a name, and a token that a name leads to, has a
-- decimal, and no decimal is zero. So the callback of a transfer out never gives up for a decimal.
pub init-IsConsistent :
    (configs : List ChainConfig) (version name : String) (account : Addr) (w : World) (s' : Server)
    → ((n id own_id : ℕ) → w.env.connect n id ≡ ok own_id → own_id ≡ id)
    → All (λ config. config.chain_id < 2 ^ 64) configs
    → (perform (init configs (new_server version name account)) w).0 ≡ ok s'
    → IsConsistent s'
init-IsConsistent configs version name account w s' own_ids small h =
    let (registered, pinged) = init-ok configs (new_server version name account) s' w h in
    subst Good registered (
      Yields-perform
        (init_chains-Good w.env own_ids configs (new_server version name account) small
          (new_server-IsConsistent version name account))
        w (record { holds = refl }))
