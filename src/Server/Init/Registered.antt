-- ===== src/Server/Init/Registered.antt =====
-- Which chains are in the server's map after Init.
use c_bridge_node.Base.{
  ℕ, ◌%◌, ◌^◌, ◌<◌, ◌≡◌, refl, sym, ◌∙◌, Bool-cases, inl, inr, some, List, [], ◌∷◌, String, ◌==◌,
  arith,
}
use mathlib.Core.Path.{subst}
use c_bridge_node.Base.Lists.{All}
use c_bridge_node.Base.Maps.{Map, lookup, insert, lookup-insert, nat_eq}
use c_bridge_node.Wire.{Addr, TokenConfig, ChainConfig}
use c_bridge_node.World.{World, Env, invalid_config, Result, ok, err}
use c_bridge_node.Exec.{perform}
use c_bridge_node.Exec.Keeps.{
  Yields, Yields-perform, Yields-bind, Yields-pure, Yields-Unit, Yields-mono,
}
use c_bridge_node.Exec.Views.{On, Yields-ask}
use c_bridge_node.Chain.{BridgeConfig}
use c_bridge_node.Server.{Server}
use c_bridge_node.Server.Init.{
  register_token, register_tokens, set_gas_token, set_chain, set_addr, set_name_and_decimal,
  init_chain, init_chains, init, new_server,
}
use c_bridge_node.Server.Init.Consistent.{InEnv, approve_token-InEnv, init-ok}
use c_bridge_node.Server.Startup.Watched.{IfOk, Yields-or_return}

-- The map has this chain.
abbrev pub HasChain : Map ℕ BridgeConfig → ℕ → Type 0
HasChain m id = (bc : BridgeConfig) × (lookup m id ≡ some bc)

insert-HasChain :
    (m : Map ℕ BridgeConfig) (id : ℕ) (bc : BridgeConfig) → HasChain (insert m id bc) id
insert-HasChain m id bc = (bc, ground (arith, lookup-insert m id id bc))

insert-HasChain_old :
    (m : Map ℕ BridgeConfig) (id j : ℕ) (bc : BridgeConfig)
    → HasChain m j
    → HasChain (insert m id bc) j
insert-HasChain_old m id j bc (old, there) = elim (Bool-cases (id == j)) [
  | inl e ↦ (bc, ground (arith, e, lookup-insert m id j bc))
  | inr e ↦ (old, ground (arith, e, there, lookup-insert m id j bc))
]

any_ok : {A : Type 0} (r : Result A) → IfOk (λ a. Unit {0}) r
any_ok (ok a) = tt
any_ok (err e) = tt

module _ (e : Env) where
  abbrev Same : Server → Server → Type 0
  Same s s' = s'.chain_map ≡ s.chain_map

  register_token-Same :
      (config : ChainConfig) (chain_id : ℕ) (token : TokenConfig) (s : Server)
      → Yields (On (InEnv e)) (register_token config chain_id token s) (IfOk (Same s))
  unfolding register_token set_addr set_name_and_decimal
  register_token-Same config chain_id token s = elim (Bool-cases (token.token_decimal == 0)) [
    | inl zero_decimal ↦ rw zero_decimal (Yields-pure (err invalid_config) (IfOk (Same s)) tt)
    | inr nonzero ↦ rw nonzero (
        Yields-bind _ _ (λ r. Unit {0}) _
          (Yields-Unit _ (approve_token-InEnv e chain_id token.token_address))
          λ approved u.
            Yields-or_return (λ v. Unit {0}) (Same s) approved _ (any_ok approved)
              λ v w. Yields-pure _ (IfOk (Same s)) refl)
  ]

  register_tokens-Same :
      (config : ChainConfig) (chain_id : ℕ) (tokens : List TokenConfig) (s : Server)
      → Yields (On (InEnv e)) (register_tokens config chain_id tokens s) (IfOk (Same s))
  unfolding register_tokens
  register_tokens-Same config chain_id [] s = Yields-pure (ok s) (IfOk (Same s)) refl
  register_tokens-Same config chain_id (token ∷ tokens) s =
      Yields-bind _ _ (IfOk (Same s)) _ (register_token-Same config chain_id token s)
        λ registered same. Yields-or_return (Same s) (Same s) registered _ same λ s' same'.
          Yields-mono _ _ _ (λ r. after r s' same') (register_tokens-Same config chain_id tokens s')
    where
      after : (r : Result Server) (s' : Server) → Same s s' → IfOk (Same s') r → IfOk (Same s) r
      after (ok t) s' same' h = h ∙ same'
      after (err x) s' same' h = tt

  -- The chain is in the map then, and what was there still is.
  abbrev Grown : ℕ → Server → Server → Type 0
  Grown id s s' =
      HasChain s'.chain_map id × ((j : ℕ) → HasChain s.chain_map j → HasChain s'.chain_map j)

  module _ (own_ids : (n id own_id : ℕ) → e.connect n id ≡ ok own_id → own_id ≡ id) where
    set_chain-Grown :
        (config : ChainConfig) (s s' : Server)
        → Same s s'
        → Grown config.chain_id s (set_chain config config.chain_id s')
    unfolding set_chain
    set_chain-Grown config s s' same = (
      insert-HasChain s'.chain_map config.chain_id _,
      λ j there.
          insert-HasChain_old s'.chain_map config.chain_id j _
            (subst (λ m. HasChain m j) (sym same) there),
    )

    -- The chain that is dialled answers with its configured id.
    answered :
        (id : ℕ) (r : Result ℕ) → (n : ℕ) × (r ≡ e.connect n id) → IfOk (λ own_id. own_id ≡ id) r
    answered id (ok own_id) (n, eq) = own_ids n id own_id (sym eq)
    answered id (err x) h = tt

    init_chain-Grown :
        (config : ChainConfig) (s : Server)
        → config.chain_id < 2 ^ 64
        → Yields (On (InEnv e)) (init_chain config s) (IfOk (Grown config.chain_id s))
    unfolding init_chain set_gas_token
    init_chain-Grown config s small =
        Yields-bind _ _ (λ r. (n : ℕ) × (r ≡ e.connect n config.chain_id)) _
          (Yields-ask e (λ env n. env.connect n config.chain_id) (λ env t sent known. known))
          λ connected answer.
            Yields-or_return (λ own_id. own_id ≡ config.chain_id) (Grown config.chain_id s)
              connected _ (answered config.chain_id connected answer)
              λ own_id own. rw (own_uint64 own_id own) (
                Yields-bind _ _ (IfOk (Same s)) _
                  (register_tokens-Same config config.chain_id config.token_config
                    (set_gas_token config s))
                  λ registered same.
                    Yields-or_return (Same s) (Grown config.chain_id s) registered _ same
                      λ s' same'.
                        Yields-pure _ (IfOk (Grown config.chain_id s))
                          (set_chain-Grown config s s' same'))
      where
        own_uint64 : (own_id : ℕ) → own_id ≡ config.chain_id → own_id % 2 ^ 64 ≡ config.chain_id
        own_uint64 own_id own = omega arith

    abbrev AllGrown : List ChainConfig → Server → Server → Type 0
    AllGrown configs s s' =
        All (λ config. HasChain s'.chain_map config.chain_id) configs
        × ((j : ℕ) → HasChain s.chain_map j → HasChain s'.chain_map j)

    init_chains-AllGrown :
        (configs : List ChainConfig) (s : Server)
        → All (λ config. config.chain_id < 2 ^ 64) configs
        → Yields (On (InEnv e)) (init_chains configs s) (IfOk (AllGrown configs s))
    unfolding init_chains
    init_chains-AllGrown [] s small =
        Yields-pure (ok s) (IfOk (AllGrown [] s)) (tt, λ j there. there)
    init_chains-AllGrown (config ∷ configs) s small =
        Yields-bind _ _ (IfOk (Grown config.chain_id s)) _ (init_chain-Grown config s small.0)
          λ done grown.
            Yields-or_return (Grown config.chain_id s) (AllGrown (config ∷ configs) s) done _ grown
              λ s' grown'.
                Yields-mono _ _ _ (λ r. then_all r s' grown')
                  (init_chains-AllGrown configs s' small.1)
      where
        then_all :
            (r : Result Server) (s' : Server)
            → Grown config.chain_id s s'
            → IfOk (AllGrown configs s') r
            → IfOk (AllGrown (config ∷ configs) s) r
        then_all (ok t) s' grown h =
            ((h.1 config.chain_id grown.0, h.0), λ j there. h.1 j (grown.1 j there))
        then_all (err x) s' grown h = tt

-- Where every chain answers with its configured id, an uint64, and Init succeeds, the server's map has
-- every configured chain.
pub init-HasChain :
    (configs : List ChainConfig) (version name : String) (account : Addr) (w : World) (s' : Server)
    → ((n id own_id : ℕ) → w.env.connect n id ≡ ok own_id → own_id ≡ id)
    → All (λ config. config.chain_id < 2 ^ 64) configs
    → (perform (init configs (new_server version name account)) w).0 ≡ ok s'
    → All (λ config. HasChain s'.chain_map config.chain_id) configs
init-HasChain configs version name account w s' own_ids small h =
    let s = new_server version name account in
    let (registered, pinged) = init-ok configs s s' w h in
    let (all, old) = subst (IfOk (AllGrown w.env own_ids configs s)) registered (
      Yields-perform (init_chains-AllGrown w.env own_ids configs s small) w
        (record { holds = refl })) in
    all
