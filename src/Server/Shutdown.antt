-- ===== src/Server/Shutdown.antt =====
-- server/server.go: Close. What it closes is written down in order; nothing in the program calls it.
use c_bridge_node.Base.{ℕ, ◌≡◌, refl, Bool, true, false, Option, none, some, List, [], ◌∷◌, ◌++◌}
use c_bridge_node.Base.Lists.{All}

-- Whether a chain's watch and its monitor are there; Init makes the watch first.
pub data Watching : Type 0 where
  unwatched watched monitored : Watching

pub record WatchedChain : Type 0 where
  pub chain_id : ℕ
  pub watching : Watching

pub data Closing : Type 0 where
  quit_closed waited : Closing
  monitor_closed watch_closed : ℕ → Closing

-- The channel `quit`, which nothing receives from, and the chains of the chain map.
pub record Closable : Type 0 where
  pub quit_open : Bool
  pub chains : List WatchedChain

close_watching : ℕ → Watching → List Closing × Watching
close_watching id monitored = (monitor_closed id ∷ (waited ∷ (watch_closed id ∷ [])), unwatched)
close_watching id watched = ([], watched)
close_watching id unwatched = ([], unwatched)

unfoldable pub close_chain : WatchedChain → List Closing × WatchedChain
unfolding close_watching
close_chain c =
    let closed = close_watching c.chain_id c.watching in
    (closed.0, record c { watching = closed.1 })

unfoldable pub close_chains : List WatchedChain → List Closing × List WatchedChain
close_chains [] = ([], [])
close_chains (c ∷ cs) =
    let closed = close_chain c in
    let rest = close_chains cs in (closed.0 ++ rest.0, closed.1 ∷ rest.1)

-- A channel that is closed already makes `close` panic.
close_when : Bool → List Closing × List WatchedChain → Option (List Closing × Closable)
close_when false closed = none
close_when true closed =
    some (quit_closed ∷ closed.0, record { quit_open = false; chains = closed.1 })

unfoldable pub close : Closable → Option (List Closing × Closable)
unfolding close_when
close s = close_when s.quit_open (close_chains s.chains)

-- A chain with nothing more to close.
abbrev IsQuiet : WatchedChain → Type 0
IsQuiet c = close_chain c ≡ ([], c)

close_chains-IsQuiet : (cs : List WatchedChain) → All IsQuiet (close_chains cs).1
unfolding close_chains close_chain
close_chains-IsQuiet [] = tt
close_chains-IsQuiet (c ∷ cs) = (quiet c.watching, close_chains-IsQuiet cs)
  where
    quiet :
        (watching : Watching)
        → IsQuiet (record c { watching = (close_watching c.chain_id watching).1 })
    quiet monitored = refl
    quiet watched = refl
    quiet unwatched = refl

-- Close can be called once: it leaves no chain with anything to close, and a second call panics.
pub close_once :
    (s : Closable)
    → s.quit_open ≡ true
    → (trace : List Closing) × (s' : Closable) × (close s ≡ some (trace, s'))
      × (close s' ≡ none)
      × All IsQuiet s'.chains
unfolding close close_when
close_once s is_open =
    let closed = close_chains s.chains in
    (
      quit_closed ∷ closed.0,
      record { quit_open = false; chains = closed.1 },
      rw is_open refl,
      refl,
      close_chains-IsQuiet s.chains,
    )
