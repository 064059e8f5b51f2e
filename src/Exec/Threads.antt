-- ===== src/Exec/Threads.antt =====
-- Goroutines: a pool of actions, of which one does its next effect at a time, in any order.
use c_bridge_node.Base.{List, ◌∷◌}
use c_bridge_node.Base.Lists.{All}
use c_bridge_node.World.{World}
use c_bridge_node.Exec.{M, act}
use c_bridge_node.Exec.Keeps.{Always}

abbrev pub Pool : Type 0
Pool = List (M (Unit {0}))

-- One goroutine of the pool does its next effect.
pub data Turn : Pool → World → Pool → World → Type 0 where
  here :
      {g : World → World} {next : World → M (Unit {0})} {others : Pool} {w : World}
      → Turn (act g next ∷ others) w (next w ∷ others) (g w)
  there :
      {m : M (Unit {0})} {pool pool' : Pool} {w w' : World}
      → Turn pool w pool' w'
      → Turn (m ∷ pool) w (m ∷ pool') w'

abbrev pub AllKeep : (World → Type 0) → Pool → Type 0
AllKeep P = All (λ m. Always P (λ u. Unit {0}) m)

-- Whichever goroutine has its turn, what all of them keep is kept.
pub Turn-keeps :
    (P : World → Type 0) {pool pool' : Pool} {w w' : World}
    → Turn pool w pool' w'
    → AllKeep P pool
    → P w
    → P w' × AllKeep P pool'
Turn-keeps P {w} here all p = ((all.0 w p).0, ((all.0 w p).1, all.1))
Turn-keeps P (there turn) all p = let (p', all') = Turn-keeps P turn all.1 p in (p', (all.0, all'))
