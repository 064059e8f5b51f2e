-- ===== src/Node/Threads.antt =====
-- The node's goroutines: each tick and each log starts a handler, and the handlers' effects
-- interleave.
pub mod Quiet
pub mod Justified
use c_bridge_node.Base.{List, map, [], ◌∷◌}
use c_bridge_node.World.{World}
use c_bridge_node.Exec.Views.{On}
use c_bridge_node.Exec.{M, done, act, perform}
use c_bridge_node.Exec.Threads.{here, Pool, Turn, AllKeep, Turn-keeps}
use mathlib.Core.WellFounded.{Acc}
use c_bridge_node.Dal.Evolution.{Evolves, Evolves-refl, Progress, Progress-refl, HasKeys}
use c_bridge_node.Dal.Statements.{Progressed}
use c_bridge_node.Server.{Server}
use c_bridge_node.Node.{Event, handle}
use c_bridge_node.Node.Progress.{handle-Progressed}

-- What the node can come to from a world: its handlers that are under way, and the world.
pub data Reach (s : Server) (w₀ : World) : Pool → World → Type 0 where
  start : Reach s w₀ [] w₀
  arrive :
      {pool : Pool} {w : World} → Reach s w₀ pool w → (e : Event) → Reach s w₀ (handle s e ∷ pool) w
  turn :
      {pool pool' : Pool} {w w' : World}
      → Reach s w₀ pool w
      → Turn pool w pool' w'
      → Reach s w₀ pool' w'

-- A goroutine may have all its turns at once.
pub Reach-perform :
    (s : Server) (w₀ : World) (m : M (Unit {0})) {pool : Pool} {w : World}
    → Reach s w₀ (m ∷ pool) w
    → Reach s w₀ (done (perform m w).0 ∷ pool) (perform m w).1
Reach-perform s w₀ (done u) r = r
Reach-perform s w₀ (act g next) {w} r = Reach-perform s w₀ (next w) (turn r here)

Reach-Progressed :
    (s : Server) (w₀ : World) {pool : Pool} {w : World}
    → HasKeys w₀.table
    → Reach s w₀ pool w
    → On (Progressed w₀.table) w × AllKeep (On (Progressed w₀.table)) pool
unfolding Progressed
Reach-Progressed s w₀ keys start =
    (record { holds = (Evolves-refl Progress Progress-refl w₀.table, keys) }, tt)
Reach-Progressed s w₀ keys (arrive r e) =
    let (p, all) = Reach-Progressed s w₀ keys r in
    (p, ((handle-Progressed w₀.table s e).always, all))
Reach-Progressed s w₀ keys (turn r t) =
    let (p, all) = Reach-Progressed s w₀ keys r in Turn-keeps (On (Progressed w₀.table)) t all p

-- However the statements, questions and transactions of the jobs and the callbacks interleave: each
-- row of a table whose primary key holds is still there, at its place, for the same transfer, with
-- the same sum of amount and fee, its status has not gone back to an earlier stage, and the
-- primary key still holds.
pub Reach-Evolves :
    (s : Server) (w₀ : World) {pool : Pool} {w : World}
    → HasKeys w₀.table
    → Reach s w₀ pool w
    → Evolves Progress w₀.table w.table × HasKeys w.table
unfolding Progressed
Reach-Evolves s w₀ keys r = (Reach-Progressed s w₀ keys r).0.holds
