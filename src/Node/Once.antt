-- ===== src/Node/Once.antt =====
-- The node with the pace of server/server.go: each ticker has one goroutine, so a tick of the paying
-- job begins after the last one has ended, while everything else interleaves with it.
pub mod Phases
mod Quiet
mod Calm
mod Others
mod Paying
mod Ticks
use c_bridge_node.Base.{◌+◌, ◌≤◌, ◌<◌, ◌≡◌, refl, false, inl, inr, List, [], ◌∷◌, arith}
use c_bridge_node.Wire.{Hash}
use c_bridge_node.World.{World}
use c_bridge_node.Exec.{M, done, act, perform}
use c_bridge_node.Exec.Outlines.{Outline, Anywhere}
use c_bridge_node.Exec.Steps.{AllStep, Turn-steps}
use c_bridge_node.Exec.Threads.{Pool, Turn}
use c_bridge_node.Dal.Evolution.{HasKeys}
use c_bridge_node.Server.{Server}
use c_bridge_node.Server.Send.{process_try_send_transfer_in}
use c_bridge_node.Node.{Event, handle}
use c_bridge_node.Node.Once.Phases.{payments, is_waiting, Phase, over, InPhase, InPhase-over}
use c_bridge_node.Node.Once.Calm.{Steady}
use c_bridge_node.Node.Once.Others.{IsOther, other-Steps}
use c_bridge_node.Node.Once.Paying.{In}
use c_bridge_node.Node.Once.Ticks.{tick-Anywhere}

-- What the node can come to from a world without the recovering job: what is left of the paying
-- job's tick, the other handlers that are under way, and the world.
pub data Paced (s : Server) (w₀ : World) : M (Unit {0}) → Pool → World → Type 0 where
  start : Paced s w₀ (done tt) [] w₀
  tick :
      {u : Unit {0}} {pool : Pool} {w : World}
      → Paced s w₀ (done u) pool w
      → Paced s w₀ (process_try_send_transfer_in s) pool w
  tick_turn :
      {g : World → World} {next : World → M (Unit {0})} {pool : Pool} {w : World}
      → Paced s w₀ (act g next) pool w
      → Paced s w₀ (next w) pool (g w)
  arrive :
      {m : M (Unit {0})} {pool : Pool} {w : World}
      → Paced s w₀ m pool w
      → (e : Event) → IsOther e
      → Paced s w₀ m (handle s e ∷ pool) w
  turn :
      {m : M (Unit {0})} {pool pool' : Pool} {w w' : World}
      → Paced s w₀ m pool w
      → Turn pool w pool' w'
      → Paced s w₀ m pool' w'

-- The tick may have all its turns at once.
pub Paced-perform :
    (s : Server) (w₀ : World) (m : M (Unit {0})) {pool : Pool} {w : World}
    → Paced s w₀ m pool w
    → Paced s w₀ (done (perform m w).0) pool (perform m w).1
Paced-perform s w₀ (done u) r = r
Paced-perform s w₀ (act g next) {w} r = Paced-perform s w₀ (next w) (tick_turn r)

-- The tick is in a phase of the paying of the transfer, and the others keep every phase.
record IsPaced (tid : Hash) (w₀ : World) (m : M (Unit {0})) (pool : Pool) (w : World) : Type 0 where
  phase : Phase
  seen : InPhase tid (payments tid w₀.sent) phase w.table w.sent
  outline : Outline (In tid (payments tid w₀.sent)) phase Anywhere m
  others : AllStep (Steady tid (payments tid w₀.sent)) pool

Paced-IsPaced :
    (s : Server) (w₀ : World) (tid : Hash) {m : M (Unit {0})} {pool : Pool} {w : World}
    → HasKeys w₀.table
    → Paced s w₀ m pool w
    → IsPaced tid w₀ m pool w
unfolding Steady
Paced-IsPaced s w₀ tid keys start = record {
  phase = over;
  seen = (keys, inl refl);
  outline = tt;
  others = tt;
}
Paced-IsPaced s w₀ tid keys (tick {w} r) =
    let h = Paced-IsPaced s w₀ tid keys r in
    record {
      phase = over;
      seen = InPhase-over tid (payments tid w₀.sent) h.phase w.table w.sent h.seen;
      outline = tick-Anywhere tid (payments tid w₀.sent) s;
      others = h.others;
    }
Paced-IsPaced s w₀ tid keys (tick_turn {w} r) =
    let h = Paced-IsPaced s w₀ tid keys r in
    let (phase, seen, rest) = h.outline w (record { holds = h.seen }) in
    record { phase = phase; seen = seen.holds; outline = rest; others = h.others }
Paced-IsPaced s w₀ tid keys (arrive r e other) =
    let h = Paced-IsPaced s w₀ tid keys r in
    record {
      phase = h.phase;
      seen = h.seen;
      outline = h.outline;
      others = ((other-Steps tid (payments tid w₀.sent) s e other).each, h.others);
    }
Paced-IsPaced s w₀ tid keys (turn r t) =
    let h = Paced-IsPaced s w₀ tid keys r in
    let (step, others) = Turn-steps (Steady tid (payments tid w₀.sent)) t h.others in
    record { phase = h.phase; seen = step h.phase h.seen; outline = h.outline; others = others }

-- However the effects of ticks, callbacks and pages interleave from a table whose primary key holds,
-- if ticks of the paying job do not overlap and the recovering job does not run: of each transfer at
-- most one payment more is accepted by the transactors, and after it no row of the transfer waits
-- for its payment.
pub Paced-payments :
    (s : Server) (w₀ : World) {m : M (Unit {0})} {pool : Pool} {w : World}
    → HasKeys w₀.table
    → Paced s w₀ m pool w
    → (tid : Hash)
    → (payments tid w.sent ≤ payments tid w₀.sent + 1)
      × (payments tid w₀.sent < payments tid w.sent → is_waiting tid w.table ≡ false)
Paced-payments s w₀ {w} keys r tid =
    let h = Paced-IsPaced s w₀ tid keys r in
    conclude (InPhase-over tid (payments tid w₀.sent) h.phase w.table w.sent h.seen)
  where
    conclude :
        InPhase tid (payments tid w₀.sent) over w.table w.sent
        → (payments tid w.sent ≤ payments tid w₀.sent + 1)
          × (payments tid w₀.sent < payments tid w.sent → is_waiting tid w.table ≡ false)
    conclude (keys', inl same) = (omega arith, λ more. absurd (omega arith))
    conclude (keys', inr (more, closed)) = (omega arith, λ _. closed.not_waiting)
