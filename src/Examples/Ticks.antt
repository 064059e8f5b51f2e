-- ===== src/Examples/Ticks.antt =====
-- Ticks of the paying job at concrete inputs.
use c_bridge_node.Base.{◌≤◌, ◌<◌, ◌≡◌, refl, false, some, [], ◌∷◌}
use c_bridge_node.World.{World}
use c_bridge_node.Exec.{done, perform}
use c_bridge_node.Dal.{has_tid}
use c_bridge_node.Server.Send.{process_try_send_transfer_in}
use c_bridge_node.Node.{transfer_out_log, handle}
use c_bridge_node.Node.Once.{Paced, Paced-perform, Paced-payments}
use c_bridge_node.Node.Once.Phases.{payments, is_waiting}
use c_bridge_node.Examples.{server, start, chain, log_out}

-- The world after one tick, and after two.
abbrev first_tick : World
first_tick = (perform (process_try_send_transfer_in server) start).1

abbrev second_tick : World
second_tick = (perform (process_try_send_transfer_in server) first_tick).1

-- A log that arrived before the ticks is still being handled after them.
two_ticks :
    Paced server start
      (done tt)
      (handle server (transfer_out_log (chain 1) (some log_out) 4) ∷ [])
      second_tick
two_ticks = Paced-perform server start (process_try_send_transfer_in server) (
    Paced.tick (
      Paced-perform server start (process_try_send_transfer_in server)
        (Paced.tick (Paced.arrive Paced.start (transfer_out_log (chain 1) (some log_out) 4) tt))))

Paced-payments_example :
    (payments 502 second_tick.sent ≤ 1)
    × (0 < payments 502 second_tick.sent → is_waiting 502 second_tick.table ≡ false)
unfolding has_tid payments
Paced-payments_example = Paced-payments server start (refl, tt) two_ticks 502
