-- ===== src/Node/Resumed.antt =====
-- A payment that was not seen for too long is tried again: a tick of ProcessRecoverTimeoutPendingTransfer,
-- and the next tick of processTrySendTransferIn (server/server.go).
use c_bridge_node.Base.{ℕ, ◌≡◌, true, none, arith}
use c_bridge_node.Base.Int.{pos, ◌+ℤ◌, ltb_ℤ}
use c_bridge_node.Base.Lists.{All, Among}
use c_bridge_node.Transfer.{Row, Time, scan_transfer, hour}
use c_bridge_node.World.{World}
use c_bridge_node.Exec.{perform}
use c_bridge_node.Dal.Queries.{startable, timeout_pending_transfer_in}
use c_bridge_node.Server.{Server}
use c_bridge_node.Server.Recover.{process_recover}
use c_bridge_node.Server.Recover.Resumes.{Resumed, resumed, process_recover-Resumed}
use c_bridge_node.Server.Send.{process_try_send_transfer_in}
use c_bridge_node.Server.Send.Pays.{CanPay, planned_in}
use c_bridge_node.Server.Send.Paid.{IsPaid, tick-IsPaid}

-- The world after a tick of the recovering job.
abbrev pub recovered : World → World
recovered w = (perform process_recover w).1

resumed-startable :
    (w : World) (row : Row) (stamp now : Time)
    → timeout_pending_transfer_in (w.env.clock w.steps) row ≡ true
    → ltb_ℤ (now +ℤ pos hour) row.time_lock ≡ true
    → startable now (resumed w.env row stamp) ≡ true
unfolding timeout_pending_transfer_in startable
resumed-startable w row stamp now due early = ground arith

-- Where the database answers: a row whose payment has been pending for too long when the recovering job
-- ticks is paid by the next tick of the paying job, for the same transfer, amount and fee together, if
-- that tick begins more than an hour before the row's time lock, and nothing stands in the way of
-- the payments of the rows that it reads.
pub recovered-IsPaid :
    (s : Server) (w : World) (row : Row)
    → ((n : ℕ) → w.env.db_fault n ≡ none)
    → Among row w.table
    → timeout_pending_transfer_in (w.env.clock w.steps) row ≡ true
    → ltb_ℤ (w.env.clock (recovered w).steps +ℤ pos hour) row.time_lock ≡ true
    → All (CanPay s w.env) (planned_in (recovered w))
    → (stamp : Time) × IsPaid s w.env
        (scan_transfer (resumed w.env row stamp))
        (perform (process_try_send_transfer_in s) (recovered w)).1.sent
unfolding Resumed
recovered-IsPaid s w row answers there due early can_pay =
    let back = (process_recover-Resumed w row answers there due).holds in
    (
      back.1.0,
      tick-IsPaid s w.env (recovered w) (resumed w.env row back.1.0) back.0 answers back.1.1
          (resumed-startable w row back.1.0 (w.env.clock (recovered w).steps) due early) can_pay,
    )
