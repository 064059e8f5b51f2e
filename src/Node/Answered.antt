-- ===== src/Node/Answered.antt =====
-- From a user's transfer out to its payment: the callback of a new transfer out (monitorLogTransferOut)
-- and the next tick of processTrySendTransferIn (server/server.go).
use c_bridge_node.Base.{ℕ, ◌≡◌, ◌≢◌, ap, ap₂, false, true, Option, none, some, List, arith, ◌&&◌}
use mathlib.Core.Path.{subst}
use c_bridge_node.Base.Int.{ℤ, pos, ◌+ℤ◌, ◌-ℤ◌, ltb_ℤ, to_uint64}
use c_bridge_node.Base.Lists.{All, Among}
use c_bridge_node.Base.Maps.{lookup, nat_eq}
use c_bridge_node.Wire.{Hash}
use c_bridge_node.Transfer.{Time, scan_transfer, unix, hour}
use c_bridge_node.World.{World, Env, Sent, Call, ok}
use c_bridge_node.Exec.{perform}
use c_bridge_node.Dal.{has_tid, row_of}
use c_bridge_node.Dal.Queries.{startable}
use c_bridge_node.Gateway.{fee_of_response}
use c_bridge_node.Chain.{BridgeConfig}
use c_bridge_node.Server.{Server}
use c_bridge_node.Server.TransferOut.{
  LogNewTransferOut, monitor_log_transfer_out, transfer_in_of, timeout_of, chain2_time_lock,
}
use c_bridge_node.Server.TransferOut.Plans.{
  CanAnswer, answer_id, answer_of, monitor_log_transfer_out-Planned,
}
use c_bridge_node.Server.Send.{process_try_send_transfer_in}
use c_bridge_node.Server.Send.Paid.{IsPaid, tick-IsPaid}
use c_bridge_node.Server.Send.Pays.{CanPay, planned_in}

-- The world after the callback.
abbrev pub noticed : Server → BridgeConfig → LogNewTransferOut → Hash → World → World
noticed s bc ev tx_hash w = (perform (monitor_log_transfer_out s bc (some ev) tx_hash) w).1

-- The answer's time lock, for a callback that reads this time.
abbrev pub answer_time_lock : LogNewTransferOut → Time → Time
answer_time_lock ev ts = chain2_time_lock ts (timeout_of ev.timelock ts)

-- An accepted transaction on the destination's chain pays the answer of the log to the address that
-- the user named: the converted amount less the fee that the gateway has for the transfer out, under
-- the user's hash lock.
abbrev pub Answered :
    (s : Server) (bc : BridgeConfig) (e : Env) (ev : LogNewTransferOut) (ts : Time)
    → CanAnswer s bc ev ts
    → List Sent
    → Type 0
Answered s bc e ev ts can sent =
    (fee : ℤ) × (((n : ℕ) → fee_of_response (e.rpc_get_fee n ev.transfer_id) ≡ ok fee)
      × (ltb_ℤ (pos can.amount) fee ≡ false)
      × Among
          (record {
            chain = can.dst.chain_id;
            transfer_id = answer_id e ev;
            call =
                Call.transfer_in ev.dst_address can.token (pos can.amount -ℤ fee) ev.hashlock
                  (to_uint64 (unix (answer_time_lock ev ts))) bc.chain_id ev.transfer_id;
            outcome = none;
          })
          sent)

plus_zero : (a : ℕ) → pos a +ℤ pos 0 ≡ pos a
unfolding ◌+ℤ◌
plus_zero a = ground arith

same_dst : (a b : BridgeConfig) (o : Option BridgeConfig) → o ≡ some a → o ≡ some b → a ≡ b
same_dst a b o h h' = cc

IsPaid-Answered :
    (s : Server) (bc : BridgeConfig) (e : Env) (ev : LogNewTransferOut) (ts t : Time)
    (can : CanAnswer s bc ev ts) (sent : List Sent)
    → IsPaid s e (scan_transfer (row_of t (answer_of s bc e ev ts can))) sent
    → Answered s bc e ev ts can sent
unfolding scan_transfer row_of transfer_in_of
IsPaid-Answered s bc e ev ts t can sent paid =
    let p = paid.0 in
    (
      p.fee,
      (
        p.charged,
        subst (λ a. ltb_ℤ a p.fee ≡ false) (plus_zero can.amount) p.covered,
        subst
            (λ (x : BridgeConfig × ℤ).
              Among
                (record {
                  chain = x.0.chain_id;
                  transfer_id = answer_id e ev;
                  call =
                      Call.transfer_in ev.dst_address can.token (x.1 -ℤ p.fee) ev.hashlock
                        (to_uint64 (unix (answer_time_lock ev ts))) bc.chain_id ev.transfer_id;
                  outcome = none;
                })
                sent)
            (ap₂ (λ (x : BridgeConfig) (y : ℤ). (x, y))
              (same_dst p.bc can.dst (lookup s.chain_map ev.dst_chain_id) p.configured
                can.configured)
              (plus_zero can.amount))
            paid.1,
      ),
    )

-- Where the database answers: after the log of a transfer out that the callback does not decline, and
-- whose answer has no row yet, the next tick of the paying job pays the answer: it sends the converted
-- amount less the gateway's fee to the address that the user named, under the user's hash lock, if
-- the tick begins more than an hour before the answer's time lock, and nothing stands in the way of the
-- payments of the rows that it reads.
pub noticed-Answered :
    (s : Server) (bc : BridgeConfig) (ev : LogNewTransferOut) (tx_hash : Hash) (w : World)
    → ((n : ℕ) → w.env.db_fault n ≡ none)
    → (can : CanAnswer s bc ev (w.env.clock w.steps)) → ev.transfer_id ≢ answer_id w.env ev
    → has_tid (answer_id w.env ev) w.table ≡ false
    → ltb_ℤ
        (w.env.clock (noticed s bc ev tx_hash w).steps +ℤ pos hour)
        (answer_time_lock ev (w.env.clock w.steps))
      ≡ true
    → All (CanPay s w.env) (planned_in (noticed s bc ev tx_hash w))
    → Answered s bc w.env ev
        (w.env.clock w.steps)
        can
        (perform (process_try_send_transfer_in s) (noticed s bc ev tx_hash w)).1.sent
unfolding startable row_of transfer_in_of
noticed-Answered s bc ev tx_hash w answers can other new early can_pay =
    let ts = w.env.clock w.steps in
    let w' = noticed s bc ev tx_hash w in
    let planned = (monitor_log_transfer_out-Planned s bc ev tx_hash w answers can other new).ends in
    let row = row_of planned.1.1.0 (answer_of s bc w.env ev ts can) in
    IsPaid-Answered s bc w.env ev ts planned.1.1.0 can _ (
      tick-IsPaid s w.env w' row planned.1.0.env answers planned.1.1.1
        (ap (λ b. true && b && true) early) can_pay)
