-- ===== src/Examples/Runs.antt =====
-- Runs of the node at concrete inputs.
use c_bridge_node.Exec.{perform}
use c_bridge_node.Base.{
  ◌≢◌, false, inl, inr, ◌+◌, ◌*◌, ◌≤◌, ◌↔◌, ◌≡◌, refl, none, some, [], ◌∷◌, arith,
}
use c_bridge_node.Base.Int.{pos, ◌+ℤ◌, ◌-ℤ◌, ◌≤ℤ◌, int64, from_bits, to_uint64}
use c_bridge_node.Transfer.{unix, second}
use c_bridge_node.Dal.{has_tid}
use c_bridge_node.Dal.Store.{execute, record_in}
use c_bridge_node.Dal.Store.Refines.{Refined, execute-meaning}
use c_bridge_node.Dal.Lookups.{FindsOnlyRows}
use c_bridge_node.Chain.Sends.{SentSince}
use c_bridge_node.Base.Lists.{Among, select}
use c_bridge_node.Dal.Queries.{confirmable}
use c_bridge_node.Server.Events.{monitor_log_confirm}
use c_bridge_node.Server.Events.Claimable.{monitor_log_confirm-confirmable}
use c_bridge_node.Server.Send.{process_try_send_transfer_in}
use c_bridge_node.Server.Send.Payments.{IsPayment, sends-IsPayment}
use c_bridge_node.Server.Confirm.{process_try_confirm_transfer}
use c_bridge_node.Server.Confirm.Claims.{IsClaim, sends-IsClaim}
use c_bridge_node.Server.Refund.{process_try_refund_transfer_in}
use c_bridge_node.Dal.Stands.{Stands}
use c_bridge_node.Server.Refund.Settlements.{IsSettlement, sends-IsSettlement}
use c_bridge_node.Server.TransferOut.{
  pow10_u64, convert_amount, chain2_time_lock, timeout_of, monitor_log_transfer_out,
}
use c_bridge_node.Server.TransferOut.Amounts.{
  convert_amount_exact, convert_amount-none, convert_amount-convert_amount,
}
use c_bridge_node.Server.TransferOut.TimeLocks.{chain2_time_lock-before, chain2_time_lock_exact}
use c_bridge_node.Server.TransferOut.Delivery.{redelivery}
use c_bridge_node.Examples.{
  noon, server, start, chain, log_out, env_with, with_table, planned, paid, expired, user_out,
}

sends-IsPayment_example :
    SentSince []
      (IsPayment server start.env (λ r. Among r start.table))
      (perform (process_try_send_transfer_in server) start).1.sent
sends-IsPayment_example = sends-IsPayment server start

sends-IsClaim_example :
    SentSince []
      (IsClaim server (env_with 1) (λ r. Among r (paid ∷ [])))
      (perform (process_try_confirm_transfer server) (with_table (env_with 1) (paid ∷ []))).1.sent
sends-IsClaim_example = sends-IsClaim server (with_table (env_with 1) (paid ∷ []))

finds_only_rows : FindsOnlyRows (env_with 1)
finds_only_rows none h = refl
finds_only_rows (some e) h = ground arith

sends-IsSettlement_example :
    SentSince []
      (IsSettlement server
        (env_with 1)
        (λ r. Among r (expired ∷ user_out ∷ []))
        (Stands
          (process_try_refund_transfer_in server)
          (with_table (env_with 1) (expired ∷ user_out ∷ []))))
      (perform
        (process_try_refund_transfer_in server)
        (with_table (env_with 1) (expired ∷ user_out ∷ []))).1.sent
sends-IsSettlement_example =
    sends-IsSettlement server (with_table (env_with 1) (expired ∷ user_out ∷ [])) finds_only_rows

redelivery_example :
    (perform
      (monitor_log_transfer_out server (chain 1) (some log_out) 4)
      (with_table (env_with 0) (planned ∷ user_out ∷ []))).1.table
    ≡ planned ∷ user_out ∷ []
unfolding has_tid
redelivery_example =
    redelivery server (chain 1) log_out 4 (with_table (env_with 0) (planned ∷ user_out ∷ [])) refl
      refl

convert_amount_exact_example : convert_amount 1999999 18 12 ≡ some 1
convert_amount_exact_example = convert_amount_exact 1999999 18 12 (omega arith) (omega arith)

convert_amount-none_example : (convert_amount 5 70 6 ≡ none) ↔ (6 + 64 ≤ 70)
convert_amount-none_example = convert_amount-none 5 70 6

convert_amount-convert_amount_example : convert_amount 7000000000000 18 6 ≡ some 7
unfolding convert_amount pow10_u64
convert_amount-convert_amount_example =
    convert_amount-convert_amount 7 6 18 (omega arith) (omega arith) refl

chain2_time_lock-before_example :
    unix (chain2_time_lock (pos (noon * second)) (timeout_of (noon + 86400) (pos (noon * second))))
      +ℤ pos 28800
    ≤ℤ pos (noon + 86400)
unfolding timeout_of int64 from_bits to_uint64 ◌-ℤ◌
chain2_time_lock-before_example =
    chain2_time_lock-before (noon + 86400) (noon * second) (omega arith) (omega arith) refl

chain2_time_lock_exact_example :
    unix (chain2_time_lock (pos (noon * second)) (timeout_of (noon + 86400) (pos (noon * second))))
    ≡ pos (noon + 57600)
chain2_time_lock_exact_example =
    chain2_time_lock_exact (noon + 86400) (noon * second) (omega arith) (omega arith) (omega arith)

other_row : user_out.tid ≢ planned.tid
other_row h = absurd (omega arith)

monitor_log_confirm-confirmable_example :
    ((perform
        (monitor_log_confirm (some (record { transfer_id = 502; preimage = 78 })) 6)
        (with_table (env_with 0) (planned ∷ user_out ∷ []))).0
      ≡ false)
    × Among
        (record user_out { preimage = some 78 })
        (select confirmable
          (perform
            (monitor_log_confirm (some (record { transfer_id = 502; preimage = 78 })) 6)
            (with_table (env_with 0) (planned ∷ user_out ∷ []))).1.table)
monitor_log_confirm-confirmable_example =
    monitor_log_confirm-confirmable (record { transfer_id = 502; preimage = 78 }) 6
      (with_table (env_with 0) (planned ∷ user_out ∷ [])) user_out refl refl (inr (inl refl)) refl
      other_row refl

execute-meaning_example :
    Refined (record_in 502 4) start (perform (execute (record_in 502 4)) start)
execute-meaning_example = execute-meaning (record_in 502 4) start
