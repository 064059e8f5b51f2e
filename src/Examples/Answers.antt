-- ===== src/Examples/Answers.antt =====
-- A user's transfer out that is answered, and the rows that it leaves.
use c_bridge_node.Base.{some, ◌-◌, ◌∷◌, inl, refl, ◌*◌, ◌^◌, [], arith}
use c_bridge_node.Base.Int.{pos, int64, ◌*ℤ◌, ◌+ℤ◌, ◌-ℤ◌}
use c_bridge_node.Base.Maps.{lookup}
use c_bridge_node.Base.Lists.{All, select}
use c_bridge_node.Exec.{perform, or_skip, for_each, pure, ask, gets, modify, ◌>>=◌}
use c_bridge_node.Gateway.{fee_of_response, set_string, digits}
use c_bridge_node.Transfer.{Row, Time, second, scan_transfer}
use c_bridge_node.World.{World}
use c_bridge_node.Dal.{
  row_of, insert_row, has_tid, insert_transfer, exec_table, now, update_where,
  set_transfer_status_by_from, status_by_from,
}
use c_bridge_node.Dal.Queries.{
  startable, timeout_pending_transfer_in, timeout_pending_confirm, timeout_pending_refund,
  get_recover_timeout_pending_transfer_in, get_recover_timeout_pending_confirm,
  get_recover_timeout_pending_refund, query, rows_unless,
}
use c_bridge_node.Server.Send.{process_try_send_transfer_in}
use c_bridge_node.Server.Send.Pays.{CanPay}
use c_bridge_node.Server.TransferOut.{
  lookup_in, convert_amount, pow10_u64, timeout_of, chain2_time_lock, transfer_in_of,
  transfer_out_of, get_transfer_id, or_retry, or_give_up, or_panic, plan_transfer_in,
  save_transfers, convert_and_save, on_transfer_out, monitor_log_transfer_out,
}
use c_bridge_node.Server.TransferOut.Plans.{CanAnswer, answer_of}
use c_bridge_node.Node.Answered.{Answered, noticed, noticed-Answered}
use c_bridge_node.Node.{transfer_out_log, send_tick, handle}
use c_bridge_node.Node.Threads.{Reach, Reach-perform, arrive}
use c_bridge_node.Node.Resumed.{recovered, recovered-IsPaid}
use c_bridge_node.Server.Send.Paid.{IsPaid}
use c_bridge_node.Server.Recover.{
  process_recover, process_recover_timeout_pending_transfer_in,
  process_recover_timeout_pending_confirm, process_recover_timeout_pending_refund, put_back,
}
use c_bridge_node.Server.Recover.Resumes.{resumed}
use c_bridge_node.Wire.{transfer_in_pending}
use c_bridge_node.Node.Typed.{IsTyped, Reach-IsTyped}
use c_bridge_node.Examples.{
  planned, start, chain, chain_says, env_with, log_out, noon, server, with_table,
}

abbrev idle : World
idle = with_table (env_with 0) []

can_answer : CanAnswer server (chain 1) log_out (pos (noon * second))
unfolding lookup lookup_in convert_amount pow10_u64 timeout_of int64 ◌-ℤ◌
can_answer = record {
  mine = refl;
  dst = chain 2;
  configured = refl;
  token_name = "USDT";
  named = refl;
  token = 1;
  has_token = refl;
  src_decimal = 6;
  has_src = refl;
  dst_decimal = 18;
  has_dst = refl;
  amount = 1000 * 10 ^ 12;
  converted = refl;
  ample = refl;
}

can_pay_answer : CanPay server (env_with 0) (
    scan_transfer (
      row_of
        (pos (noon * second))
        (answer_of server (chain 1) (env_with 0) log_out (pos (noon * second)) can_answer)))
unfolding lookup fee_of_response set_string digits scan_transfer row_of transfer_in_of
    chain2_time_lock timeout_of int64 ◌-ℤ◌ ◌+ℤ◌ convert_amount pow10_u64 lookup_in ◌*ℤ◌ can_answer
can_pay_answer = record {
  bc = chain 2;
  configured = refl;
  answers = λ n. refl;
  ahead = λ n. refl;
  info = chain_says 0;
  said = λ n block. refl;
  absent = refl;
  fee = pos 30;
  charged = λ n. refl;
  covered = refl;
  accepted = λ n call. refl;
}

noticed-Answered_example :
    Answered server
      (chain 1)
      (env_with 0)
      log_out
      (pos (noon * second))
      can_answer
      (perform
        (process_try_send_transfer_in server)
        (noticed server (chain 1) log_out 4 idle)).1.sent
unfolding lookup lookup_in convert_amount pow10_u64 timeout_of int64 ◌-ℤ◌ ◌+ℤ◌ chain2_time_lock
    transfer_in_of transfer_out_of get_transfer_id or_retry or_give_up or_panic plan_transfer_in
    save_transfers convert_and_save on_transfer_out monitor_log_transfer_out row_of insert_row
    has_tid insert_transfer exec_table now ask modify gets pure ◌>>=◌ select startable scan_transfer
    ◌*ℤ◌ can_answer
noticed-Answered_example =
    noticed-Answered server (chain 1) log_out 4 idle (λ n. refl) can_answer
      (λ h. absurd (omega arith)) refl refl (can_pay_answer, tt)

-- The handlers of a log and of a tick have come to their ends, one after the other.
abbrev log_handled : World
log_handled = (perform (handle server (transfer_out_log (chain 1) (some log_out) 4)) start).1

abbrev tick_handled : World
tick_handled = (perform (handle server send_tick) log_handled).1

planned-IsTyped : IsTyped planned
planned-IsTyped = record {
  has_type = λ h. absurd (ground arith);
  has_status = λ h. absurd (ground arith);
  payable = λ h. refl;
  proved = λ h. absurd (ground arith);
}

Reach-IsTyped_example : All IsTyped tick_handled.table
Reach-IsTyped_example =
    Reach-IsTyped server start (planned-IsTyped, tt)
      (Reach-perform server start (handle server send_tick) (
        arrive
          (Reach-perform server start (handle server (transfer_out_log (chain 1) (some log_out) 4))
            (arrive Reach.start (transfer_out_log (chain 1) (some log_out) 4)))
          send_tick))

-- A row whose payment has been pending for an hour.
abbrev pending_row : Row
pending_row = record planned {
  status = transfer_in_pending;
  update_ts = pos ((noon - 3600) * second);
}

abbrev pending_world : World
pending_world = with_table (env_with 0) (pending_row ∷ [])

can_pay_pending :
    CanPay server
      (env_with 0)
      (scan_transfer (resumed (env_with 0) pending_row (pos (noon * second))))
unfolding lookup fee_of_response set_string digits scan_transfer ◌-ℤ◌ ◌+ℤ◌
can_pay_pending = record {
  bc = chain 2;
  configured = refl;
  answers = λ n. refl;
  ahead = λ n. refl;
  info = chain_says 0;
  said = λ n block. refl;
  absent = refl;
  fee = pos 30;
  charged = λ n. refl;
  covered = refl;
  accepted = λ n call. refl;
}

recovered-IsPaid_example :
    (stamp : Time) × IsPaid server
      (env_with 0)
      (scan_transfer (resumed (env_with 0) pending_row stamp))
      (perform (process_try_send_transfer_in server) (recovered pending_world)).1.sent
unfolding timeout_pending_transfer_in timeout_pending_confirm timeout_pending_refund ◌-ℤ◌ ◌+ℤ◌
    select process_recover process_recover_timeout_pending_transfer_in
    process_recover_timeout_pending_confirm process_recover_timeout_pending_refund
    get_recover_timeout_pending_transfer_in get_recover_timeout_pending_confirm
    get_recover_timeout_pending_refund now query or_skip for_each put_back
    set_transfer_status_by_from status_by_from exec_table rows_unless update_where ask gets modify
    pure ◌>>=◌ scan_transfer startable
recovered-IsPaid_example =
    recovered-IsPaid server pending_world pending_row (λ n. refl) (inl refl) refl refl
      (can_pay_pending, tt)
