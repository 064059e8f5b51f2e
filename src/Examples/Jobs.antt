-- ===== src/Examples/Jobs.antt =====
-- What the jobs achieve at concrete inputs.
use c_bridge_node.Exec.{perform}
use c_bridge_node.Base.{◌-◌, inl, inr, ◌*◌, ◌≡◌, refl, [], ◌∷◌, arith}
use c_bridge_node.Base.Int.{pos, ◌+ℤ◌, ◌-ℤ◌}
use c_bridge_node.Transfer.{second, Row, scan_transfer}
use c_bridge_node.Dal.{has_tid}
use c_bridge_node.Dal.Evolution.{Evolves}
use c_bridge_node.Base.Lists.{select}
use c_bridge_node.Dal.Queries.{confirmable}
use c_bridge_node.Server.Events.{monitor_log_confirm}
use c_bridge_node.Server.Send.{process_try_send_transfer_in}
use c_bridge_node.Server.Send.Pays.{CanPay, payment_of, process_try_send_transfer_in-payments_of}
use c_bridge_node.Server.Recover.{process_recover}
use c_bridge_node.Server.Recover.Retries.{process_recover-Retried}
use c_bridge_node.Server.Recover.Waits.{Retried}
use c_bridge_node.Dal.Queries.{startable}
use c_bridge_node.Base.Maps.{lookup}
use c_bridge_node.Wire.{transfer_in_pending}
use c_bridge_node.Gateway.{fee_of_response, set_string, digits}
use c_bridge_node.Server.Confirm.{process_try_confirm_transfer}
use c_bridge_node.World.{World}
use c_bridge_node.Exec.{pure, ask, modify, ◌>>=◌}
use c_bridge_node.Dal.{exec_table, update_where, confirm_transfer, set_related_tx_preimage}
use c_bridge_node.Chain.Works.{At}
use c_bridge_node.Server.Confirm.Collects.{
  CanClaim, claim_of, process_try_confirm_transfer-claims_of,
}
use c_bridge_node.Server.Events.{LogTransferConfirmed, if_parsed, on_confirm, unless_failed}
use c_bridge_node.Node.Published.{Claimed, told, published-Claimed}
use c_bridge_node.Dal.Queries.{refundable}
use c_bridge_node.Server.Refund.{process_try_refund_transfer_in}
use c_bridge_node.Server.Refund.Settles.{CanSettle, settlement_of}
use c_bridge_node.Server.Refund.Settles.Alone.{process_try_refund_transfer_in-settlements_of}
use c_bridge_node.Examples.{
  chain_says, noon, server, start, chain, env_with, with_table, planned, paid, expired, user_out,
}

-- The chain does not have the planned transfer, and the gateway's fee is 30.
can_pay : CanPay server (env_with 0) (scan_transfer planned)
unfolding fee_of_response set_string digits scan_transfer lookup ◌-ℤ◌ ◌+ℤ◌
can_pay = record {
  bc = chain 2;
  configured = refl;
  answers = λ n. refl;
  ahead = λ n. refl;
  info = chain_says 0;
  said = λ n block. refl;
  absent = refl;
  fee = pos 30;
  charged = λ n. refl;
  covered = refl;
  accepted = λ n call. refl;
}

process_try_send_transfer_in-payments_of_example :
    (perform (process_try_send_transfer_in server) start).1.sent
    ≡ payment_of server start.env (scan_transfer planned) can_pay ∷ []
unfolding select startable ◌+ℤ◌
process_try_send_transfer_in-payments_of_example =
    process_try_send_transfer_in-payments_of server start (λ n. refl) (can_pay, tt)

-- A row whose payment has been pending for an hour.
abbrev waiting : Row
waiting = record planned { status = transfer_in_pending; update_ts = pos ((noon - 3600) * second) }

process_recover-Retried_example :
    Evolves
      (Retried (env_with 0))
      (waiting ∷ [])
      (perform process_recover (with_table (env_with 0) (waiting ∷ []))).1.table
unfolding has_tid
process_recover-Retried_example =
    process_recover-Retried (with_table (env_with 0) (waiting ∷ [])) (refl, tt)

-- A claim of a row with this id on this chain, which says that it is pending.
can_claim : CanClaim server (env_with 1) (scan_transfer paid)
unfolding scan_transfer lookup
can_claim = record {
  bc = chain 2;
  configured = refl;
  info = chain_says 1;
  said = λ n block. refl;
  pending = refl;
  accepted = λ n call. refl;
}

process_try_confirm_transfer-claims_of_example :
    At
      (env_with 1)
      (claim_of server (env_with 1) (scan_transfer paid) can_claim ∷ [])
      (perform (process_try_confirm_transfer server) (with_table (env_with 1) (paid ∷ []))).1
unfolding select confirmable
process_try_confirm_transfer-claims_of_example =
    process_try_confirm_transfer-claims_of server (env_with 1) (λ n. refl) []
      (with_table (env_with 1) (paid ∷ [])) (record { env = refl; so_far = refl }) (can_claim, tt)

-- The user has claimed 502 with 78; the transfer out is still locked.
abbrev claimed_by_user : LogTransferConfirmed
claimed_by_user = record { transfer_id = 502; preimage = 78 }

abbrev before : World
before = with_table (env_with 1) (planned ∷ user_out ∷ [])

published-Claimed_example :
    Claimed 9 78
      (perform (process_try_confirm_transfer server) (told claimed_by_user 6 before)).1.sent
unfolding scan_transfer lookup select confirmable monitor_log_confirm if_parsed on_confirm
    unless_failed confirm_transfer set_related_tx_preimage exec_table update_where ask modify pure
    ◌>>=◌
published-Claimed_example =
    published-Claimed server claimed_by_user 6 before user_out (λ n. refl) (inr (inl refl)) refl
      (λ h. absurd (omega arith)) refl
      (
        record {
          bc = chain 1;
          configured = refl;
          info = chain_says 1;
          said = λ n block. refl;
          pending = refl;
          accepted = λ n call. refl;
        },
        tt,
      )

-- The transfer out of the expired row is not confirmed, in the table or on its chain.
abbrev ran_out : World
ran_out = with_table (env_with 1) (expired ∷ user_out ∷ [])

can_settle : CanSettle server ran_out.env ran_out.table (scan_transfer expired)
unfolding scan_transfer lookup select
can_settle = record {
  bc = chain 2;
  configured = refl;
  info = chain_says 1;
  said = λ n block. refl;
  pending = refl;
  related = user_out;
  leads = refl;
  way = inr (record {
    open_row = refl;
    bc = chain 1;
    configured = refl;
    info = chain_says 1;
    said = λ n block. refl;
    not_confirmed = refl;
  });
  accepted = λ n call. refl;
}

process_try_refund_transfer_in-settlements_of_example :
    (perform (process_try_refund_transfer_in server) ran_out).1.sent
    ≡ settlement_of server ran_out.env ran_out.table (scan_transfer expired) can_settle ∷ []
unfolding select refundable
process_try_refund_transfer_in-settlements_of_example =
    process_try_refund_transfer_in-settlements_of server ran_out (λ n. refl) refl (can_settle, tt)
