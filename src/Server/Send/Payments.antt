-- ===== src/Server/Send/Payments.antt =====
-- What processTrySendTransferIn pays.
use c_bridge_node.Base.{◌*◌, ◌≡◌, ◌∙◌, refl, sym, false, some, List, arith}
use c_bridge_node.Base.Int.{ℤ, pos, ◌+ℤ◌, ◌-ℤ◌, ◌≤ℤ◌, ltb_ℤ, to_uint64}
use c_bridge_node.Base.Lists.{All-Among, Among}
use c_bridge_node.Base.Maps.{lookup, nat_eq}
use c_bridge_node.Transfer.{Time, Row, Transfer, unix, minute}
use c_bridge_node.World.{World, Env, Sent, Call, Result, ok, err, TransferInfo}
use c_bridge_node.Exec.{perform, M}
use c_bridge_node.Exec.Keeps.{
  Keeps, Keeps-pure, Keeps-bind, Keeps-bind_Yields, Keeps-if, Keeps-if_found, Keeps-or_skip,
  loop_from, keeps_rules,
}
use c_bridge_node.Exec.Views.{View, On}
use c_bridge_node.Dal.{now}
use c_bridge_node.Dal.Queries.{startable, get_all_start_transfer_in}
use c_bridge_node.Dal.Reads.{IsRowNow, Yields-query-now}
use c_bridge_node.Chain.{BridgeConfig, get_transfer, transfer_in}
use c_bridge_node.Chain.Answers.{
  ChainSaid, GatewaySaid, ClockSaid, Yields-now, Yields-get_transfer, Yields-get_fee,
}
use c_bridge_node.Chain.Sends.{
  Untouched, Sending, Sending-known, Sending-transact, Sends-nothing, SentSince, sending_rules,
}
use c_bridge_node.Gateway.{get_fee}
use c_bridge_node.Server.{Server}
use c_bridge_node.Server.Send.{
  mark_existing, again, pay, send, charge, try_send, process_try_send_transfer_in,
}

-- The row that a payment is for, which had `Q`, and what was known of it.
pub record IsDue (s : Server) (e : Env) (Q : Row → Type 0) (tx : Transfer) : Type 0 where
  pub found : IsRowNow (ClockSaid e) Q startable tx
  pub bc : BridgeConfig
  pub configured : lookup s.chain_map tx.chain_id ≡ some bc
  pub time : Time
  pub clocked : ClockSaid e time
  pub unexpired : ltb_ℤ (tx.time_lock -ℤ pos (6 * minute)) time ≡ false
  pub info : TransferInfo
  pub asked : ChainSaid e bc.chain_id tx.transfer_id (ok info)
  pub absent : info.status ≡ 0

-- A transaction that pays what is due to the receiver, less the gateway's fee.
pub record IsPayment (s : Server) (e : Env) (Q : Row → Type 0) (sent : Sent) : Type 0 where
  pub tx : Transfer
  pub due : IsDue s e Q tx
  pub fee : ℤ
  pub charged : GatewaySaid e tx.related_tid (ok fee)
  pub covered : fee ≤ℤ tx.amount +ℤ tx.fee
  pub on_chain : sent.chain ≡ due.bc.chain_id
  pub call :
      sent.call
      ≡ Call.transfer_in tx.receiver tx.token
          (tx.amount +ℤ tx.fee -ℤ fee)
          tx.hash_lock
          (to_uint64 (unix tx.time_lock))
          tx.related_chain_id
          tx.related_tid

module _ (s : Server) (e : Env) (Q : Row → Type 0) (s₀ : List Sent) (G : Sent → Type 0)
    (good : (x : Sent) → IsPayment s e Q x → G x) where
  abbrev Paying : View
  Paying = Sending e s₀ G

  known : (env : Env) (rows : List Row) (sent : List Sent) → Paying env rows sent → env ≡ e
  known = Sending-known e s₀ G

  again-Paying :
      (r : Result (Unit {0})) (m : M (Result (Unit {0})))
      → Keeps (On Paying) m
      → Keeps (On Paying) (again r m)
  unfolding again
  again-Paying (ok u) m h = Keeps-pure tt
  again-Paying (err x) m h = search keeps_rules

  module _ (tx : Transfer) (due : IsDue s e Q tx) (fee : ℤ)
      (charged : GatewaySaid e tx.related_tid (ok fee)) (covered : fee ≤ℤ tx.amount +ℤ tx.fee) where
    pay-Paying : Keeps (On Paying) (pay due.bc tx (tx.amount +ℤ tx.fee -ℤ fee))
    unfolding pay transfer_in
    pay-Paying = Sending-transact e s₀ G due.bc tx.transfer_id _ λ outcome. good _ (record {
      tx = tx;
      due = due;
      fee = fee;
      charged = charged;
      covered = covered;
      on_chain = refl;
      call = refl;
    })

    send-Paying : Keeps (On Paying) (send due.bc tx (tx.amount +ℤ tx.fee -ℤ fee) fee)
    unfolding send
    send-Paying = Keeps-bind _ _ (search sending_rules) λ set. Keeps-or_skip set _ λ u e₁.
        Keeps-bind _ _ (search sending_rules) λ pending.
          Keeps-or_skip pending _
            λ v e₂. Keeps-bind _ _ pay-Paying λ sent. again-Paying sent _ pay-Paying

  mark_existing-Paying :
      (tx : Transfer) (info : TransferInfo) → Keeps (On Paying) (mark_existing tx info)
  unfolding mark_existing
  mark_existing-Paying tx info = search (keeps_rules, sending_rules)

  charge-Paying : (tx : Transfer) (due : IsDue s e Q tx) → Keeps (On Paying) (charge due.bc tx)
  unfolding charge
  charge-Paying tx due =
      Keeps-bind_Yields (get_fee tx.related_tid) _ (GatewaySaid e tx.related_tid)
        (Yields-get_fee e known tx.related_tid)
        λ r said. Keeps-or_skip r _ λ fee ok_fee.
          Keeps-if _ _ _ (λ too_big. Keeps-pure tt)
            λ fits.
              send-Paying tx due fee
                (record { moment = said.moment; answer = sym ok_fee ∙ said.answer }) (ground arith)

  pub try_send-Paying :
      (tx : Transfer) → IsRowNow (ClockSaid e) Q startable tx → Keeps (On Paying) (try_send s tx)
  unfolding try_send
  try_send-Paying tx found = Keeps-if_found (lookup s.chain_map tx.chain_id) _ λ bc configured.
      Keeps-bind_Yields now _ (ClockSaid e) (Yields-now e known) λ time clocked.
        Keeps-if _ _ _ (λ late. Keeps-pure tt)
          λ unexpired.
            Keeps-bind_Yields (get_transfer bc tx.transfer_id) _
              (ChainSaid e bc.chain_id tx.transfer_id)
              (Yields-get_transfer e known bc tx.transfer_id)
              λ r said. Keeps-or_skip r _ λ info ok_info.
                Keeps-if _ _ _ (λ exists. mark_existing-Paying tx info)
                  λ absent. charge-Paying tx (record {
                    found = found;
                    bc = bc;
                    configured = configured;
                    time = time;
                    clocked = clocked;
                    unexpired = unexpired;
                    info = info;
                    asked = record {
                      moment = said.moment;
                      block = said.block;
                      answer = sym ok_info ∙ said.answer;
                    };
                    absent = ground arith;
                  })

-- Every transaction that a run of the paying job sends is a payment of a row that stood in the table
-- at its start: of a planned transfer in (status START, type IN) whose time lock was more than an
-- hour away when the table was read and at least six minutes away later, on a configured chain that
-- answered that it does not have the transfer yet. It pays the row's receiver in the row's token,
-- under the row's hash lock, time lock and source, the row's amount and fee together less a fee
-- that the gateway gave for the transfer out and that is not greater than them.
pub sends-IsPayment :
    (s : Server) (w : World)
    → SentSince w.sent
        (IsPayment s w.env (λ r. Among r w.table))
        (perform (process_try_send_transfer_in s) w).1.sent
unfolding process_try_send_transfer_in get_all_start_transfer_in
sends-IsPayment s w =
    (loop_from {P = On (Sending w.env w.sent (IsPayment s w.env (λ r. Among r w.table)))}
      get_all_start_transfer_in (try_send s)
      (IsRowNow (ClockSaid w.env) (λ r. Among r w.table) startable) (On (Untouched w))
      (Yields-query-now startable (ClockSaid w.env) (λ r. Among r w.table)
        (Yields-now w.env (λ env t sent h. h.same_env))
        λ w' h. rw h.holds.same_table (All-Among w.table))
      (λ w' h. record {
        holds = rw (h.holds.same_env, h.holds.same_sent) (Sends-nothing w.env w.sent _);
      })
      (try_send-Paying s w.env (λ r. Among r w.table) w.sent _ (λ x h. h)) w
      (record {
        holds = record { same_env = refl; same_table = refl; same_sent = refl };
      })).holds.since
