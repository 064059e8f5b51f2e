-- ===== src/Server/Send/Pays.antt =====
-- What processTrySendTransferIn achieves where nothing fails.
use c_bridge_node.Base.{
  ℕ, suc, ◌*◌, ◌≡◌, refl, ap, ◌∙◌, false, not, ◌==◌, Option, none, some, List, [], ◌∷◌, map, arith,
}
use c_bridge_node.Base.Int.{ℤ, pos, ◌+ℤ◌, ◌-ℤ◌, ltb_ℤ, to_uint64}
use c_bridge_node.Base.Lists.{All, select}
use c_bridge_node.Base.Maps.{lookup, nat_eq}
use c_bridge_node.Transfer.{scan_transfer, Time, Transfer, unix, minute}
use c_bridge_node.World.{World, Env, Sent, Call, Fault, Result, ok, err, TransferInfo}
use c_bridge_node.Exec.{gets, M, perform, pure, ask, for_each, ◌>>=◌}
use c_bridge_node.Exec.Ends.{Ends, Ends-after, Ends-or_skip, Ends-if_found, Ends-else}
use c_bridge_node.Dal.{now, set_transfer_in_amount_and_fee}
use c_bridge_node.Dal.Queries.{query, rows_unless, startable, get_all_start_transfer_in}
use c_bridge_node.Gateway.{get_fee, fee_of_response}
use c_bridge_node.Chain.{BridgeConfig, transfer_in}
use c_bridge_node.Chain.Works.{
  At, exec_table-At, now-At, set_pending_transfer_in-At, get_transfer-At, transact-At,
}
use c_bridge_node.Server.{Server}
use c_bridge_node.Server.Send.{again, pay, send, charge, try_send, process_try_send_transfer_in}

-- Nothing stands in the way of a payment: the chain is configured, the database answers, the time
-- lock is ahead, the chain answers that it does not have the transfer, the gateway that its fee is
-- this one, which is not greater than the amount, and the transactor accepts.
pub record CanPay (s : Server) (e : Env) (tx : Transfer) : Type 0 where
  pub bc : BridgeConfig
  pub configured : lookup s.chain_map tx.chain_id ≡ some bc
  pub answers : (n : ℕ) → e.db_fault n ≡ none
  pub ahead : (n : ℕ) → ltb_ℤ (tx.time_lock -ℤ pos (6 * minute)) (e.clock n) ≡ false
  pub info : TransferInfo
  pub said : (n block : ℕ) → e.transfers n bc.chain_id block tx.transfer_id ≡ ok info
  pub absent : info.status ≡ 0
  pub fee : ℤ
  pub charged : (n : ℕ) → fee_of_response (e.rpc_get_fee n tx.related_tid) ≡ ok fee
  pub covered : ltb_ℤ (tx.amount +ℤ tx.fee) fee ≡ false
  pub accepted : (n : ℕ) (call : Call) → e.transact n bc.chain_id call ≡ none

-- The transaction of the payment.
abbrev pub payment_of : (s : Server) (e : Env) (tx : Transfer) → CanPay s e tx → Sent
payment_of s e tx can = record {
  chain = can.bc.chain_id;
  transfer_id = tx.transfer_id;
  call =
      Call.transfer_in tx.receiver tx.token (tx.amount +ℤ tx.fee -ℤ can.fee) tx.hash_lock
        (to_uint64 (unix tx.time_lock)) tx.related_chain_id tx.related_tid;
  outcome = none;
}

again_done :
    (r : Result (Unit {0})) (m : M (Result (Unit {0}))) (w : World) (P : World → Type 0)
    → r ≡ ok tt
    → P w
    → Ends (again r m) w (λ u w'. P w')
unfolding again pure
again_done (ok u) m w P eq h = record { ends = h }
again_done (err x) m w P eq h = absurd (ground arith)

module _ (e : Env) (sent : List Sent) where
  module _ (s : Server) (tx : Transfer) (can : CanPay s e tx) where
    get_fee-At :
        (w : World)
        → At e sent w
        → Ends (get_fee tx.related_tid) w (λ r w'. (r ≡ ok can.fee) × At e sent w')
    unfolding get_fee ask pure ◌>>=◌
    get_fee-At w at = record {
      ends = (
        ap (λ x. fee_of_response (x.rpc_get_fee w.steps tx.related_tid)) at.env
            ∙ can.charged w.steps,
        record { env = at.env; so_far = at.so_far },
      );
    }

    -- The transaction is sent, and accepted.
    abbrev Paid : World → Type 0
    Paid w = At e (payment_of s e tx can ∷ sent) w

    pay-Paid :
        (w : World)
        → At e sent w
        → Ends (pay can.bc tx (tx.amount +ℤ tx.fee -ℤ can.fee)) w (λ r w'. (r ≡ ok tt) × Paid w')
    unfolding pay transfer_in
    pay-Paid w at =
        transact-At e sent can.bc tx.transfer_id (payment_of s e tx can).call w
          (λ n. can.accepted n (payment_of s e tx can).call) at

    send-Paid :
        (w : World)
        → At e sent w
        → Ends (send can.bc tx (tx.amount +ℤ tx.fee -ℤ can.fee) can.fee) w (λ u w'. Paid w')
    unfolding send set_transfer_in_amount_and_fee
    send-Paid w at =
        Ends-after _ (λ r w'. (r ≡ ok tt) × At e sent w') _ _ w
          (exec_table-At e sent _ w can.answers at)
          λ r w₁ set. Ends-or_skip _ r _ w₁ tt set.0 (
            Ends-after _ (λ r w'. (r ≡ ok tt) × At e sent w') _ _ w₁
              (set_pending_transfer_in-At e sent tx.transfer_id _ _ w₁ can.answers set.1)
              λ r₂ w₂ moved. Ends-or_skip _ r₂ _ w₂ tt moved.0 (
                Ends-after _ (λ r w'. (r ≡ ok tt) × Paid w') _ _ w₂ (pay-Paid w₂ moved.1)
                  λ r₃ w₃ paid. again_done r₃ _ w₃ Paid paid.0 paid.1))

    charge-Paid : (w : World) → At e sent w → Ends (charge can.bc tx) w (λ u w'. Paid w')
    unfolding charge
    charge-Paid w at =
        Ends-after _ (λ r w'. (r ≡ ok can.fee) × At e sent w') _ _ w (get_fee-At w at)
          λ r w₁ got.
            Ends-or_skip _ r _ w₁ can.fee got.0
              (Ends-else _ _ _ _ w₁ can.covered (send-Paid w₁ got.1))

    try_send-Paid : (w : World) → At e sent w → Ends (try_send s tx) w (λ u w'. Paid w')
    unfolding try_send
    try_send-Paid w at =
        Ends-if_found _ (lookup s.chain_map tx.chain_id) _ w can.bc can.configured (
          Ends-after _ (λ t w'. ((n : ℕ) × (t ≡ e.clock n)) × At e sent w') _ _ w
            (now-At e sent w at)
            λ t w₁ read. Ends-else _ _ _ _ w₁ (in_time t read.0) (
              Ends-after _ (λ r w'. (r ≡ ok can.info) × At e sent w') _ _ w₁
                (get_transfer-At e sent can.bc tx.transfer_id can.info w₁ can.said read.1)
                λ r w₂ got. Ends-or_skip _ r _ w₂ can.info got.0 (
                  Ends-else _ (not (can.info.status == 0)) _ _ w₂ (ground (arith, can.absent))
                    (charge-Paid w₂ got.1))))
      where
        in_time :
            (t : Time)
            → (n : ℕ) × (t ≡ e.clock n)
            → ltb_ℤ (tx.time_lock -ℤ pos (6 * minute)) t ≡ false
        in_time t (n, eq) = ap (λ x. ltb_ℤ (tx.time_lock -ℤ pos (6 * minute)) x) eq ∙ can.ahead n

-- The payments of these rows, in their order, each in front of those before.
abbrev pub payments_of :
    (s : Server) (e : Env) (txs : List Transfer) → All (CanPay s e) txs → List Sent → List Sent
payments_of s e [] can sent = sent
payments_of s e (tx ∷ txs) can sent = payments_of s e txs can.1 (payment_of s e tx can.0 ∷ sent)

module _ (s : Server) (e : Env) where
  all-Paid :
      (txs : List Transfer) (can : All (CanPay s e) txs) (sent : List Sent) (w : World)
      → At e sent w
      → Ends (for_each (try_send s) txs) w (λ u w'. At e (payments_of s e txs can sent) w')
  unfolding for_each pure
  all-Paid [] can sent w at = record { ends = at }
  all-Paid (tx ∷ txs) can sent w at =
      Ends-after _ (λ u w'. At e (payment_of s e tx can.0 ∷ sent) w') _ _ w
        (try_send-Paid e sent s tx can.0 w at)
        λ u w' paid. all-Paid txs can.1 (payment_of s e tx can.0 ∷ sent) w' paid

-- The rows that the job reads in this world.
abbrev pub planned_in : World → List Transfer
planned_in w = map scan_transfer (select (startable (w.env.clock w.steps)) w.table)

get_all_start_transfer_in-At :
    (w : World)
    → ((n : ℕ) → w.env.db_fault n ≡ none)
    → Ends get_all_start_transfer_in w (λ r w'. (r ≡ ok (planned_in w)) × At w.env w.sent w')
unfolding get_all_start_transfer_in query rows_unless now ask gets pure ◌>>=◌
get_all_start_transfer_in-At w answers = record {
  ends = (
    answered (w.env.db_fault (suc w.steps)) (answers (suc w.steps)),
    record { env = refl; so_far = refl },
  );
}
  where
    answered :
        (fault : Option Fault) → fault ≡ none → rows_unless fault (planned_in w) ≡ ok (planned_in w)
    answered none eq = refl
    answered (some x) eq = absurd (ground arith)

-- Where the database answers, and nothing stands in the way of any payment that is planned, a tick
-- of the paying job, alone, sends exactly the payments of the planned transfers in that it reads: one
-- each, in the order of the rows, of their amount and fee less the gateway's fee.
pub process_try_send_transfer_in-payments_of :
    (s : Server) (w : World)
    → ((n : ℕ) → w.env.db_fault n ≡ none)
    → (can : All (CanPay s w.env) (planned_in w))
    → (perform (process_try_send_transfer_in s) w).1.sent
      ≡ payments_of s w.env (planned_in w) can w.sent
unfolding process_try_send_transfer_in
process_try_send_transfer_in-payments_of s w answers can =
    (Ends-after (λ u w'. At w.env (payments_of s w.env (planned_in w) can w.sent) w')
      (λ r w'. (r ≡ ok (planned_in w)) × At w.env w.sent w') get_all_start_transfer_in _ w
      (get_all_start_transfer_in-At w answers)
      λ r w₁ read.
        Ends-or_skip _ r _ w₁ (planned_in w) read.0
          (all-Paid s w.env (planned_in w) can w.sent w₁ read.1)).ends.so_far
