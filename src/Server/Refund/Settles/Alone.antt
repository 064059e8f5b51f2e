-- ===== src/Server/Refund/Settles/Alone.antt =====
-- What processTryRefundTransferIn (server/server.go) sends where nothing fails.
use c_bridge_node.Base.{
  ℕ, suc, ◌≡◌, refl, sym, ap, ◌∙◌, inl, inr, true, Option, none, some, List, [], ◌∷◌, arith, ◌==◌,
}
use mathlib.Core.Path.{subst}
use c_bridge_node.Base.Lists.{All}
use c_bridge_node.Base.Maps.{lookup, nat_eq}
use c_bridge_node.Wire.{confirmed, locked, refund_pending, same_status}
use c_bridge_node.Transfer.{Row, Transfer, scan_transfer, hex_to_hash}
use c_bridge_node.World.{World, Env, Sent, Call, Fault, ok}
use c_bridge_node.Exec.{perform, pure, ask, gets, for_each, ◌>>=◌}
use c_bridge_node.Exec.Ends.{Ends, Ends-after, Ends-or_skip, Ends-if_found, Ends-else, Ends-then}
use c_bridge_node.Dal.{now}
use c_bridge_node.Dal.Evolution.{Evolves-refl}
use c_bridge_node.Dal.Reads.{Keeps-get_transfer_by_tid}
use c_bridge_node.Dal.Queries.{query, rows_unless, get_all_refund_able_transfer_in}
use c_bridge_node.Chain.{transact, confirm, refund}
use c_bridge_node.Chain.Keeps.{Keeps-get_transfer, Keeps-transact}
use c_bridge_node.Chain.Works.{
  At, accepted_call, set_transfer_status_by_from-At, get_transfer-At, transact-At,
}
use c_bridge_node.Server.{Server}
use c_bridge_node.Server.Refund.{
  refund_unless_confirmed, confirm_or_refund, settle, try_refund, process_try_refund_transfer_in,
}
use c_bridge_node.Server.Refund.Settles.{
  SameToJob, SameToJob-refl, first_with-Evolves, CanRefund, CanSettle, settling_call, settlement_of,
  settlements_of, expired_in,
}
use c_bridge_node.Server.Refund.Settles.Effects.{Here, stay, mark-Same, get_transfer_by_tid-At}

module _ (s : Server) (e : Env) (t₀ : List Row) where
  module _ (tx : Transfer) (can : CanSettle s e t₀ tx) (sent : List Sent) where
    abbrev Done : World → Type 0
    Done w = Here e t₀ (settlement_of s e t₀ tx can ∷ sent) w

    transact-Done :
        (c : Call) (w : World)
        → settling_call tx can.related ≡ c
        → Here e t₀ sent w
        → Ends (transact can.bc tx.transfer_id c >>= λ _. pure tt) w (λ u w'. Done w')
    unfolding pure
    transact-Done c w call h =
        Ends-after _ (λ r w'. (r ≡ ok tt) × Done w') _ _ w
          (stay e t₀ (λ r. r ≡ ok tt) sent (settlement_of s e t₀ tx can ∷ sent) _ w
            (λ at.
              subst
                (λ x.
                  Ends (transact can.bc tx.transfer_id c) w
                    (λ r w'. (r ≡ ok tt) × At e (accepted_call can.bc tx.transfer_id x ∷ sent) w'))
                (sym call)
                (transact-At e sent can.bc tx.transfer_id c w (λ n. can.accepted n c) at))
            (Keeps-transact can.bc tx.transfer_id c (λ env t s' outcome k. k)) h)
          λ r w' sent_it. record { ends = sent_it.1 }

    module _ (r : Row) (same : SameToJob can.related r) where
      confirm-Done :
          (w : World)
          → same_status can.related.status confirmed ≡ true
          → Here e t₀ sent w
          → Ends (confirm_or_refund s can.bc tx (scan_transfer r)) w (λ u w'. Done w')
      unfolding confirm_or_refund confirm scan_transfer
      confirm-Done w done h =
          Ends-then _ (same_status r.status confirmed) _ _ w (sym same.settled ∙ done) (
            transact-Done (Call.confirm tx.transfer_id (hex_to_hash r.preimage)) w
              (rw done (ap (λ p. Call.confirm tx.transfer_id (hex_to_hash p)) same.preimage)) h)

      refund-Done :
          (w : World) (out : CanRefund s e can.related)
          → Here e t₀ sent w
          → Ends (confirm_or_refund s can.bc tx (scan_transfer r)) w (λ u w'. Done w')
      unfolding confirm_or_refund refund_unless_confirmed refund scan_transfer
      refund-Done w out h =
          Ends-else _ (same_status r.status confirmed) _ _ w (sym same.settled ∙ out.open_row) (
            Ends-if_found _ (lookup s.chain_map r.chain_id) _ w out.bc
              (ap (λ c. lookup s.chain_map c) (sym same.chain_id) ∙ out.configured)
              (Ends-after _ (λ x w'. (x ≡ ok out.info) × Here e t₀ sent w') _ _ w
                (stay e t₀ (λ x. x ≡ ok out.info) sent sent _ w
                  (get_transfer-At e sent out.bc r.tid out.info w (λ n block.
                    ap (λ t. e.transfers n out.bc.chain_id block t) (sym same.tid)
                    ∙ out.said n block))
                  (Keeps-get_transfer out.bc r.tid) h)
                λ x w₁ got. Ends-or_skip _ x _ w₁ out.info got.0 (
                  Ends-else _ (out.info.status == 2) _ _ w₁ out.not_confirmed
                    (transact-Done (Call.refund tx.transfer_id) w₁ (rw out.open_row) got.1))))

      confirm_or_refund-Done :
          (w : World)
          → Here e t₀ sent w
          → Ends (confirm_or_refund s can.bc tx (scan_transfer r)) w (λ u w'. Done w')
      confirm_or_refund-Done w h = elim can.way [
        | inl done ↦ confirm-Done w done h
        | inr out ↦ refund-Done w out h
      ]

  module _ (answers : (n : ℕ) → e.db_fault n ≡ none)
      (found_ok : e.chk_query_row none ≡ ok true) where
    settle-Done :
        (tx : Transfer) (can : CanSettle s e t₀ tx) (sent : List Sent) (w : World)
        → Here e t₀ sent w
        → Ends (settle s can.bc tx) w (λ u w'. Done tx can sent w')
    unfolding settle
    settle-Done tx can sent w h =
        Ends-after _ (λ x w'. (x ≡ ok tt) × Here e t₀ sent w') _ _ w
          (stay e t₀ (λ x. x ≡ ok tt) sent sent _ w
            (set_transfer_status_by_from-At e sent tx.transfer_id refund_pending locked w answers)
            (mark-Same e t₀ tx.transfer_id) h)
          λ x w₁ marked.
            let (r, leads, same) =
              first_with-Evolves tx.related_tid t₀ w₁.table can.related marked.1.same.holds
                can.leads in
            Ends-after _ (λ y w'. ((y.0 ≡ scan_transfer r) × (y.1 ≡ ok true)) × Here e t₀ sent w') _
              _ w₁
              (stay e t₀ (λ y. (y.0 ≡ scan_transfer r) × (y.1 ≡ ok true)) sent sent _ w₁
                (get_transfer_by_tid-At e t₀ sent tx.related_tid r w₁ answers found_ok leads)
                (Keeps-get_transfer_by_tid tx.related_tid) marked.1)
              λ y w₂ looked. Ends-or_skip _ y.1 _ w₂ true looked.0.1 (
                subst
                  (λ related.
                    Ends (confirm_or_refund s can.bc tx related) w₂ (λ u w'. Done tx can sent w'))
                  (sym looked.0.0) (confirm_or_refund-Done tx can sent r same w₂ looked.1))

    try_refund-Done :
        (tx : Transfer) (can : CanSettle s e t₀ tx) (sent : List Sent) (w : World)
        → Here e t₀ sent w
        → Ends (try_refund s tx) w (λ u w'. Done tx can sent w')
    unfolding try_refund
    try_refund-Done tx can sent w h =
        Ends-if_found _ (lookup s.chain_map tx.chain_id) _ w can.bc can.configured (
          Ends-after _ (λ x w'. (x ≡ ok can.info) × Here e t₀ sent w') _ _ w
            (stay e t₀ (λ x. x ≡ ok can.info) sent sent _ w
              (get_transfer-At e sent can.bc tx.transfer_id can.info w can.said)
              (Keeps-get_transfer can.bc tx.transfer_id) h)
            λ x w₁ got. Ends-or_skip _ x _ w₁ can.info got.0 (
              Ends-then _ (can.info.status == 1) _ _ w₁ can.pending
                (settle-Done tx can sent w₁ got.1)))

    all-Done :
        (txs : List Transfer) (can : All (CanSettle s e t₀) txs) (sent : List Sent) (w : World)
        → Here e t₀ sent w
        → Ends
            (for_each (try_refund s) txs)
            w
            (λ u w'. Here e t₀ (settlements_of s e t₀ txs can sent) w')
    unfolding for_each pure
    all-Done [] can sent w h = record { ends = h }
    all-Done (tx ∷ txs) can sent w h =
        Ends-after _ (λ u w'. Done tx can.0 sent w') _ _ w (try_refund-Done tx can.0 sent w h)
          λ u w' settled. all-Done txs can.1 (settlement_of s e t₀ tx can.0 ∷ sent) w' settled

get_all_refund_able_transfer_in-Here :
    (w : World)
    → ((n : ℕ) → w.env.db_fault n ≡ none)
    → Ends get_all_refund_able_transfer_in w
        (λ r w'. (r ≡ ok (expired_in w)) × Here w.env w.table w.sent w')
unfolding get_all_refund_able_transfer_in query rows_unless now ask gets pure ◌>>=◌
get_all_refund_able_transfer_in-Here w answers = record {
  ends = (
    answered (w.env.db_fault (suc w.steps)) (answers (suc w.steps)),
    record {
      at = record { env = refl; so_far = refl };
      same = record { holds = Evolves-refl SameToJob SameToJob-refl w.table };
    },
  );
}
  where
    answered :
        (fault : Option Fault) → fault ≡ none → rows_unless fault (expired_in w) ≡ ok (expired_in w)
    answered none eq = refl
    answered (some x) eq = absurd (ground arith)

-- Where the database answers, ChkQueryRow accepts a row that is found, and nothing stands in the way
-- of settling any row that it reads, a tick of the refunding job, alone, sends exactly one
-- transaction for each of those rows, in their order: a confirmation with the related row's preimage
-- if that row was confirmed, and else a refund.
pub process_try_refund_transfer_in-settlements_of :
    (s : Server) (w : World)
    → ((n : ℕ) → w.env.db_fault n ≡ none)
    → w.env.chk_query_row none ≡ ok true
    → (can : All (CanSettle s w.env w.table) (expired_in w))
    → (perform (process_try_refund_transfer_in s) w).1.sent
      ≡ settlements_of s w.env w.table (expired_in w) can w.sent
unfolding process_try_refund_transfer_in
process_try_refund_transfer_in-settlements_of s w answers found_ok can = all_settled.ends.at.so_far
  where
    all_settled :
        Ends
          (process_try_refund_transfer_in s)
          w
          λ u w'. Here w.env w.table (settlements_of s w.env w.table (expired_in w) can w.sent) w'
    all_settled =
        Ends-after _ (λ r w'. (r ≡ ok (expired_in w)) × Here w.env w.table w.sent w') _ _ w
          (get_all_refund_able_transfer_in-Here w answers)
          λ r w₁ read.
            Ends-or_skip _ r _ w₁ (expired_in w) read.0
              (all-Done s w.env w.table answers found_ok (expired_in w) can w.sent w₁ read.1)
