-- ===== src/Server/Confirm/Collects.antt =====
-- What processTryConfirmTransfer achieves where nothing fails.
use c_bridge_node.Base.{ℕ, ◌≡◌, ◌∙◌, refl, Option, none, some, List, [], ◌∷◌, map, ◌==◌, arith, ap}
use c_bridge_node.Base.Lists.{All, select}
use c_bridge_node.Base.Maps.{lookup, nat_eq}
use c_bridge_node.Transfer.{Transfer, scan_transfer}
use c_bridge_node.World.{World, Env, Sent, Call, Fault, ok, TransferInfo}
use c_bridge_node.Exec.{perform, pure, ask, gets, for_each, ◌>>=◌}
use c_bridge_node.Exec.Ends.{Ends, Ends-after, Ends-or_skip, Ends-if_found, Ends-then}
use c_bridge_node.Dal.Queries.{query, rows_unless, confirmable, get_all_confirmable_locked_transfer}
use c_bridge_node.Chain.{BridgeConfig, confirm}
use c_bridge_node.Chain.Works.{
  At, accepted_call, set_transfer_status_by_from-At, get_transfer-At, transact-At,
}
use c_bridge_node.Server.{Server}
use c_bridge_node.Server.Confirm.{claim, act_on_remote, try_confirm, process_try_confirm_transfer}

-- Nothing stands in the way of a claim: the chain is configured, and answers that the transfer is
-- pending there, and the transactor accepts.
pub record CanClaim (s : Server) (e : Env) (tx : Transfer) : Type 0 where
  pub bc : BridgeConfig
  pub configured : lookup s.chain_map tx.chain_id ≡ some bc
  pub info : TransferInfo
  pub said : (n block : ℕ) → e.transfers n bc.chain_id block tx.transfer_id ≡ ok info
  pub pending : info.status ≡ 1
  pub accepted : (n : ℕ) (call : Call) → e.transact n bc.chain_id call ≡ none

-- The transaction of the claim.
abbrev pub claim_of : (s : Server) (e : Env) (tx : Transfer) → CanClaim s e tx → Sent
claim_of s e tx can = accepted_call can.bc tx.transfer_id (Call.confirm tx.transfer_id tx.preimage)

-- The claims of these rows, in their order, each in front of those before.
abbrev pub claims_of :
    (s : Server) (e : Env) (txs : List Transfer) → All (CanClaim s e) txs → List Sent → List Sent
claims_of s e [] can sent = sent
claims_of s e (tx ∷ txs) can sent = claims_of s e txs can.1 (claim_of s e tx can.0 ∷ sent)

-- The rows that the job reads in this world.
abbrev pub claimable_in : World → List Transfer
claimable_in w = map scan_transfer (select confirmable w.table)

module _ (s : Server) (e : Env) (answers : (n : ℕ) → e.db_fault n ≡ none) where
  try_confirm-At :
      (sent : List Sent) (tx : Transfer) (can : CanClaim s e tx) (w : World)
      → At e sent w
      → Ends (try_confirm s tx) w (λ u w'. At e (claim_of s e tx can ∷ sent) w')
  unfolding try_confirm act_on_remote claim confirm pure
  try_confirm-At sent tx can w at =
      Ends-if_found _ (lookup s.chain_map tx.chain_id) _ w can.bc can.configured (
        Ends-after _ (λ r w'. (r ≡ ok can.info) × At e sent w') _ _ w
          (get_transfer-At e sent can.bc tx.transfer_id can.info w can.said at)
          λ r w₁ got. Ends-or_skip _ r _ w₁ can.info got.0 (
            Ends-then _ (can.info.status == 1) _ _ w₁ (ground (arith, can.pending)) (
              Ends-after _ (λ r w'. (r ≡ ok tt) × At e sent w') _ _ w₁
                (set_transfer_status_by_from-At e sent tx.transfer_id _ _ w₁ answers got.1)
                λ r₂ w₂ moved.
                  Ends-after _ (λ r w'. (r ≡ ok tt) × At e (claim_of s e tx can ∷ sent) w') _ _ w₂
                    (transact-At e sent can.bc tx.transfer_id _ w₂
                      (λ n. can.accepted n (claim_of s e tx can).call) moved.1)
                    λ r₃ w₃ claimed. record { ends = claimed.1 })))

  all-At :
      (txs : List Transfer) (can : All (CanClaim s e) txs) (sent : List Sent) (w : World)
      → At e sent w
      → Ends (for_each (try_confirm s) txs) w (λ u w'. At e (claims_of s e txs can sent) w')
  unfolding for_each pure
  all-At [] can sent w at = record { ends = at }
  all-At (tx ∷ txs) can sent w at =
      Ends-after _ (λ u w'. At e (claim_of s e tx can.0 ∷ sent) w') _ _ w
        (try_confirm-At sent tx can.0 w at)
        λ u w' claimed. all-At txs can.1 (claim_of s e tx can.0 ∷ sent) w' claimed

  get_all_confirmable_locked_transfer-At :
      (sent : List Sent) (w : World)
      → At e sent w
      → Ends get_all_confirmable_locked_transfer w
          (λ r w'. (r ≡ ok (claimable_in w)) × At e sent w')
  unfolding get_all_confirmable_locked_transfer query rows_unless ask gets pure ◌>>=◌
  get_all_confirmable_locked_transfer-At sent w at = record {
    ends = (
      answered (w.env.db_fault w.steps) (ap (λ x. x.db_fault w.steps) at.env ∙ answers w.steps),
      record { env = at.env; so_far = at.so_far },
    );
  }
    where
      answered :
          (fault : Option Fault)
          → fault ≡ none
          → rows_unless fault (claimable_in w) ≡ ok (claimable_in w)
      answered none eq = refl
      answered (some x) eq = absurd (ground arith)

  -- Where the database answers, and nothing stands in the way of any claim of a row that it reads, a
  -- tick of the confirming job, alone, sends exactly the claims of those rows: one each, in their order.
  pub process_try_confirm_transfer-claims_of :
      (sent : List Sent) (w : World)
      → At e sent w
      → (can : All (CanClaim s e) (claimable_in w))
      → At e
          (claims_of s e (claimable_in w) can sent)
          (perform (process_try_confirm_transfer s) w).1
  unfolding process_try_confirm_transfer
  process_try_confirm_transfer-claims_of sent w at can =
      (Ends-after (λ u w'. At e (claims_of s e (claimable_in w) can sent) w')
        (λ r w'. (r ≡ ok (claimable_in w)) × At e sent w') get_all_confirmable_locked_transfer _ w
        (get_all_confirmable_locked_transfer-At sent w at)
        λ r w₁ read.
          Ends-or_skip _ r _ w₁ (claimable_in w) read.0
            (all-At (claimable_in w) can sent w₁ read.1)).ends
