-- ===== src/Node/Once/Calm.antt =====
-- The handlers of the node that neither pay nor put a row back keep every phase of the paying of a
-- transfer, whatever happens between their effects.
use c_bridge_node.Base.{ℕ, ◌≡◌, refl, Bool, true, false, Option, List, ◌∷◌, arith}
use c_bridge_node.Base.Int.{ℤ}
use c_bridge_node.Wire.{
  Hash, TransferStatus, transfer_in_start, same_status, refunded, locked, transfer_in_pending,
  confirm_pending, refund_pending,
}
use c_bridge_node.Transfer.{Row, Transfer}
use c_bridge_node.World.{Sent, Call, Fault}
use c_bridge_node.Exec.{M, done, act, ◌>>=◌}
use c_bridge_node.Exec.Keeps.{Always, Keeps}
use c_bridge_node.Exec.Steps.{Relation, Steps, Each, Steps-bind}
use c_bridge_node.Exec.Views.{On}
use c_bridge_node.Dal.{
  update_where, insert_row, row_of, exec_table, now, insert_transfer, set_related_tx_preimage,
  confirm_transfer, refund_transfer, record_transfer_in, update_transfer_status,
  set_transfer_in_amount_and_fee, status_by_from, set_pending_transfer_in,
  set_transfer_status_by_from,
}
use c_bridge_node.Dal.Tables.{exec_table-Steps}
use c_bridge_node.Chain.{BridgeConfig, transact, confirm, refund}
use c_bridge_node.Node.Once.Quiet.{quiet_rules, now-Steps, transact-Steps}
use c_bridge_node.Node.Once.Phases.{
  Seen, pays, payments, Phase, unpaid, marked, over, InPhase, IsHarmless, IsHarmless-InPhase,
  update_where-IsHarmless, insert_row-IsHarmless,
}

pub same_payments :
    (tid : Hash) (k : ℕ) (p : Phase) (x : Sent) (t : List Row) (s : List Sent)
    → pays tid x ≡ false
    → InPhase tid k p t s
    → InPhase tid k p t (x ∷ s)
unfolding payments
same_payments tid k unpaid x t s other h = ground arith
same_payments tid k marked x t s other h = ground arith
same_payments tid k over x t s other h = rw other h

-- Every phase is kept.
unfoldable pub Steady : Hash → ℕ → Relation
Steady tid k = record {
  rel = λ t s t' s'. (p : Phase) → InPhase tid k p t s → InPhase tid k p t' s';
  reflexive = λ t s p h. h;
}

pub Steady-Keeps :
    {A : Type 0} (tid : Hash) (k : ℕ) (p : Phase) (m : M A)
    → Steps (Steady tid k) m
    → Keeps (On (Seen tid k p)) m
unfolding Steady
Steady-Keeps tid k p m steps = record { always = kept m steps.each }
  where
    kept :
        {A : Type 0} (n : M A)
        → Each (Steady tid k) n
        → Always (On (Seen tid k p)) (λ a. Unit {0}) n
    kept (done a) h = tt
    kept (act g next) h = λ w i. (record { holds = (h w).0 p i.holds }, kept (next w) (h w).1)

module _ (tid : Hash) (k : ℕ) where
  harmless-Steps :
      (f : List Row → List Row) → IsHarmless tid f → Steps (Steady tid k) (exec_table f)
  unfolding Steady
  harmless-Steps f harmless =
      exec_table-Steps f (λ t s p. IsHarmless-InPhase tid k p f harmless t s)

  -- An update that leaves the status alone, or gives one that does not wait for a payment.
  update-Steps :
      (q : Row → Bool) (f : Row → Row)
      → ((r : Row) → (f r).tid ≡ r.tid)
      → ((r : Row)
          → q r ≡ true
          → same_status r.status transfer_in_start ≡ false
          → same_status (f r).status transfer_in_start ≡ false)
      → Steps (Steady tid k) (exec_table (update_where q f))
  update-Steps q f same_tid not_back =
      harmless-Steps _ (update_where-IsHarmless tid q f same_tid not_back)

  pub insert_transfer-Steps : (tx : Transfer) → Steps (Steady tid k) (insert_transfer tx)
  unfolding insert_transfer
  insert_transfer-Steps tx =
      Steps-bind now _ now-Steps
        λ ts. harmless-Steps (insert_row (row_of ts tx)) (insert_row-IsHarmless tid (row_of ts tx))

  pub set_related_tx_preimage-Steps :
      (preimage related_tid : Hash)
      → Steps (Steady tid k) (set_related_tx_preimage preimage related_tid)
  unfolding set_related_tx_preimage
  set_related_tx_preimage-Steps preimage related_tid = update-Steps _ _ (λ r. refl) (λ r q h. h)

  pub confirm_transfer-Steps :
      (id preimage tx_hash : Hash) → Steps (Steady tid k) (confirm_transfer id preimage tx_hash)
  unfolding confirm_transfer
  confirm_transfer-Steps id preimage tx_hash = update-Steps _ _ (λ r. refl) (λ r q h. refl)

  pub refund_transfer-Steps :
      (id tx_hash : Hash) → Steps (Steady tid k) (refund_transfer id tx_hash)
  unfolding refund_transfer
  refund_transfer-Steps id tx_hash = update-Steps _ _ (λ r. refl) (λ r q h. refl)

  pub record_transfer_in-Steps :
      (id tx_hash : Hash) → Steps (Steady tid k) (record_transfer_in id tx_hash)
  unfolding record_transfer_in
  record_transfer_in-Steps id tx_hash = update-Steps _ _ (λ r. refl) (λ r q h. refl)

  pub update_refunded-Steps :
      (id : Hash) → Steps (Steady tid k) (update_transfer_status id refunded)
  unfolding update_transfer_status
  update_refunded-Steps id = update-Steps _ _ (λ r. refl) (λ r q h. refl)

  pub set_transfer_in_amount_and_fee-Steps :
      (id : Hash) (amount fee : ℤ)
      → Steps (Steady tid k) (set_transfer_in_amount_and_fee id amount fee)
  unfolding set_transfer_in_amount_and_fee
  set_transfer_in_amount_and_fee-Steps id amount fee = update-Steps _ _ (λ r. refl) (λ r q h. h)

  status_by_from-Steps :
      (id : Hash) (to from : TransferStatus)
      → same_status to transfer_in_start ≡ false
      → Steps (Steady tid k) (now >>= status_by_from id to from)
  unfolding status_by_from
  status_by_from-Steps id to from other =
      Steps-bind now _ now-Steps λ ts. update-Steps _ _ (λ r. refl) (λ r q h. other)

  pub set_pending-Steps :
      (id : Hash)
      → Steps (Steady tid k) (set_pending_transfer_in id transfer_in_pending transfer_in_start)
  unfolding set_pending_transfer_in
  set_pending-Steps id = status_by_from-Steps id _ _ refl

  pub to_locked-Steps :
      (id : Hash) → Steps (Steady tid k) (set_transfer_status_by_from id locked transfer_in_start)
  unfolding set_transfer_status_by_from
  to_locked-Steps id = status_by_from-Steps id _ _ refl

  pub to_confirm_pending-Steps :
      (id : Hash) → Steps (Steady tid k) (set_transfer_status_by_from id confirm_pending locked)
  unfolding set_transfer_status_by_from
  to_confirm_pending-Steps id = status_by_from-Steps id _ _ refl

  pub to_refund_pending-Steps :
      (id : Hash) → Steps (Steady tid k) (set_transfer_status_by_from id refund_pending locked)
  unfolding set_transfer_status_by_from
  to_refund_pending-Steps id = status_by_from-Steps id _ _ refl

  pub transact-Steady :
      (bc : BridgeConfig) (id : Hash) (call : Call)
      → ((outcome : Option Fault)
          → pays tid
              (record { chain = bc.chain_id; transfer_id = id; call = call; outcome = outcome })
            ≡ false)
      → Steps (Steady tid k) (transact bc id call)
  unfolding Steady
  transact-Steady bc id call other =
      transact-Steps bc id call λ t s outcome p h. same_payments tid k p _ t s (other outcome) h

  pub confirm-Steps :
      (bc : BridgeConfig) (a b c d : Hash) → Steps (Steady tid k) (confirm bc a b c d)
  unfolding confirm pays
  confirm-Steps bc a b c d = transact-Steady bc a _ (λ outcome. ground arith)

  pub refund-Steps : (bc : BridgeConfig) (a b c : Hash) → Steps (Steady tid k) (refund bc a b c)
  unfolding refund pays
  refund-Steps bc a b c = transact-Steady bc a _ (λ outcome. ground arith)

pub ruleset calm_rules = (
  quiet_rules, insert_transfer-Steps, set_related_tx_preimage-Steps, confirm_transfer-Steps,
  refund_transfer-Steps, record_transfer_in-Steps, update_refunded-Steps,
  set_transfer_in_amount_and_fee-Steps, set_pending-Steps, to_locked-Steps,
  to_confirm_pending-Steps, to_refund_pending-Steps, confirm-Steps, refund-Steps,
)
