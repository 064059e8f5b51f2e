-- ===== src/Dal/Statements.antt =====
-- What each statement of server/dal.go keeps: the rows' identities, their way through the stages,
-- and the primary key.
use c_bridge_node.Base.{◌≤◌, ◌≡◌, refl, Bool, true, List, arith}
use c_bridge_node.Base.Int.{ℤ, ◌+ℤ◌}
use c_bridge_node.Wire.{TransferStatus, same_status-eq, Hash}
use c_bridge_node.Transfer.{Time, Row, Transfer}
use c_bridge_node.Exec.Keeps.{Keeps, Keeps-bind}
use c_bridge_node.Exec.Views.{View, On, Keeps-ask}
use c_bridge_node.Dal.{
  update_where, insert_row, row_of, exec_table, now, insert_transfer, set_related_tx_preimage,
  confirm_transfer, refund_transfer, record_transfer_in, update_transfer_status,
  set_transfer_in_amount_and_fee, status_by_from, set_pending_transfer_in,
  set_transfer_status_by_from,
}
use c_bridge_node.Dal.Tables.{Keeps-exec_table}
use c_bridge_node.Dal.Evolution.{
  Progress, Progress-refl, Progress-trans, stage, Evolves, Evolves-update_where, Evolves-insert_row,
  Evolves-trans, HasKeys, HasTotal, Evolves-set_total, update_where-HasKeys, insert_row-HasKeys,
}

-- The table has come from an earlier one, and its primary key holds.
unfoldable pub Progressed : List Row → View
Progressed t₀ env t s = Evolves Progress t₀ t × HasKeys t

pub Keeps-now : {V : View} → Keeps (On V) now
unfolding now
Keeps-now = Keeps-ask (λ env n. env.clock n)

module _ (t₀ : List Row) where
  Progressed-update :
      (p : Row → Bool) (f : Row → Row)
      → ((r : Row) → p r ≡ true → Progress r (f r))
      → ((r : Row) → (f r).tid ≡ r.tid)
      → Keeps (On (Progressed t₀)) (exec_table (update_where p f))
  unfolding Progressed
  Progressed-update p f hit keeps = Keeps-exec_table (update_where p f) λ env t s h. (
    Evolves-trans Progress Progress-trans t₀ t (update_where p f t) h.0
        (Evolves-update_where Progress Progress-refl p f t hit),
    update_where-HasKeys p f t keeps h.1,
  )

  pub Progressed-insert_transfer : (tx : Transfer) → Keeps (On (Progressed t₀)) (insert_transfer tx)
  unfolding insert_transfer Progressed
  Progressed-insert_transfer tx =
      Keeps-bind now (λ ts_now. exec_table (insert_row (row_of ts_now tx))) Keeps-now
        λ ts_now. Keeps-exec_table (insert_row (row_of ts_now tx)) λ env t s h. (
          Evolves-trans Progress Progress-trans t₀ t (insert_row (row_of ts_now tx) t) h.0
              (Evolves-insert_row Progress Progress-refl (row_of ts_now tx) t),
          insert_row-HasKeys (row_of ts_now tx) t h.1,
        )

  pub Progressed-set_related_tx_preimage :
      (preimage related_tid : Hash)
      → Keeps (On (Progressed t₀)) (set_related_tx_preimage preimage related_tid)
  unfolding set_related_tx_preimage
  Progressed-set_related_tx_preimage preimage related_tid =
      Progressed-update _ _ (λ r e. record { same = refl; forward = omega arith; total = refl })
        (λ r. refl)

  pub Progressed-confirm_transfer :
      (tid preimage tx_hash : Hash)
      → Keeps (On (Progressed t₀)) (confirm_transfer tid preimage tx_hash)
  unfolding confirm_transfer
  Progressed-confirm_transfer tid preimage tx_hash =
      Progressed-update _ _ (λ r e. record { same = refl; forward = ground arith; total = refl })
        (λ r. refl)

  pub Progressed-refund_transfer :
      (tid tx_hash : Hash) → Keeps (On (Progressed t₀)) (refund_transfer tid tx_hash)
  unfolding refund_transfer
  Progressed-refund_transfer tid tx_hash =
      Progressed-update _ _ (λ r e. record { same = refl; forward = ground arith; total = refl })
        (λ r. refl)

  pub Progressed-record_transfer_in :
      (tid tx_hash : Hash) → Keeps (On (Progressed t₀)) (record_transfer_in tid tx_hash)
  unfolding record_transfer_in
  Progressed-record_transfer_in tid tx_hash =
      Progressed-update _ _ (λ r e. record { same = refl; forward = ground arith; total = refl })
        (λ r. refl)

  pub Progressed-update_transfer_status :
      (tid : Hash) (to : TransferStatus)
      → 3 ≤ stage to
      → Keeps (On (Progressed t₀)) (update_transfer_status tid to)
  unfolding update_transfer_status
  Progressed-update_transfer_status tid to settled =
      Progressed-update _ _ (λ r e. record { same = refl; forward = ground arith; total = refl })
        (λ r. refl)

  -- The new amount and fee must add up to the total that the row came with.
  pub Progressed-set_transfer_in_amount_and_fee :
      (tid : Hash) (amount fee : ℤ)
      → HasTotal t₀ tid (amount +ℤ fee)
      → Keeps (On (Progressed t₀)) (set_transfer_in_amount_and_fee tid amount fee)
  unfolding set_transfer_in_amount_and_fee Progressed
  Progressed-set_transfer_in_amount_and_fee tid amount fee total = Keeps-exec_table _ λ env t s h.
      (Evolves-set_total tid amount fee t₀ t total h.0, update_where-HasKeys _ _ t (λ r. refl) h.1)

  Progressed-status_by_from :
      (tid : Hash) (to from : TransferStatus) (ts_now : Time)
      → stage from ≤ stage to
      → Keeps (On (Progressed t₀)) (status_by_from tid to from ts_now)
  unfolding status_by_from
  Progressed-status_by_from tid to from ts_now fwd =
      Progressed-update _ _
        (λ r e. record {
          same = refl;
          forward = ground (arith, same_status-eq r.status from);
          total = refl;
        })
        (λ r. refl)

  pub Progressed-set_pending_transfer_in :
      (tid : Hash) (to from : TransferStatus)
      → stage from ≤ stage to
      → Keeps (On (Progressed t₀)) (set_pending_transfer_in tid to from)
  unfolding set_pending_transfer_in
  Progressed-set_pending_transfer_in tid to from fwd =
      Keeps-bind now (status_by_from tid to from) Keeps-now
        λ ts_now. Progressed-status_by_from tid to from ts_now fwd

  pub Progressed-set_transfer_status_by_from :
      (tid : Hash) (to from : TransferStatus)
      → stage from ≤ stage to
      → Keeps (On (Progressed t₀)) (set_transfer_status_by_from tid to from)
  unfolding set_transfer_status_by_from
  Progressed-set_transfer_status_by_from tid to from fwd =
      Keeps-bind now (status_by_from tid to from) Keeps-now
        λ ts_now. Progressed-status_by_from tid to from ts_now fwd
