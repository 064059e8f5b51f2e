-- ===== src/Dal/Rows.antt =====
-- What every row of the table has: laws under which a predicate of rows is kept by the statements of
-- server/dal.go as the handlers use them.
use c_bridge_node.Base.{◌≡◌, true, arith, some, Bool}
use c_bridge_node.Base.Int.{ℤ}
use c_bridge_node.Base.Lists.{All}
use c_bridge_node.Wire.{
  Hash, TransferStatus, locked, confirmed, refunded, transfer_in_start, transfer_in_pending,
  confirm_pending, refund_pending, same_status-eq,
}
use c_bridge_node.Transfer.{Row, Time, Transfer}
use c_bridge_node.Exec.Keeps.{Keeps, Keeps-bind}
use c_bridge_node.Exec.Views.{View, On}
use c_bridge_node.Dal.{
  update_where, insert_row, row_of, exec_table, now, insert_transfer, set_related_tx_preimage,
  confirm_transfer, refund_transfer, record_transfer_in, update_transfer_status,
  set_transfer_in_amount_and_fee, status_by_from, set_pending_transfer_in,
  set_transfer_status_by_from,
}
use c_bridge_node.Dal.Tables.{Keeps-exec_table, All-update_where, All-insert_row}
use c_bridge_node.Dal.Statements.{Keeps-now}

-- The changes of a status that ask for the status before.
pub data Moves : TransferStatus → TransferStatus → Type 0 where
  start-pending : Moves transfer_in_start transfer_in_pending
  start-locked : Moves transfer_in_start locked
  pending-start : Moves transfer_in_pending transfer_in_start
  locked-confirming : Moves locked confirm_pending
  locked-refunding : Moves locked refund_pending
  confirming-locked : Moves confirm_pending locked
  refunding-locked : Moves refund_pending locked

-- `P` holds after each change of a row if it held before.
pub record RowLaws (P : Row → Type 0) : Type 0 where
  pub on_preimage : (r : Row) (h : Hash) → P r → P (record r { preimage = some h })
  pub on_confirm :
      (r : Row) (h tx_hash : Hash)
      → P r
      → P (record r { status = confirmed; preimage = some h; tx_confirm_hash = tx_hash })
  pub on_refund :
      (r : Row) (tx_hash : Hash)
      → P r
      → P (record r { status = refunded; tx_refund_hash = tx_hash })
  pub on_record :
      (r : Row) (tx_hash : Hash) → P r → P (record r { status = locked; tx_hash = tx_hash })
  pub on_refunded : (r : Row) → P r → P (record r { status = refunded })
  pub on_amounts : (r : Row) (a b : ℤ) → P r → P (record r { amount = a; fee = b })
  pub on_move :
      (r : Row) (from to : TransferStatus) (ts : Time)
      → Moves from to
      → r.status ≡ from
      → P r
      → P (record r { status = to; update_ts = ts })

-- Every row of the table has it.
unfoldable pub Rows : (Row → Type 0) → View
Rows P env t s = All P t

module _ (P : Row → Type 0) (laws : RowLaws P) where
  Rows-update :
      (p : Row → Bool) (f : Row → Row)
      → ((r : Row) → P r → p r ≡ true → P (f r))
      → Keeps (On (Rows P)) (exec_table (update_where p f))
  unfolding Rows
  Rows-update p f hit =
      Keeps-exec_table (update_where p f) λ env t s h. All-update_where p f t hit (λ r hr e. hr) h

  pub Rows-insert_transfer :
      (tx : Transfer) → ((ts : Time) → P (row_of ts tx)) → Keeps (On (Rows P)) (insert_transfer tx)
  unfolding insert_transfer Rows
  Rows-insert_transfer tx new = Keeps-bind now _ Keeps-now λ ts_now.
      Keeps-exec_table (insert_row (row_of ts_now tx))
        λ env t s h. All-insert_row P (row_of ts_now tx) t (new ts_now) h

  pub Rows-set_related_tx_preimage :
      (preimage related_tid : Hash)
      → Keeps (On (Rows P)) (set_related_tx_preimage preimage related_tid)
  unfolding set_related_tx_preimage
  Rows-set_related_tx_preimage preimage related_tid =
      Rows-update _ _ (λ r h e. laws.on_preimage r preimage h)

  pub Rows-confirm_transfer :
      (tid preimage tx_hash : Hash) → Keeps (On (Rows P)) (confirm_transfer tid preimage tx_hash)
  unfolding confirm_transfer
  Rows-confirm_transfer tid preimage tx_hash =
      Rows-update _ _ (λ r h e. laws.on_confirm r preimage tx_hash h)

  pub Rows-refund_transfer :
      (tid tx_hash : Hash) → Keeps (On (Rows P)) (refund_transfer tid tx_hash)
  unfolding refund_transfer
  Rows-refund_transfer tid tx_hash = Rows-update _ _ (λ r h e. laws.on_refund r tx_hash h)

  pub Rows-record_transfer_in :
      (tid tx_hash : Hash) → Keeps (On (Rows P)) (record_transfer_in tid tx_hash)
  unfolding record_transfer_in
  Rows-record_transfer_in tid tx_hash = Rows-update _ _ (λ r h e. laws.on_record r tx_hash h)

  pub Rows-refunded : (tid : Hash) → Keeps (On (Rows P)) (update_transfer_status tid refunded)
  unfolding update_transfer_status
  Rows-refunded tid = Rows-update _ _ (λ r h e. laws.on_refunded r h)

  pub Rows-set_transfer_in_amount_and_fee :
      (tid : Hash) (amount fee : ℤ)
      → Keeps (On (Rows P)) (set_transfer_in_amount_and_fee tid amount fee)
  unfolding set_transfer_in_amount_and_fee
  Rows-set_transfer_in_amount_and_fee tid amount fee =
      Rows-update _ _ (λ r h e. laws.on_amounts r amount fee h)

  Rows-status_by_from :
      (tid : Hash) (to from : TransferStatus) (ts_now : Time)
      → Moves from to
      → Keeps (On (Rows P)) (status_by_from tid to from ts_now)
  unfolding status_by_from
  Rows-status_by_from tid to from ts_now move =
      Rows-update _ _
        λ r h e. laws.on_move r from to ts_now move (same_status-eq r.status from (ground arith)) h

  pub Rows-set_pending_transfer_in :
      (tid : Hash) (to from : TransferStatus)
      → Moves from to
      → Keeps (On (Rows P)) (set_pending_transfer_in tid to from)
  unfolding set_pending_transfer_in
  Rows-set_pending_transfer_in tid to from move =
      Keeps-bind now (status_by_from tid to from) Keeps-now
        λ ts_now. Rows-status_by_from tid to from ts_now move

  pub Rows-set_transfer_status_by_from :
      (tid : Hash) (to from : TransferStatus)
      → Moves from to
      → Keeps (On (Rows P)) (set_transfer_status_by_from tid to from)
  unfolding set_transfer_status_by_from
  Rows-set_transfer_status_by_from tid to from move =
      Keeps-bind now (status_by_from tid to from) Keeps-now
        λ ts_now. Rows-status_by_from tid to from ts_now move
