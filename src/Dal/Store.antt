-- ===== src/Dal/Store.antt =====
-- The table `transfer` as a map from transfer ids to rows, in which the order of the rows is
-- forgotten, and what each statement of server/dal.go means for it.
pub mod Refines
use c_bridge_node.Base.{
  ℕ, Bool, true, false, ◌&&◌, ◌||◌, Option, none, some, List, [], ◌∷◌, ◌==◌, if◌then◌else◌,
}
use c_bridge_node.Base.Int.{ℤ}
use c_bridge_node.Wire.{
  TransferStatus, confirmed, refunded, locked, transfer_in_start, transfer_in_pending, same_status,
  Hash,
}
use c_bridge_node.Transfer.{Time, Row, Transfer}
use c_bridge_node.World.{Result}
use c_bridge_node.Exec.{M}
use c_bridge_node.Dal.{
  row_of, insert_transfer, set_related_tx_preimage, confirm_transfer, refund_transfer,
  record_transfer_in, update_transfer_status, set_transfer_in_amount_and_fee,
  set_pending_transfer_in, set_transfer_status_by_from, set_transfer_preimage,
}

abbrev pub Store : Type 0
Store = Hash → Option Row

-- The row of an id.
unfoldable pub store_of : List Row → Store
store_of [] tid = none
store_of (r ∷ rs) tid = if r.tid == tid then some r else store_of rs tid

-- The statements that the node executes on the table.
pub data Statement : Type 0 where
  insert : Transfer → Statement
  set_preimage : Hash → Hash → Statement
  confirm : Hash → Hash → Hash → Statement
  refund : Hash → Hash → Statement
  record_in : Hash → Hash → Statement
  set_status : Hash → TransferStatus → Statement
  set_amount : Hash → ℤ → ℤ → Statement
  preimage_as_status : Hash → Hash → Statement
  set_pending : Hash → TransferStatus → TransferStatus → Statement
  set_from : Hash → TransferStatus → TransferStatus → Statement

unfoldable pub execute : Statement → M (Result (Unit {0}))
execute (insert tx) = insert_transfer tx
execute (set_preimage preimage related_tid) = set_related_tx_preimage preimage related_tid
execute (confirm tid preimage tx_hash) = confirm_transfer tid preimage tx_hash
execute (refund tid tx_hash) = refund_transfer tid tx_hash
execute (record_in tid tx_hash) = record_transfer_in tid tx_hash
execute (set_status tid to) = update_transfer_status tid to
execute (set_amount tid amount fee) = set_transfer_in_amount_and_fee tid amount fee
execute (preimage_as_status tid preimage) = set_transfer_preimage tid preimage
execute (set_pending tid to from) = set_pending_transfer_in tid to from
execute (set_from tid to from) = set_transfer_status_by_from tid to from

-- A new row where there is none.
abbrev pub or_new : Option Row → Row → Option Row
or_new none r = some r
or_new (some old) r = some old

abbrev pub on_row : (Row → Row) → Option Row → Option Row
on_row f none = none
on_row f (some r) = some (f r)

-- The map changes at one id only.
abbrev pub at : Hash → (Option Row → Option Row) → Store → Store
at tid f store k = if k == tid then f (store k) else store k

abbrev pub move : TransferStatus → TransferStatus → Time → Row → Row
move to from ts_now r =
    if same_status r.status from then record r { status = to; update_ts = ts_now } else r

-- What a statement at a time makes of the map.
unfoldable pub meaning : Statement → Time → Store → Store
meaning (insert tx) ts store k = at tx.transfer_id (λ o. or_new o (row_of ts tx)) store k
meaning (set_preimage preimage related_tid) ts store k =
    on_row (λ r. if r.related_tid == related_tid then record r { preimage = some preimage } else r)
      (store k)
meaning (confirm tid preimage tx_hash) ts store k =
    at tid
      (on_row
        (λ r. record r { status = confirmed; preimage = some preimage; tx_confirm_hash = tx_hash }))
      store k
meaning (refund tid tx_hash) ts store k =
    at tid (on_row (λ r. record r { status = refunded; tx_refund_hash = tx_hash })) store k
meaning (record_in tid tx_hash) ts store k =
    at tid
      (on_row (λ r.
        if same_status r.status transfer_in_start || same_status r.status transfer_in_pending
        then record r { status = locked; tx_hash = tx_hash }
        else r))
      store k
meaning (set_status tid to) ts store k = at tid (on_row (λ r. record r { status = to })) store k
meaning (set_amount tid amount fee) ts store k =
    at tid (on_row (λ r. record r { amount = amount; fee = fee })) store k
meaning (preimage_as_status tid preimage) ts store k = store k
meaning (set_pending tid to from) ts store k = at tid (on_row (move to from ts)) store k
meaning (set_from tid to from) ts store k = at tid (on_row (move to from ts)) store k
