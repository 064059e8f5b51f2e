-- ===== src/Dal.antt =====
-- server/dal.go: the statements that change the table `transfer`, and those on `monitor`. Each is an
-- action that may be refused by the database, and then changes nothing. A comparison of two
-- columns' texts is one of the values, since the texts of two hashes differ if the hashes do.
pub mod Queries
pub mod Monitor
pub mod Tables
pub mod Evolution
pub mod Statements
pub mod Reads
pub mod Lookups
pub mod Inserts
pub mod Rows
pub mod Stands
pub mod Store
use c_bridge_node.Base.{
  ℕ, suc, String, Bool, true, false, ◌&&◌, ◌||◌, Option, none, some, List, [], ◌∷◌, ◌++◌, ◌==◌,
  if◌then◌else◌,
}
use c_bridge_node.Base.Int.{ℤ}
use c_bridge_node.Base.Lists.{length, select}
use c_bridge_node.Base.Maps.{string_eq}
use c_bridge_node.Wire.{
  TransferStatus, confirmed, refunded, locked, transfer_in_start, transfer_in_pending, same_status,
  Hash,
}
use c_bridge_node.Transfer.{Time, Row, Transfer}
use c_bridge_node.World.{World, Env, Fault, db_refused, Result, ok, err, MonitorRow}
use c_bridge_node.Exec.{M, pure, ask, gets, modify, ◌>>=◌, ◌>>◌}

-- UPDATE transfer SET … WHERE …
unfoldable pub update_where : (Row → Bool) → (Row → Row) → List Row → List Row
update_where p f [] = []
update_where p f (r ∷ rs) = (if p r then f r else r) ∷ update_where p f rs

-- Whether a row has this primary key.
unfoldable pub has_tid : Hash → List Row → Bool
has_tid tid [] = false
has_tid tid (r ∷ rs) = r.tid == tid || has_tid tid rs

-- INSERT … ON CONFLICT DO NOTHING
unfoldable pub insert_row : Row → List Row → List Row
unfolding has_tid
insert_row r rs = if has_tid r.tid rs then rs else rs ++ r ∷ []

unless_fault : Option Fault → (List Row → List Row) → M (Result (Unit {0}))
unless_fault (some e) f = pure (err e)
unless_fault none f = do modify (λ w. record w { table = f w.table }); pure (ok tt)

-- d.Exec of a statement on the table.
unfoldable pub exec_table : (List Row → List Row) → M (Result (Unit {0}))
unfolding unless_fault ◌>>=◌
exec_table f = do fault ← ask (λ env n. env.db_fault n); unless_fault fault f

unfoldable pub now : M Time
unfolding ask
now = ask (λ env n. env.clock n)

-- The row that InsertTransfer writes: the preimage is '', both time stamps are its own reading.
unfoldable pub row_of : Time → Transfer → Row
row_of ts_now tx = record {
  tid = tx.transfer_id;
  tx_hash = tx.tx_hash;
  chain_id = tx.chain_id;
  token = tx.token;
  transfer_type = tx.transfer_type;
  time_lock = tx.time_lock;
  hash_lock = tx.hash_lock;
  status = tx.status;
  related_tid = tx.related_tid;
  related_chain_id = tx.related_chain_id;
  related_token = tx.related_token;
  amount = tx.amount;
  fee = tx.fee;
  transfer_gas_cost = tx.transfer_gas_cost;
  confirm_gas_cost = tx.confirm_gas_cost;
  refund_gas_cost = tx.refund_gas_cost;
  preimage = none;
  sender = tx.sender;
  receiver = tx.receiver;
  tx_confirm_hash = tx.tx_confirm_hash;
  tx_refund_hash = tx.tx_refund_hash;
  update_ts = ts_now;
  create_ts = ts_now;
}

unfoldable pub insert_transfer : Transfer → M (Result (Unit {0}))
insert_transfer tx = do ts_now ← now; exec_table (insert_row (row_of ts_now tx))

unfoldable pub set_related_tx_preimage : Hash → Hash → M (Result (Unit {0}))
set_related_tx_preimage preimage related_tid =
    exec_table (
      update_where (λ r. r.related_tid == related_tid) (λ r. record r { preimage = some preimage }))

unfoldable pub confirm_transfer : Hash → Hash → Hash → M (Result (Unit {0}))
confirm_transfer tid preimage tx_confirm_hash = exec_table (
    update_where (λ r. r.tid == tid)
      (λ r. record r {
        status = confirmed;
        preimage = some preimage;
        tx_confirm_hash = tx_confirm_hash;
      }))

unfoldable pub refund_transfer : Hash → Hash → M (Result (Unit {0}))
refund_transfer tid tx_refund_hash = exec_table (
    update_where (λ r. r.tid == tid)
      (λ r. record r { status = refunded; tx_refund_hash = tx_refund_hash }))

unfoldable pub record_transfer_in : Hash → Hash → M (Result (Unit {0}))
record_transfer_in tid tx_hash = exec_table (
    update_where
      (λ r.
        r.tid == tid
        && (same_status r.status transfer_in_start || same_status r.status transfer_in_pending))
      (λ r. record r { status = locked; tx_hash = tx_hash }))

unfoldable pub update_transfer_status : Hash → TransferStatus → M (Result (Unit {0}))
update_transfer_status tid to =
    exec_table (update_where (λ r. r.tid == tid) (λ r. record r { status = to }))

refused_anyway : Option Fault → Result (Unit {0})
refused_anyway none = err db_refused
refused_anyway (some e) = err e

-- `status` is an INT column (server/schema.sql), so the database refuses the text of a hash for it.
unfoldable pub set_transfer_preimage : Hash → Hash → M (Result (Unit {0}))
unfolding refused_anyway
set_transfer_preimage tid preimage = do
  fault ← ask (λ env n. env.db_fault n)
  pure (refused_anyway fault)

unfoldable pub set_transfer_in_amount_and_fee : Hash → ℤ → ℤ → M (Result (Unit {0}))
set_transfer_in_amount_and_fee tid amount fee =
    exec_table (update_where (λ r. r.tid == tid) (λ r. record r { amount = amount; fee = fee }))

-- SetPendingTransferIn and SetTransferStatusByFrom are one statement.
unfoldable pub status_by_from :
    Hash → TransferStatus → TransferStatus → Time → M (Result (Unit {0}))
status_by_from tid to from ts_now = exec_table (
    update_where (λ r. r.tid == tid && same_status r.status from)
      (λ r. record r { status = to; update_ts = ts_now }))

unfoldable pub set_pending_transfer_in :
    Hash → TransferStatus → TransferStatus → M (Result (Unit {0}))
set_pending_transfer_in tid to from = do ts_now ← now; status_by_from tid to from ts_now

unfoldable pub set_transfer_status_by_from :
    Hash → TransferStatus → TransferStatus → M (Result (Unit {0}))
set_transfer_status_by_from tid to from = do ts_now ← now; status_by_from tid to from ts_now
