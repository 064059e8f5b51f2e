-- ===== src/Dal/Queries.antt =====
-- server/dal.go: the SELECT statements on the table `transfer`. A refused query, or a row that
-- cannot be scanned, gives the error and no rows.
pub mod Newest
use c_bridge_node.Base.{
  ℕ, Bool, true, false, ◌&&◌, Option, none, some, List, [], ◌∷◌, map, ◌==◌, if◌then◌else◌,
}
use c_bridge_node.Base.Int.{pos, ◌+ℤ◌, ◌-ℤ◌, ltb_ℤ}
use c_bridge_node.Base.Lists.{take, select, head?}
use c_bridge_node.Wire.{
  undefined, locked, transfer_in_start, transfer_in_pending, confirm_pending, refund_pending,
  same_status, type_undefined, transfer_in, same_type, Hash, zero_hash,
}
use c_bridge_node.Transfer.{
  Time, Row, Transfer, scan_transfer, hour, time_lock_safe_margin,
  max_pending_time_out_retry_duration,
}
use c_bridge_node.World.{Fault, no_rows, Result, ok, err}
use c_bridge_node.Exec.{M, pure, ask, gets, ◌>>=◌}
use c_bridge_node.Dal.{now}

unfoldable pub rows_unless : Option Fault → List Transfer → Result (List Transfer)
rows_unless none txs = ok txs
rows_unless (some e) txs = err e

-- d.Query, and a scan of each row that it selects. The code asks no rows.Err(); an iteration that breaks
-- off, and then gives the rows before with no error, is not modelled.
unfoldable pub query : (List Row → List Row) → M (Result (List Transfer))
unfolding rows_unless
query q = do
  fault ← ask (λ env n. env.db_fault n)
  rows ← gets (λ w. q w.table)
  pure (rows_unless fault (map scan_transfer rows))

unfoldable pub get_all_transfers : M (Result (List Transfer))
get_all_transfers = query (λ rows. rows)

-- ORDER BY createts DESC
insert_newest_first : Row → List Row → List Row
insert_newest_first r [] = r ∷ []
insert_newest_first r (s ∷ rs) =
    if ltb_ℤ r.create_ts s.create_ts then s ∷ insert_newest_first r rs else r ∷ s ∷ rs

unfoldable pub newest_first : List Row → List Row
unfolding insert_newest_first
newest_first [] = []
newest_first (r ∷ rs) = insert_newest_first r (newest_first rs)

unfoldable pub get_all_transfers_with_limit : ℕ → M (Result (List Transfer))
get_all_transfers_with_limit limit = query (λ rows. take limit (newest_first rows))

unfoldable pub startable : Time → Row → Bool
startable ts_now r =
    same_status r.status transfer_in_start
    && ltb_ℤ (ts_now +ℤ pos hour) r.time_lock
    && same_type r.transfer_type transfer_in

unfoldable pub get_all_start_transfer_in : M (Result (List Transfer))
get_all_start_transfer_in = do ts_now ← now; query (select (startable ts_now))

-- `preimage is not null and preimage != ''`
abbrev pub has_preimage : Option Hash → Bool
has_preimage none = false
has_preimage (some h) = true

unfoldable pub confirmable : Row → Bool
confirmable r = same_status r.status locked && has_preimage r.preimage

unfoldable pub get_all_confirmable_locked_transfer : M (Result (List Transfer))
get_all_confirmable_locked_transfer = query (select confirmable)

abbrev stale : Time → Row → Bool
stale ts_now r = ltb_ℤ r.update_ts (ts_now -ℤ pos max_pending_time_out_retry_duration)

abbrev unexpired : Time → Row → Bool
unexpired ts_now r = ltb_ℤ (ts_now +ℤ pos time_lock_safe_margin) r.time_lock

unfoldable pub timeout_pending_transfer_in : Time → Row → Bool
timeout_pending_transfer_in ts_now r =
    same_status r.status transfer_in_pending
    && stale ts_now r
    && same_type r.transfer_type transfer_in
    && unexpired ts_now r

unfoldable pub get_recover_timeout_pending_transfer_in : M (Result (List Transfer))
get_recover_timeout_pending_transfer_in = do
  ts_now ← now
  query (select (timeout_pending_transfer_in ts_now))

unfoldable pub timeout_pending_confirm : Time → Row → Bool
timeout_pending_confirm ts_now r =
    same_status r.status confirm_pending && stale ts_now r && unexpired ts_now r

unfoldable pub get_recover_timeout_pending_confirm : M (Result (List Transfer))
get_recover_timeout_pending_confirm = do
  ts_now ← now
  query (select (timeout_pending_confirm ts_now))

unfoldable pub timeout_pending_refund : Time → Row → Bool
timeout_pending_refund ts_now r = same_status r.status refund_pending && stale ts_now r

unfoldable pub get_recover_timeout_pending_refund : M (Result (List Transfer))
get_recover_timeout_pending_refund = do ts_now ← now; query (select (timeout_pending_refund ts_now))

unfoldable pub refundable : Time → Row → Bool
refundable ts_now r =
    same_status r.status locked && ltb_ℤ r.time_lock ts_now && same_type r.transfer_type transfer_in

unfoldable pub get_all_refund_able_transfer_in : M (Result (List Transfer))
get_all_refund_able_transfer_in = do ts_now ← now; query (select (refundable ts_now))

-- &Transfer{}, which a scan that fails leaves as it is.
abbrev pub blank_transfer : Transfer
blank_transfer = record {
  transfer_id = zero_hash;
  tx_hash = zero_hash;
  chain_id = 0;
  token = 0;
  transfer_type = type_undefined;
  time_lock = pos 0;
  hash_lock = zero_hash;
  status = undefined;
  related_tid = zero_hash;
  related_chain_id = 0;
  related_token = 0;
  amount = pos 0;
  fee = pos 0;
  transfer_gas_cost = pos 0;
  confirm_gas_cost = pos 0;
  refund_gas_cost = pos 0;
  preimage = zero_hash;
  sender = 0;
  receiver = 0;
  tx_confirm_hash = zero_hash;
  tx_refund_hash = zero_hash;
  update_ts = pos 0;
  create_ts = pos 0;
}

unfoldable pub scan_row : Option Fault → Option Row → Transfer × Option Fault
scan_row (some e) r = (blank_transfer, some e)
scan_row none none = (blank_transfer, some no_rows)
scan_row none (some r) = (scan_transfer r, none)

-- d.QueryRow: the first row that is selected, with the result of sqldb.ChkQueryRow.
unfoldable pub query_row : (Row → Bool) → M (Transfer × Result Bool)
query_row p = do
  fault ← ask (λ env n. env.db_fault n)
  found ← gets (λ w. head? (select p w.table))
  let tx_err = scan_row fault found
  checked ← gets (λ w. w.env.chk_query_row tx_err.1)
  pure (tx_err.0, checked)

unfoldable pub get_transfer_by_tid : Hash → M (Transfer × Result Bool)
get_transfer_by_tid tid = query_row (λ r. r.tid == tid)

unfoldable pub get_transfer_by_related_tid : Hash → M (Transfer × Result Bool)
get_transfer_by_related_tid related_tid = query_row (λ r. r.related_tid == related_tid)
