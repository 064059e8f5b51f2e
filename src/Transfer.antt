-- ===== src/Transfer.antt =====
-- The table `transfer` of server/schema.sql, its rows as a scan returns them (`Transfer` of
-- server/dal.go), and Go's time.Time and time.Duration as the code uses them.
use c_bridge_node.Base.{ℕ, ◌/◌, ◌*◌, Option, none, some}
use c_bridge_node.Base.Int.{ℤ, pos, negsuc, ◌*ℤ◌, int64}
use c_bridge_node.Wire.{TransferStatus, TransferType, Hash, Addr, zero_hash}

-- A time.Time: nanoseconds since the Unix epoch. A time.Duration is an int64 of nanoseconds.
abbrev pub Time : Type 0
Time = ℤ

abbrev pub second : ℕ
second = 1000000000

abbrev pub minute : ℕ
minute = 60 * second

abbrev pub hour : ℕ
hour = 60 * minute

-- t.Unix() rounds down to whole seconds.
abbrev pub unix : Time → ℤ
unix (pos n) = pos (n / second)
unix (negsuc n) = negsuc (n / second)

-- time.Unix(s, 0)
abbrev pub from_unix : ℤ → Time
from_unix s = s *ℤ pos second

-- time.Duration(n) * time.Second
abbrev pub seconds : ℤ → ℤ
seconds n = int64 (n *ℤ pos second)

-- dal.go: timeLockSafeMargin, refundSafeMargin, maxPendingTimeOutRetryDuration
abbrev pub time_lock_safe_margin : ℕ
time_lock_safe_margin = 6 * minute

abbrev pub max_pending_time_out_retry_duration : ℕ
max_pending_time_out_retry_duration = 15 * minute

-- A row of the table. The column `preimage` holds '' (`none`) or the text of a hash.
pub record Row : Type 0 where
  pub tid : Hash
  pub tx_hash : Hash
  pub chain_id : ℕ
  pub token : Addr
  pub transfer_type : TransferType
  pub time_lock : Time
  pub hash_lock : Hash
  pub status : TransferStatus
  pub related_tid : Hash
  pub related_chain_id : ℕ
  pub related_token : Addr
  pub amount : ℤ
  pub fee : ℤ
  pub transfer_gas_cost : ℤ
  pub confirm_gas_cost : ℤ
  pub refund_gas_cost : ℤ
  pub preimage : Option Hash
  pub sender : Addr
  pub receiver : Addr
  pub tx_confirm_hash : Hash
  pub tx_refund_hash : Hash
  pub update_ts : Time
  pub create_ts : Time

pub record Transfer : Type 0 where
  pub transfer_id : Hash
  pub tx_hash : Hash
  pub chain_id : ℕ
  pub token : Addr
  pub transfer_type : TransferType
  pub time_lock : Time
  pub hash_lock : Hash
  pub status : TransferStatus
  pub related_tid : Hash
  pub related_chain_id : ℕ
  pub related_token : Addr
  pub amount : ℤ
  pub fee : ℤ
  pub transfer_gas_cost : ℤ
  pub confirm_gas_cost : ℤ
  pub refund_gas_cost : ℤ
  pub preimage : Hash
  pub sender : Addr
  pub receiver : Addr
  pub tx_confirm_hash : Hash
  pub tx_refund_hash : Hash
  pub update_ts : Time
  pub create_ts : Time

-- Hex2Hash of the column: the empty text gives the zero hash.
abbrev pub hex_to_hash : Option Hash → Hash
hex_to_hash none = zero_hash
hex_to_hash (some h) = h

unfoldable pub scan_transfer : Row → Transfer
scan_transfer r = record {
  transfer_id = r.tid;
  tx_hash = r.tx_hash;
  chain_id = r.chain_id;
  token = r.token;
  transfer_type = r.transfer_type;
  time_lock = r.time_lock;
  hash_lock = r.hash_lock;
  status = r.status;
  related_tid = r.related_tid;
  related_chain_id = r.related_chain_id;
  related_token = r.related_token;
  amount = r.amount;
  fee = r.fee;
  transfer_gas_cost = r.transfer_gas_cost;
  confirm_gas_cost = r.confirm_gas_cost;
  refund_gas_cost = r.refund_gas_cost;
  preimage = hex_to_hash r.preimage;
  sender = r.sender;
  receiver = r.receiver;
  tx_confirm_hash = r.tx_confirm_hash;
  tx_refund_hash = r.tx_refund_hash;
  update_ts = r.update_ts;
  create_ts = r.create_ts;
}
