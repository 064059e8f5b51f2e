-- ===== src/Server/TransferOut.antt =====
-- server/server.go: the callback of monitorLogTransferOut, which records a user's transfer out and
-- plans the transfer in that answers it. Its value is whether the monitor delivers the event again.
pub mod Amounts
pub mod TimeLocks
pub mod Delivery
pub mod Plans
use c_bridge_node.Base.{
  ℕ, zero, suc, ◌-◌, ◌*◌, ◌/◌, ◌%◌, ◌^◌, String, Bool, true, false, not, Option, none, some, ltb,
  ◌==◌, if◌then◌else◌,
}
use c_bridge_node.Base.Int.{ℤ, pos, ◌+ℤ◌, ◌-ℤ◌, ltb_ℤ, from_bits, int64}
use c_bridge_node.Base.Maps.{Eq, Map, lookup, read, nat_eq, string_eq}
use c_bridge_node.Wire.{Hash, Addr, zero_hash, locked, transfer_in_start, transfer_in, transfer_out}
use c_bridge_node.Transfer.{Time, Transfer, unix, from_unix, seconds}
use c_bridge_node.World.{World, Result, ok, err}
use c_bridge_node.Exec.{M, pure, gets, ◌>>=◌, ◌>>◌}
use c_bridge_node.Dal.{now, insert_transfer}
use c_bridge_node.Chain.{BridgeConfig}
use c_bridge_node.Server.{Server}

-- CBridgeLogNewTransferOut of contracts/cbridge.go; the log's own hash is the callback's argument.
pub record LogNewTransferOut : Type 0 where
  pub transfer_id : Hash
  pub sender : Addr
  pub receiver : Addr
  pub token : Addr
  pub amount : ℕ
  pub hashlock : Hash
  pub timelock : ℕ
  pub dst_chain_id : ℕ
  pub dst_address : Addr

-- How a callback ends: with its value, or by a panic.
pub data Outcome : Type 0 where
  returned : Bool → Outcome
  panicked : Outcome

-- p := uint64(1); for i < n { p = p * 10 }, modulo 2^64
unfoldable pub pow10_u64 : ℕ → ℕ
pow10_u64 zero = 1
pow10_u64 (suc n) = pow10_u64 n * 10 % 2 ^ 64

-- big.Int's Div, which panics at zero.
unfoldable pub big_div : ℕ → ℕ → Option ℕ
big_div a p = if p == 0 then none else some (a / p)

-- The amount in units of the destination's token; `none` is a panic.
unfoldable pub convert_amount : ℕ → ℕ → ℕ → Option ℕ
unfolding big_div
convert_amount amount src_decimal dst_decimal =
    if ltb dst_decimal src_decimal
    then big_div amount (pow10_u64 (src_decimal - dst_decimal))
    else if ltb src_decimal dst_decimal
    then some (amount * pow10_u64 (dst_decimal - src_decimal))
    else some amount

-- getTransferId; the chain id's decimal text is what SoliditySHA3 reads it from.
unfoldable pub get_transfer_id : Addr → Addr → Hash → ℕ → M Hash
get_transfer_id sender receiver hash_lock chain_id =
    gets (λ w. w.env.solidity_sha3 sender receiver hash_lock chain_id)

-- The seconds until the source's time lock, in int64.
unfoldable pub timeout_of : ℕ → Time → ℤ
timeout_of timelock ts_now = int64 (from_bits timelock -ℤ unix ts_now)

-- chain2TimeLock
unfoldable pub chain2_time_lock : Time → ℤ → Time
chain2_time_lock ts_now timeout = ts_now +ℤ seconds (int64 (timeout -ℤ pos 28800))

unfoldable pub transfer_out_of :
    BridgeConfig → LogNewTransferOut → Hash → Addr → Hash → Time → Transfer
transfer_out_of bc ev tx_hash dst_token related_tid ts_now = record {
  transfer_id = ev.transfer_id;
  tx_hash = tx_hash;
  chain_id = bc.chain_id;
  token = ev.token;
  transfer_type = transfer_out;
  time_lock = from_unix (from_bits ev.timelock);
  hash_lock = ev.hashlock;
  status = locked;
  related_tid = related_tid;
  related_chain_id = ev.dst_chain_id;
  related_token = dst_token;
  amount = pos ev.amount;
  fee = pos 0;
  transfer_gas_cost = pos 0;
  confirm_gas_cost = pos 0;
  refund_gas_cost = pos 0;
  preimage = zero_hash;
  sender = ev.sender;
  receiver = ev.receiver;
  tx_confirm_hash = zero_hash;
  tx_refund_hash = zero_hash;
  update_ts = ts_now;
  create_ts = ts_now;
}

unfoldable pub transfer_in_of :
    BridgeConfig → LogNewTransferOut → Addr → ℕ → Hash → Time → Time → Transfer
transfer_in_of bc ev dst_token dst_amount transfer_in_id time_lock ts_now = record {
  transfer_id = transfer_in_id;
  tx_hash = zero_hash;
  chain_id = ev.dst_chain_id;
  token = dst_token;
  transfer_type = transfer_in;
  time_lock = time_lock;
  hash_lock = ev.hashlock;
  status = transfer_in_start;
  related_tid = ev.transfer_id;
  related_chain_id = bc.chain_id;
  related_token = ev.token;
  amount = pos dst_amount;
  fee = pos 0;
  transfer_gas_cost = pos 0;
  confirm_gas_cost = pos 0;
  refund_gas_cost = pos 0;
  preimage = zero_hash;
  sender = ev.receiver;
  receiver = ev.dst_address;
  tx_confirm_hash = zero_hash;
  tx_refund_hash = zero_hash;
  update_ts = ts_now;
  create_ts = ts_now;
}

-- `if dbErr != nil { return true }`
unfoldable pub or_retry : Result (Unit {0}) → M Outcome → M Outcome
or_retry (ok u) next = next
or_retry (err e) next = pure (returned true)

-- `v, found := m[k]; if !found { return false }`
unfoldable pub or_give_up {ℓ} : {A : Type ℓ} → Option A → (A → M Outcome) → M Outcome
or_give_up none f = pure (returned false)
or_give_up (some a) f = f a

-- A division by zero ends the callback.
unfoldable pub or_panic : Option ℕ → (ℕ → M Outcome) → M Outcome
or_panic none f = pure panicked
or_panic (some a) f = f a

-- The second half: a transfer in, if the source's time lock leaves at least sixteen hours.
unfoldable pub plan_transfer_in : BridgeConfig → LogNewTransferOut → Addr → ℕ → Time → M Outcome
plan_transfer_in bc ev dst_token dst_amount ts_now =
    let timeout = timeout_of ev.timelock ts_now in
    if ltb_ℤ timeout (pos 57600) then pure (returned false) else do
      transfer_in_id ← get_transfer_id ev.receiver ev.dst_address ev.hashlock ev.dst_chain_id
      saved ← insert_transfer (
          transfer_in_of bc ev dst_token dst_amount transfer_in_id (chain2_time_lock ts_now timeout)
            ts_now)
      or_retry saved (pure (returned false))

unfoldable pub save_transfers :
    BridgeConfig → LogNewTransferOut → Hash → Addr → ℕ → Time → M Outcome
save_transfers bc ev tx_hash dst_token dst_amount ts_now = do
  related_tid ← get_transfer_id ev.receiver ev.dst_address ev.hashlock ev.dst_chain_id
  saved ← insert_transfer (transfer_out_of bc ev tx_hash dst_token related_tid ts_now)
  or_retry saved (plan_transfer_in bc ev dst_token dst_amount ts_now)

-- m[a][b], where a missing m[a] is an empty map.
unfoldable pub lookup_in {ℓ} :
    {K : Type 0} {V : Type ℓ} ⦃e : Eq K⦄ → Map ℕ (Map K V) → ℕ → K → Option V
lookup_in m a b = read (λ sub. lookup sub b) none (lookup m a)

unfoldable pub convert_and_save :
    Server → BridgeConfig → LogNewTransferOut → Hash → Time → M Outcome
convert_and_save s bc ev tx_hash ts_now =
    or_give_up (lookup_in s.chain_token_name_map bc.chain_id ev.token) λ token_name.
      or_give_up (lookup_in s.chain_token_addr_map ev.dst_chain_id token_name) λ dst_token.
        or_give_up (lookup_in s.chain_token_decimal_map bc.chain_id ev.token) λ src_decimal.
          or_give_up (lookup_in s.chain_token_decimal_map ev.dst_chain_id dst_token) λ dst_decimal.
            or_panic (convert_amount ev.amount src_decimal dst_decimal)
              λ dst_amount. save_transfers bc ev tx_hash dst_token dst_amount ts_now

unfoldable pub on_transfer_out : Server → BridgeConfig → LogNewTransferOut → Hash → M Outcome
on_transfer_out s bc ev tx_hash =
    if not (ev.receiver == s.account_addr)
    then pure (returned false)
    else or_give_up (lookup s.chain_map ev.dst_chain_id)
        λ dst. do ts_now ← now; convert_and_save s bc ev tx_hash ts_now

-- ParseEvent first: a log that cannot be parsed is not asked for again.
unfoldable pub monitor_log_transfer_out :
    Server → BridgeConfig → Option LogNewTransferOut → Hash → M Outcome
monitor_log_transfer_out s bc parsed tx_hash =
    or_give_up parsed λ ev. on_transfer_out s bc ev tx_hash
