-- ===== src/Examples.antt =====
-- A node on two chains, with a database and a gateway that answer, for the tests and the instances
-- of the theorems.
pub mod Runs
pub mod Services
pub mod Jobs
pub mod Helpers
pub mod Starts
pub mod Ticks
pub mod Pages
pub mod Answers
use c_bridge_node.Base.{
  ℕ, ◌==◌, ◌+◌, ◌-◌, ◌*◌, String, Bool, true, false, Option, none, some, List, [], ◌∷◌, ltb, leb,
  if◌then◌else◌,
}
use c_bridge_node.Base.Int.{ℤ, pos, negsuc}
use c_bridge_node.Wire.{
  Hash, Addr, ChainConfig, TokenConfig, TransferStatus, TransferType, transfer_in, transfer_out,
  locked, transfer_in_start,
}
use c_bridge_node.Transfer.{Row, second, hour}
use c_bridge_node.World.{
  Env, World, Fault, no_rows, gateway_failed, Result, ok, err, TransferInfo, Call,
}
use c_bridge_node.Chain.{BridgeConfig}
use c_bridge_node.Server.{Server}
use c_bridge_node.Server.TransferOut.{LogNewTransferOut}

-- Noon of some day, in seconds.
abbrev pub noon : ℕ
noon = 1700000000

-- ChkExec wants one row; ChkQueryRow takes "no rows" for "not found".
abbrev pub one_row : Option Fault → ℕ → ℕ → Option Fault
one_row (some e) n expected = some e
one_row none n expected = if n == expected then none else some no_rows

abbrev pub found_row : Option Fault → Result Bool
found_row none = ok true
found_row (some no_rows) = ok false
found_row (some e) = err e

-- The contract's answer about every transfer has this status.
abbrev pub chain_says : ℕ → TransferInfo
chain_says status = record {
  sender = 11;
  receiver = 22;
  token = 1;
  amount = 0;
  hash_lock = 77;
  time_lock = 0;
  status = status;
}

abbrev pub env_with : ℕ → Env
env_with status = record {
  clock = λ n. pos (noon * second);
  db_fault = λ n. none;
  chk_exec = one_row;
  chk_query_row = found_row;
  current_block = λ n chain. 100;
  transfers = λ n chain block tid. ok (chain_says status);
  transact = λ n chain call. none;
  balance_of = λ n chain token. ok 5;
  sign = λ n addr. ok (1 ∷ []);
  rpc_get_fee = λ n tid. ok (record { err = none; fee = "30" });
  rpc_ping = λ n req. err gateway_failed;
  connect = λ n id. ok id;
  bind_token = λ n chain token. none;
  allowance = λ n chain token. ok 0;
  approve = λ n chain token amount. none;
  wait_mined = λ n chain token. none;
  solidity_sha3 = λ a b c d. 500 + d;
}

abbrev pub chain_config : ℕ → ChainConfig
chain_config id = record {
  chain_id = id;
  token_config = record { token_name = "USDT"; token_address = 1; token_decimal = 6 } ∷ [];
  watch_config = record {
    polling_interval = 15;
    block_delay = 5;
    max_block_delta = 100;
    forward_block_delay = 0;
  };
  fee_rate = 10;
  gas_token_name = "ETH";
  gas_token_decimal = 18;
  transactor_config = none;
}

abbrev pub chain : ℕ → BridgeConfig
chain id = record { config = chain_config id; chain_id = id; erc20_map = 1 ∷ [] }

abbrev pub server : Server
server = record {
  version = "v1.0.2";
  relay_node_name = "node";
  account_addr = 11;
  chain_map = (1, chain 1) ∷ (2, chain 2) ∷ [];
  chain_token_name_map = (1, (1, "USDT") ∷ []) ∷ (2, (1, "USDT") ∷ []) ∷ [];
  chain_token_addr_map = (1, ("USDT", 1) ∷ []) ∷ (2, ("USDT", 1) ∷ []) ∷ [];
  chain_token_decimal_map = (1, (1, 6) ∷ []) ∷ (2, (1, 18) ∷ []) ∷ [];
  chain_gas_token_map = [];
}

-- A transfer in that was planned a minute ago and is to be paid on chain 2.
abbrev pub planned : Row
planned = record {
  tid = 502;
  tx_hash = 0;
  chain_id = 2;
  token = 1;
  transfer_type = transfer_in;
  time_lock = pos ((noon + 36000) * second);
  hash_lock = 77;
  status = transfer_in_start;
  related_tid = 9;
  related_chain_id = 1;
  related_token = 1;
  amount = pos 1000;
  fee = pos 0;
  transfer_gas_cost = pos 0;
  confirm_gas_cost = pos 0;
  refund_gas_cost = pos 0;
  preimage = none;
  sender = 11;
  receiver = 22;
  tx_confirm_hash = 0;
  tx_refund_hash = 0;
  update_ts = pos ((noon * second));
  create_ts = pos ((noon * second));
}

-- The same row once it is paid, with the preimage that the receiver published.
abbrev pub paid : Row
paid = record planned { status = locked; preimage = some 78 }

-- And when its time lock has passed without one.
abbrev pub expired : Row
expired = record planned { status = locked; time_lock = pos ((noon - 60) * second) }

-- The user's transfer out that it answers.
abbrev pub user_out : Row
user_out = record planned {
  tid = 9;
  tx_hash = 4;
  chain_id = 1;
  transfer_type = transfer_out;
  status = locked;
  related_tid = 502;
  related_chain_id = 2;
  sender = 33;
  receiver = 11;
}

abbrev pub with_table : Env → List Row → World
with_table env rows = record {
  env = env;
  steps = 0;
  table = rows;
  monitor = [];
  sent = [];
  gateway_chain_info = [];
}

abbrev pub start : World
start = with_table (env_with 0) (planned ∷ [])

-- A user's transfer out on chain 1 to chain 2, with a day's time lock.
abbrev pub log_out : LogNewTransferOut
log_out = record {
  transfer_id = 9;
  sender = 33;
  receiver = 11;
  token = 1;
  amount = 1000;
  hashlock = 77;
  timelock = noon + 86400;
  dst_chain_id = 2;
  dst_address = 22;
}

-- The same node where the gateway answers a ping, too.
abbrev pub env_pinged : Env
env_pinged = record (env_with 0) { rpc_ping = λ n req. ok (record { err = none; chain_info = [] }) }

-- The server that Init makes of chain 1 alone.
abbrev pub booted : Server
booted = record {
  version = "v1.0.2";
  relay_node_name = "node";
  account_addr = 11;
  chain_map = (1, chain 1) ∷ [];
  chain_token_name_map = (1, (1, "USDT") ∷ []) ∷ [];
  chain_token_addr_map = (1, ("USDT", 1) ∷ []) ∷ [];
  chain_token_decimal_map = (1, (1, 6) ∷ []) ∷ [];
  chain_gas_token_map = (1, record { gas_token_name = "ETH"; gas_token_decimal = 18 }) ∷ [];
}
