-- ===== src/Server/Summary.antt =====
-- server/server.go: GetTotalSummary, up to the text of its response, and the lookups that it uses
-- (getTokenName, getTokenDecimal, getGasTokenInfo).
pub mod Totals
pub mod Numbers
pub mod Fees
pub mod Report
pub mod Text
pub mod Keys
use c_bridge_node.Base.{
  ℕ, ◌+◌, ◌%◌, ◌^◌, String, ◌≡◌, refl, ap, ◌∙◌, ◌↔◌, Bool, true, ◌&&◌, ◌||◌, Option, none, some,
  List, [], ◌∷◌, arith, ◌==◌, ==_iff, if◌then◌else◌,
}
use c_bridge_node.Base.Int.{ℤ, pos, ◌+ℤ◌}
use c_bridge_node.Base.Maps.{Eq, Map, lookup, change, or_else, nat_eq}
use c_bridge_node.Wire.{
  Addr, locked, confirmed, refunded, transfer_in, transfer_out, same_status, same_type,
}
use c_bridge_node.Transfer.{Transfer}
use c_bridge_node.World.{Result, ok, err}
use c_bridge_node.Exec.{M, pure, gets, ◌>>=◌}
use c_bridge_node.Dal.Queries.{get_all_transfers}
use c_bridge_node.Server.{Server, ChainGasTokenInfo}
use c_bridge_node.Server.TransferOut.{lookup_in}

pub record TokenFeeSummary : Type 0 where
  pub token_name : String
  pub token_addr : Addr
  pub fee_amount : ℤ
  pub total_volume : ℤ
  pub token_decimal : ℕ

pub record Chain2ChainBreakDownDetail : Type 0 where
  pub src_chain_id : ℕ
  pub dst_chain_id : ℕ
  pub total_transfer_out_number : ℕ
  pub total_success_transfer_in_number : ℕ
  pub fee_received : Map Addr TokenFeeSummary
  pub gas_cost : ℤ
  pub gas_decimal : ℕ
  pub gas_token_name : String

-- The text "%d->%d" has an arrow between two numbers, so it stands for the two.
pub record Key : Type 0 where
  pub src : ℕ
  pub dst : ℕ

-- generateChain2ChainKey
unfoldable pub generate_chain2chain_key : ℕ → ℕ → Key
generate_chain2chain_key src_chain_id dst_chain_id = record {
  src = src_chain_id;
  dst = dst_chain_id;
}

abbrev pub same_key : Key → Key → Bool
same_key a b = a.src == b.src && a.dst == b.dst

pub same_key_iff : (a b : Key) → (same_key a b ≡ true) ↔ (a ≡ b)
same_key_iff a b = ground arith

instance abbrev pub key_eq : Eq Key
key_eq = record { beq = same_key; beq_iff = same_key_iff }

abbrev pub Summary : Type 0
Summary = Map Key Chain2ChainBreakDownDetail

-- The text of an address is go-ethereum's.
unfoldable pub get_token_name : (Addr → String) → Server → ℕ → Addr → String
get_token_name addr_string s chain_id token =
    or_else (lookup_in s.chain_token_name_map chain_id token) (addr_string token)

unfoldable pub get_token_decimal : Server → ℕ → Addr → ℕ
get_token_decimal s chain_id token = or_else (lookup_in s.chain_token_decimal_map chain_id token) 1

unfoldable pub get_gas_token_info : Server → ℕ → ChainGasTokenInfo
get_gas_token_info s chain_id =
    or_else (lookup s.chain_gas_token_map chain_id)
      (record { gas_token_name = "unknown"; gas_token_decimal = 1 })

unfoldable pub blank_detail : ℕ → ℕ → ChainGasTokenInfo → Chain2ChainBreakDownDetail
blank_detail src dst gas = record {
  src_chain_id = src;
  dst_chain_id = dst;
  total_transfer_out_number = 0;
  total_success_transfer_in_number = 0;
  fee_received = [];
  gas_cost = pos 0;
  gas_decimal = gas.gas_token_decimal;
  gas_token_name = gas.gas_token_name;
}

unfoldable pub count_out : Chain2ChainBreakDownDetail → Chain2ChainBreakDownDetail
count_out d = record d { total_transfer_out_number = (d.total_transfer_out_number + 1) % 2 ^ 64 }

unfoldable pub record_transfer_out_summary : Transfer → Summary → Summary
record_transfer_out_summary tx m =
    change m (generate_chain2chain_key tx.chain_id tx.related_chain_id)
      (blank_detail tx.chain_id tx.related_chain_id
        (record { gas_token_name = ""; gas_token_decimal = 0 }))
      count_out

-- FeeReceived of a confirmed transfer in.
unfoldable pub add_fee :
    (Addr → String) → Server → Transfer → Map Addr TokenFeeSummary → Map Addr TokenFeeSummary
add_fee addr_string s tx fees =
    change fees tx.token
      (record {
        token_name = get_token_name addr_string s tx.chain_id tx.token;
        token_addr = tx.token;
        fee_amount = pos 0;
        total_volume = pos 0;
        token_decimal = get_token_decimal s tx.chain_id tx.token;
      })
      (λ fee. record fee {
        total_volume = fee.total_volume +ℤ tx.amount;
        fee_amount = fee.fee_amount +ℤ tx.fee;
      })

-- The switch on the status.
unfoldable pub add_transfer_in :
    (Addr → String) → Server → Transfer → Chain2ChainBreakDownDetail → Chain2ChainBreakDownDetail
add_transfer_in addr_string s tx detail =
    if same_status tx.status locked
    then record detail { gas_cost = detail.gas_cost +ℤ tx.transfer_gas_cost }
    else if same_status tx.status refunded
    then record detail { gas_cost = detail.gas_cost +ℤ tx.transfer_gas_cost +ℤ tx.refund_gas_cost }
    else record detail {
      gas_cost = detail.gas_cost +ℤ tx.transfer_gas_cost +ℤ tx.confirm_gas_cost;
      total_success_transfer_in_number = (detail.total_success_transfer_in_number + 1) % 2 ^ 64;
      fee_received = add_fee addr_string s tx detail.fee_received;
    }

unfoldable pub record_transfer_in_summary : (Addr → String) → Server → Transfer → Summary → Summary
record_transfer_in_summary addr_string s tx m =
    if same_status tx.status locked
      || same_status tx.status refunded
      || same_status tx.status confirmed
    then change m (generate_chain2chain_key tx.related_chain_id tx.chain_id)
        (blank_detail tx.related_chain_id tx.chain_id (get_gas_token_info s tx.chain_id))
        (add_transfer_in addr_string s tx)
    else m

unfoldable pub record_one : (Addr → String) → Server → Transfer → Summary → Summary
record_one addr_string s tx m =
    if same_type tx.transfer_type transfer_out
    then record_transfer_out_summary tx m
    else if same_type tx.transfer_type transfer_in
    then record_transfer_in_summary addr_string s tx m
    else m

unfoldable pub summarize : (Addr → String) → Server → List Transfer → Summary → Summary
summarize addr_string s [] m = m
summarize addr_string s (tx ∷ txs) m = summarize addr_string s txs (record_one addr_string s tx m)

summary_unless : (Addr → String) → Server → Result (List Transfer) → Option Summary
unfolding summarize
summary_unless addr_string s (err e) = none
summary_unless addr_string s (ok txs) = some (summarize addr_string s txs [])

-- What the response is printed from; nothing is written if the query fails.
unfoldable pub get_total_summary : (Addr → String) → Server → M (Option Summary)
unfolding summary_unless
get_total_summary addr_string s = do
  transfers ← get_all_transfers
  pure (summary_unless addr_string s transfers)
