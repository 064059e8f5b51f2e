-- ===== src/Wire.antt =====
-- The enums and messages of cbridgenode/cbridge_node.pb.go and gatewayrpc/gateway_rpc.pb.go that
-- the node's code reads, and the values that it gives them.
use c_bridge_node.Base.{ℕ, String, ◌≡◌, Bool, true, Option, List, arith, ◌==◌}
use c_bridge_node.Base.Maps.{Map}

pub data TransferStatus : Type 0 where
  undefined locked confirmed refunded : TransferStatus
  transfer_in_start transfer_in_pending confirm_pending refund_pending : TransferStatus

-- The number that the enum has in Go and in the column `status`.
abbrev pub status_number : TransferStatus → ℕ
status_number undefined = 0
status_number locked = 1
status_number confirmed = 2
status_number refunded = 3
status_number transfer_in_start = 4
status_number transfer_in_pending = 5
status_number confirm_pending = 6
status_number refund_pending = 7

-- `status = $n` of a statement, and `==` in Go: a comparison of the numbers.
abbrev pub same_status : TransferStatus → TransferStatus → Bool
same_status a b = status_number a == status_number b

pub same_status-eq : (a b : TransferStatus) → same_status a b ≡ true → a ≡ b
same_status-eq a b h = ground arith

pub data TransferType : Type 0 where
  type_undefined transfer_out transfer_in : TransferType

abbrev pub type_number : TransferType → ℕ
type_number type_undefined = 0
type_number transfer_out = 1
type_number transfer_in = 2

abbrev pub same_type : TransferType → TransferType → Bool
same_type a b = type_number a == type_number b

pub same_type-eq : (a b : TransferType) → same_type a b ≡ true → a ≡ b
same_type-eq a b h = ground arith

-- A [32]byte and a [20]byte, read as big-endian numbers.
abbrev pub Hash : Type 0
Hash = ℕ

abbrev pub Addr : Type 0
Addr = ℕ

abbrev pub zero_hash : Hash
zero_hash = 0

pub record TokenConfig : Type 0 where
  pub token_name : String
  pub token_address : Addr
  pub token_decimal : ℕ

pub record WatchConfig : Type 0 where
  pub polling_interval : ℕ
  pub block_delay : ℕ
  pub max_block_delta : ℕ
  pub forward_block_delay : ℕ

pub record TransactorConfig : Type 0 where
  pub gas_limit : ℕ
  pub add_gas_gwei : ℕ
  -- A float64: only its sign is read here.
  pub add_gas_estimate_ratio_positive : Bool

pub record ChainConfig : Type 0 where
  pub chain_id : ℕ
  pub token_config : List TokenConfig
  pub watch_config : WatchConfig
  pub fee_rate : ℕ
  pub gas_token_name : String
  pub gas_token_decimal : ℕ
  pub transactor_config : Option TransactorConfig

pub record ErrMsg : Type 0 where
  pub code : ℕ
  pub msg : String

pub record GetFeeResponse : Type 0 where
  pub err : Option ErrMsg
  pub fee : String

-- `token_and_balance` keeps the addresses and balances themselves, not their texts.
pub record ChainInfo : Type 0 where
  pub chain_id : ℕ
  pub token_and_balance : Map Addr ℕ
  pub fee_per_10000 : ℕ

pub record PingRequest : Type 0 where
  pub eth_addr : Addr
  pub chain_info : List ChainInfo
  pub nick_name : String
  pub sig : List ℕ
  pub node_version : String

pub record GatewayChainInfo : Type 0 where
  pub gas_price : ℕ

pub record PingResponse : Type 0 where
  pub err : Option ErrMsg
  pub chain_info : Map ℕ GatewayChainInfo
