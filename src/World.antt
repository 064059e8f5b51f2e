-- ===== src/World.antt =====
-- What the node's code reads and changes: the two tables, the transactions that it has handed to
-- its transactors, and the answers of everything that is not its own code.
use c_bridge_node.Base.{ℕ, String, Bool, Option, List}
use c_bridge_node.Base.Int.{ℤ}
use c_bridge_node.Base.Maps.{Map}
use c_bridge_node.Wire.{Hash, Addr, GetFeeResponse, PingRequest, PingResponse, GatewayChainInfo}
use c_bridge_node.Transfer.{Time, Row}

-- A Go error. The code tests an error against nil and logs it; which one it is never matters.
pub data Fault : Type 0 where
  db_refused no_rows rpc_failed gateway_failed tx_failed invalid_config : Fault

pub data Result {ℓ} (A : Type ℓ) : Type ℓ where
  ok : A → Result A
  err : Fault → Result A

-- `TransferInfo` of server/server.go: what the bridge contract says of a transfer.
pub record TransferInfo : Type 0 where
  pub sender : Addr
  pub receiver : Addr
  pub token : Addr
  pub amount : ℕ
  pub hash_lock : Hash
  pub time_lock : ℕ
  pub status : ℕ

-- A call of the bridge contract, with the arguments of contracts/cbridge.go.
pub data Call : Type 0 where
  transfer_in : Addr → Addr → ℤ → Hash → ℕ → ℕ → Hash → Call
  confirm : Hash → Hash → Call
  refund : Hash → Call

-- A transaction that was handed to the transactor of a chain, for which transfer, and whether
-- that returned an error.
pub record Sent : Type 0 where
  pub chain : ℕ
  pub transfer_id : Hash
  pub call : Call
  pub outcome : Option Fault

pub record MonitorRow : Type 0 where
  pub event : String
  pub block_num : ℕ
  pub block_idx : ℤ
  pub restart : Bool

-- The code that is not the node's own, as functions. Where an answer may change from one moment to
-- the next, the first argument counts the effects so far, so every sequence of answers is allowed.
pub record Env : Type 0 where
  -- time.Now()
  pub clock : ℕ → Time
  -- The database refuses the statement.
  pub db_fault : ℕ → Option Fault
  -- sqldb.ChkExec, given the error of Exec, the rows affected, and the rows expected
  pub chk_exec : Option Fault → ℕ → ℕ → Option Fault
  -- sqldb.ChkQueryRow, given the error of the scan
  pub chk_query_row : Option Fault → Result Bool
  -- mon.GetCurrentBlockNumber() of a chain
  pub current_block : ℕ → ℕ → ℕ
  -- The view method `transfers` of the contract, of a chain, at a block
  pub transfers : ℕ → ℕ → ℕ → Hash → Result TransferInfo
  -- trans.Transact of a chain
  pub transact : ℕ → ℕ → Call → Option Fault
  -- erc20.BalanceOf of a token of a chain
  pub balance_of : ℕ → ℕ → Addr → Result ℕ
  -- signer.SignEthMessage of the account's address
  pub sign : ℕ → Addr → Result (List ℕ)
  -- The methods GetFee and Ping of the gateway's RPC client
  pub rpc_get_fee : ℕ → Hash → Result GetFeeResponse
  pub rpc_ping : ℕ → PingRequest → Result PingResponse
  -- Dial, ChainID, NewTransactor and NewBoundContract for a configured chain: the chain's own id
  pub connect : ℕ → ℕ → Result ℕ
  -- NewErc20, Open of the key store and NewTransactorWithChainID, for a token of a chain
  pub bind_token : ℕ → ℕ → Addr → Option Fault
  -- erc20.Allowance of the bridge contract, for the account
  pub allowance : ℕ → ℕ → Addr → Result ℕ
  -- erc20.Approve, and WaitMinedWithTxHash of its transaction
  pub approve : ℕ → ℕ → Addr → ℕ → Option Fault
  pub wait_mined : ℕ → ℕ → Addr → Option Fault
  -- solsha3.SoliditySHA3 of (address, address, bytes32, uint256), as a hash
  pub solidity_sha3 : Addr → Addr → Hash → ℕ → Hash

pub record World : Type 0 where
  pub env : Env
  pub steps : ℕ
  pub table : List Row
  pub monitor : List MonitorRow
  pub sent : List Sent
  pub gateway_chain_info : Map ℕ GatewayChainInfo
