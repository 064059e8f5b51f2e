-- ===== src/Chain.antt =====
-- server/server.go: `bridgeConfig`, its calls of the bridge contract (contracts/cbridge.go), and the
-- transfer ids that the contract and the node both compute.
pub mod Keeps
pub mod Answers
pub mod Sends
pub mod Works
use c_bridge_node.Base.{ℕ, ◌+◌, ◌-◌, ◌%◌, ◌^◌, Option, none, some, List, ◌∷◌}
use c_bridge_node.Base.Int.{ℤ}
use c_bridge_node.Wire.{Hash, Addr, ChainConfig}
use c_bridge_node.World.{World, Fault, Result, ok, err, TransferInfo, Call, Sent}
use c_bridge_node.Exec.{M, pure, ask, modify, ◌>>=◌, ◌>>◌}

-- The connection, the transactor and the watcher of a chain are answers of the environment, under
-- the chain's id.
pub record BridgeConfig : Type 0 where
  pub config : ChainConfig
  pub chain_id : ℕ
  -- The keys of erc20Map
  pub erc20_map : List Addr

-- remoteTransferStatus*: the contract's status numbers
abbrev pub remote_transfer_status_undefined : ℕ
remote_transfer_status_undefined = 0

abbrev pub remote_transfer_status_pending : ℕ
remote_transfer_status_pending = 1

abbrev pub remote_transfer_status_confirmed : ℕ
remote_transfer_status_confirmed = 2

abbrev pub remote_transfer_status_refunded : ℕ
remote_transfer_status_refunded = 3

-- The block of a view call: an uint64 difference, which wraps.
unfoldable pub safe_blk_num : ℕ → ℕ → ℕ
safe_blk_num current delay = (current + 2 ^ 64 - delay % 2 ^ 64) % 2 ^ 64

unfoldable pub get_transfer : BridgeConfig → Hash → M (Result TransferInfo)
get_transfer bc transfer_id = do
  current ← ask (λ env n. env.current_block n bc.chain_id)
  let safe = safe_blk_num current bc.config.watch_config.block_delay
  ask (λ env n. env.transfers n bc.chain_id safe transfer_id)

unfoldable pub result_of : Option Fault → Result (Unit {0})
result_of none = ok tt
result_of (some e) = err e

-- bc.trans.Transact; the transaction is kept in `sent`, newest first, with what was returned.
unfoldable pub transact : BridgeConfig → Hash → Call → M (Result (Unit {0}))
unfolding result_of
transact bc transfer_id call = do
  outcome ← ask (λ env n. env.transact n bc.chain_id call)
  modify (λ w. record w {
    sent =
        record { chain = bc.chain_id; transfer_id = transfer_id; call = call; outcome = outcome }
        ∷ w.sent;
  })
  pure (result_of outcome)

unfoldable pub transfer_in :
    BridgeConfig → Addr → Addr → ℤ → Hash → Hash → Hash → ℕ → ℕ → M (Result (Unit {0}))
transfer_in bc dst_addr token amount hash_lock transfer_id src_transfer_id time_lock src_chain_id =
    transact bc transfer_id
      (Call.transfer_in dst_addr token amount hash_lock time_lock src_chain_id src_transfer_id)

unfoldable pub confirm : BridgeConfig → Hash → Hash → Hash → Hash → M (Result (Unit {0}))
confirm bc transfer_id src_transfer_id pre_image hash_lock =
    transact bc transfer_id (Call.confirm transfer_id pre_image)

unfoldable pub refund : BridgeConfig → Hash → Hash → Hash → M (Result (Unit {0}))
refund bc transfer_id src_transfer_id hash_lock = transact bc transfer_id (Call.refund transfer_id)
