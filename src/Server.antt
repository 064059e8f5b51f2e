-- ===== src/Server.antt =====
-- server/server.go: the server's state after Init, and its loops and event handlers in the modules
-- below. The maps change in Init only.
pub mod Send
pub mod Confirm
pub mod Refund
pub mod Recover
pub mod TransferOut
pub mod Events
pub mod Callbacks
pub mod Summary
pub mod Ping
pub mod Listing
pub mod Init
pub mod Startup
pub mod Shutdown
use c_bridge_node.Base.{ℕ, String}
use c_bridge_node.Base.Maps.{Map}
use c_bridge_node.Wire.{Addr}
use c_bridge_node.Chain.{BridgeConfig}

pub record ChainGasTokenInfo : Type 0 where
  pub gas_token_name : String
  pub gas_token_decimal : ℕ

pub record Server : Type 0 where
  pub version : String
  pub relay_node_name : String
  pub account_addr : Addr
  pub chain_map : Map ℕ BridgeConfig
  pub chain_token_name_map : Map ℕ (Map Addr String)
  pub chain_token_addr_map : Map ℕ (Map String Addr)
  pub chain_token_decimal_map : Map ℕ (Map Addr ℕ)
  pub chain_gas_token_map : Map ℕ ChainGasTokenInfo
