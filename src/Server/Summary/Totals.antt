-- ===== src/Server/Summary/Totals.antt =====
-- What the numbers of the summary count.
use c_bridge_node.Base.{ℕ, ◌≡◌, Bool, ◌&&◌, ◌||◌, String, arith, if◌then◌else◌, ◌==◌}
use c_bridge_node.Base.Maps.{lookup, read, read-change}
use c_bridge_node.Wire.{
  Addr, locked, confirmed, refunded, transfer_in, transfer_out, same_status, same_type,
}
use c_bridge_node.Transfer.{Transfer}
use c_bridge_node.Server.{Server, ChainGasTokenInfo}
use c_bridge_node.Server.Summary.{
  Summary, Key, key_eq, generate_chain2chain_key, Chain2ChainBreakDownDetail, get_gas_token_info,
  count_out, record_transfer_out_summary, record_transfer_in_summary, record_one, add_transfer_in,
  blank_detail,
}

-- A transfer out between these chains.
abbrev pub is_out : Key → Transfer → Bool
is_out k tx =
    same_type tx.transfer_type transfer_out && tx.chain_id == k.src && tx.related_chain_id == k.dst

-- A transfer in between these chains that the node locked.
abbrev pub is_in : Key → Transfer → Bool
is_in k tx =
    same_type tx.transfer_type transfer_in
    && (same_status tx.status locked
        || same_status tx.status refunded
        || same_status tx.status confirmed)
    && tx.related_chain_id == k.src
    && tx.chain_id == k.dst

-- What the details of a summary have of something, at a pair of chains.
abbrev pub total : {N : Type 0} → (Chain2ChainBreakDownDetail → N) → N → Summary → Key → N
total μ z m k = read μ z (lookup m k)

module _ {N : Type 0} (μ : Chain2ChainBreakDownDetail → N) (z : N) where
  -- Of any number that the details have: what one transfer does to it.
  module _ (addr_string : Addr → String) (s : Server) (g_out : N → N) (g_in : Transfer → N → N)
      (fresh_z : (src dst : ℕ) (gas_info : ChainGasTokenInfo)
        → μ (blank_detail src dst gas_info) ≡ z)
      (out_law : (d : Chain2ChainBreakDownDetail) → μ (count_out d) ≡ g_out (μ d))
      (in_law : (tx : Transfer) (d : Chain2ChainBreakDownDetail)
        → μ (add_transfer_in addr_string s tx d) ≡ g_in tx (μ d)) where
    pub total-record_one :
        (tx : Transfer) (m : Summary) (k : Key)
        → total μ z (record_one addr_string s tx m) k ≡ (
            if is_out k tx
            then g_out (total μ z m k)
            else if is_in k tx
            then g_in tx (total μ z m k)
            else total μ z m k)
    unfolding record_one record_transfer_out_summary record_transfer_in_summary
        generate_chain2chain_key
    total-record_one tx m k = ground (
      arith,
      read-change μ z m (record { src = tx.chain_id; dst = tx.related_chain_id }) k
          (blank_detail tx.chain_id tx.related_chain_id
            (record { gas_token_name = ""; gas_token_decimal = 0 }))
          count_out g_out (fresh_z tx.chain_id tx.related_chain_id _) out_law,
      read-change μ z m (record { src = tx.related_chain_id; dst = tx.chain_id }) k
          (blank_detail tx.related_chain_id tx.chain_id (get_gas_token_info s tx.chain_id))
          (add_transfer_in addr_string s tx) (g_in tx)
          (fresh_z tx.related_chain_id tx.chain_id (get_gas_token_info s tx.chain_id)) (in_law tx),
    )
