-- ===== src/Server/Summary/Fees.antt =====
-- The volumes and fees of the summary, for each token.
use c_bridge_node.Base.{
  ℕ, ◌≡◌, refl, sym, Bool, not, ◌&&◌, List, [], ◌∷◌, String, arith, if◌then◌else◌, ◌==◌,
}
use c_bridge_node.Base.Int.{ℤ, pos, ◌+ℤ◌, +ℤ_assoc, +ℤ_zero}
use c_bridge_node.Base.Maps.{lookup, read, read-change, nat_eq}
use c_bridge_node.Wire.{Addr, locked, refunded, same_status}
use c_bridge_node.Transfer.{Transfer}
use c_bridge_node.Server.{Server}
use c_bridge_node.Server.Summary.{
  Summary, Key, key_eq, Chain2ChainBreakDownDetail, TokenFeeSummary, record_one, summarize,
  add_transfer_in, blank_detail, add_fee, count_out, get_token_name, get_token_decimal,
}
use c_bridge_node.Server.Summary.Totals.{total, total-record_one}
use c_bridge_node.Server.Summary.Numbers.{is_success, sum_of}

-- What FeeReceived has of something for a token, at a pair of chains.
abbrev pub token_total : (TokenFeeSummary → ℤ) → Addr → Summary → Key → ℤ
token_total μ token = total (λ d. read μ (pos 0) (lookup d.fee_received token)) (pos 0)

abbrev pub volume : Addr → Summary → Key → ℤ
volume = token_total (λ f. f.total_volume)

abbrev pub earned : Addr → Summary → Key → ℤ
earned = token_total (λ f. f.fee_amount)

-- A confirmed transfer in of this token.
abbrev pub is_paid : Addr → Key → Transfer → Bool
is_paid token k tx = is_success k tx && tx.token == token

module _ (addr_string : Addr → String) (s : Server) (token : Addr) where
  -- Of a number that a fee has, and that a transfer adds something to.
  module _ (μ : TokenFeeSummary → ℤ) (part : Transfer → ℤ)
      (fresh_zero : (name : String) (addr : Addr) (decimal : ℕ)
        → μ (record {
          token_name = name;
          token_addr = addr;
          fee_amount = pos 0;
          total_volume = pos 0;
          token_decimal = decimal;
        })
          ≡ pos 0)
      (law : (tx : Transfer) (f : TokenFeeSummary)
        → μ (record f {
          total_volume = f.total_volume +ℤ tx.amount;
          fee_amount = f.fee_amount +ℤ tx.fee;
        })
          ≡ μ f +ℤ part tx) where
    in_fee_law :
        (tx : Transfer) (d : Chain2ChainBreakDownDetail)
        → read μ (pos 0) (lookup (add_transfer_in addr_string s tx d).fee_received token) ≡ (
            if not (same_status tx.status locked)
              && not (same_status tx.status refunded)
              && tx.token == token
            then read μ (pos 0) (lookup d.fee_received token) +ℤ part tx
            else read μ (pos 0) (lookup d.fee_received token))
    unfolding add_transfer_in add_fee
    in_fee_law tx d = ground (
      arith,
      read-change μ (pos 0) d.fee_received tx.token token
          (record {
            token_name = get_token_name addr_string s tx.chain_id tx.token;
            token_addr = tx.token;
            fee_amount = pos 0;
            total_volume = pos 0;
            token_decimal = get_token_decimal s tx.chain_id tx.token;
          })
          (λ fee. record fee {
            total_volume = fee.total_volume +ℤ tx.amount;
            fee_amount = fee.fee_amount +ℤ tx.fee;
          })
          (λ v. v +ℤ part tx) (fresh_zero _ _ _) (law tx),
    )

    record_one-token_total :
        (tx : Transfer) (m : Summary) (k : Key)
        → token_total μ token (record_one addr_string s tx m) k ≡ (
            if is_paid token k tx
            then token_total μ token m k +ℤ part tx
            else token_total μ token m k)
    unfolding blank_detail count_out lookup
    record_one-token_total tx m k = ground (
      arith,
      total-record_one (λ d. read μ (pos 0) (lookup d.fee_received token)) (pos 0) addr_string s
          (λ n. n)
          (λ tx n.
            if not (same_status tx.status locked)
              && not (same_status tx.status refunded)
              && tx.token == token
            then n +ℤ part tx
            else n)
          (λ src dst g. refl) (λ d. refl) in_fee_law tx m k,
    )

    summarize-token_total :
        (txs : List Transfer) (m : Summary) (k : Key)
        → token_total μ token (summarize addr_string s txs m) k
          ≡ token_total μ token m k +ℤ sum_of (is_paid token k) part txs
    unfolding summarize
    summarize-token_total [] m k = sym (+ℤ_zero (token_total μ token m k))
    summarize-token_total (tx ∷ txs) m k = ground (
      arith,
      record_one-token_total tx m k,
      summarize-token_total txs (record_one addr_string s tx m) k,
      +ℤ_assoc (token_total μ token m k) (part tx) (sum_of (is_paid token k) part txs),
    )

  pub summarize-volume :
      (txs : List Transfer) (m : Summary) (k : Key)
      → volume token (summarize addr_string s txs m) k
        ≡ volume token m k +ℤ sum_of (is_paid token k) (λ tx. tx.amount) txs
  summarize-volume =
      summarize-token_total (λ f. f.total_volume) (λ tx. tx.amount) (λ n a d. refl) (λ tx f. refl)

  pub summarize-earned :
      (txs : List Transfer) (m : Summary) (k : Key)
      → earned token (summarize addr_string s txs m) k
        ≡ earned token m k +ℤ sum_of (is_paid token k) (λ tx. tx.fee) txs
  summarize-earned =
      summarize-token_total (λ f. f.fee_amount) (λ tx. tx.fee) (λ n a d. refl) (λ tx f. refl)
