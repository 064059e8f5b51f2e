-- ===== src/Server/Summary/Numbers.antt =====
-- The numbers of the summary are those of the table's rows.
use c_bridge_node.Base.{
  ℕ, ◌+◌, ◌%◌, ◌^◌, ◌<◌, ◌≡◌, refl, sym, Bool, ◌&&◌, List, [], ◌∷◌, String, arith, if◌then◌else◌,
}
use c_bridge_node.Base.Int.{ℤ, pos, ◌+ℤ◌, +ℤ_assoc, +ℤ_zero}
use c_bridge_node.Base.Lists.{length, select}
use c_bridge_node.Base.Maps.{nat_eq}
use c_bridge_node.Wire.{Addr, locked, confirmed, refunded, same_status}
use c_bridge_node.Transfer.{Transfer}
use c_bridge_node.Server.{Server}
use c_bridge_node.Server.Summary.{
  Summary, Key, key_eq, Chain2ChainBreakDownDetail, record_one, summarize, add_transfer_in,
  blank_detail, count_out,
}
use c_bridge_node.Server.Summary.Totals.{total, is_out, is_in, total-record_one}

abbrev pub out_number : Summary → Key → ℕ
out_number = total (λ d. d.total_transfer_out_number) 0

abbrev pub success_number : Summary → Key → ℕ
success_number = total (λ d. d.total_success_transfer_in_number) 0

abbrev pub gas : Summary → Key → ℤ
gas = total (λ d. d.gas_cost) (pos 0)

-- A transfer in that was confirmed.
abbrev pub is_success : Key → Transfer → Bool
is_success k tx = is_in k tx && same_status tx.status confirmed

-- What the node paid for gas by a transfer in of this status.
abbrev pub gas_of : Transfer → ℤ
gas_of tx =
    if same_status tx.status locked
    then tx.transfer_gas_cost
    else if same_status tx.status refunded
    then tx.transfer_gas_cost +ℤ tx.refund_gas_cost
    else tx.transfer_gas_cost +ℤ tx.confirm_gas_cost

-- The sum over the list's transfers that a condition selects.
abbrev pub sum_of : (Transfer → Bool) → (Transfer → ℤ) → List Transfer → ℤ
sum_of p f [] = pos 0
sum_of p f (tx ∷ txs) = let rest = sum_of p f txs in if p tx then f tx +ℤ rest else rest

module _ (addr_string : Addr → String) (s : Server) where
  abbrev in_success : Transfer → ℕ → ℕ
  in_success tx n =
      if same_status tx.status locked
      then n
      else if same_status tx.status refunded
      then n
      else (n + 1) % 2 ^ 64

  in_success_law :
      (tx : Transfer) (d : Chain2ChainBreakDownDetail)
      → (add_transfer_in addr_string s tx d).total_success_transfer_in_number
        ≡ in_success tx d.total_success_transfer_in_number
  unfolding add_transfer_in
  in_success_law tx d = ground arith

  in_out_law :
      (tx : Transfer) (d : Chain2ChainBreakDownDetail)
      → (add_transfer_in addr_string s tx d).total_transfer_out_number ≡ d.total_transfer_out_number
  unfolding add_transfer_in
  in_out_law tx d = ground arith

  in_gas_law :
      (tx : Transfer) (d : Chain2ChainBreakDownDetail)
      → (add_transfer_in addr_string s tx d).gas_cost ≡ d.gas_cost +ℤ gas_of tx
  unfolding add_transfer_in
  in_gas_law tx d = ground (
    arith,
    +ℤ_assoc d.gas_cost tx.transfer_gas_cost tx.refund_gas_cost,
    +ℤ_assoc d.gas_cost tx.transfer_gas_cost tx.confirm_gas_cost,
  )

  record_one-out_number :
      (tx : Transfer) (m : Summary) (k : Key)
      → out_number (record_one addr_string s tx m) k
        ≡ (if is_out k tx then (out_number m k + 1) % 2 ^ 64 else out_number m k)
  unfolding blank_detail count_out
  record_one-out_number tx m k = ground (
    arith,
    total-record_one (λ d. d.total_transfer_out_number) 0 addr_string s (λ n. (n + 1) % 2 ^ 64)
        (λ tx n. n) (λ src dst g. refl) (λ d. refl) in_out_law tx m k,
  )

  record_one-success_number :
      (tx : Transfer) (m : Summary) (k : Key)
      → success_number (record_one addr_string s tx m) k
        ≡ (if is_success k tx then (success_number m k + 1) % 2 ^ 64 else success_number m k)
  unfolding blank_detail count_out
  record_one-success_number tx m k = ground (
    arith,
    total-record_one (λ d. d.total_success_transfer_in_number) 0 addr_string s (λ n. n) in_success
        (λ src dst g. refl) (λ d. refl) in_success_law tx m k,
  )

  record_one-gas :
      (tx : Transfer) (m : Summary) (k : Key)
      → gas (record_one addr_string s tx m) k
        ≡ (if is_in k tx then gas m k +ℤ gas_of tx else gas m k)
  unfolding blank_detail count_out
  record_one-gas tx m k = ground (
    arith,
    total-record_one (λ d. d.gas_cost) (pos 0) addr_string s (λ n. n) (λ tx n. n +ℤ gas_of tx)
        (λ src dst g. refl) (λ d. refl) in_gas_law tx m k,
  )

  pub summarize-out_number :
      (txs : List Transfer) (m : Summary) (k : Key)
      → out_number m k + length txs < 2 ^ 64
      → out_number (summarize addr_string s txs m) k
        ≡ out_number m k + length (select (is_out k) txs)
  unfolding summarize select
  summarize-out_number [] m k h = omega arith
  summarize-out_number (tx ∷ txs) m k h = ground (
    arith,
    record_one-out_number tx m k,
    summarize-out_number txs (record_one addr_string s tx m) k
        (ground (arith, record_one-out_number tx m k)),
  )

  pub summarize-success_number :
      (txs : List Transfer) (m : Summary) (k : Key)
      → success_number m k + length txs < 2 ^ 64
      → success_number (summarize addr_string s txs m) k
        ≡ success_number m k + length (select (is_success k) txs)
  unfolding summarize select
  summarize-success_number [] m k h = omega arith
  summarize-success_number (tx ∷ txs) m k h = ground (
    arith,
    record_one-success_number tx m k,
    summarize-success_number txs (record_one addr_string s tx m) k
        (ground (arith, record_one-success_number tx m k)),
  )

  pub summarize-gas :
      (txs : List Transfer) (m : Summary) (k : Key)
      → gas (summarize addr_string s txs m) k ≡ gas m k +ℤ sum_of (is_in k) gas_of txs
  unfolding summarize
  summarize-gas [] m k = sym (+ℤ_zero (gas m k))
  summarize-gas (tx ∷ txs) m k = ground (
    arith,
    record_one-gas tx m k,
    summarize-gas txs (record_one addr_string s tx m) k,
    +ℤ_assoc (gas m k) (gas_of tx) (sum_of (is_in k) gas_of txs),
  )
