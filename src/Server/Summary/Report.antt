-- ===== src/Server/Summary/Report.antt =====
-- GetTotalSummary against the rows of the table.
use c_bridge_node.Base.{
  suc, ◌<◌, ◌^◌, ◌≡◌, refl, ap, ◌∙◌, none, some, List, [], ◌∷◌, String, map, arith,
}
use c_bridge_node.Base.Int.{ℤ, pos, ◌+ℤ◌, int_laws}
use c_bridge_node.Base.Lists.{length, select}
use c_bridge_node.Base.Maps.{lookup}
use c_bridge_node.Wire.{Addr}
use c_bridge_node.Transfer.{Row, Transfer, scan_transfer}
use c_bridge_node.World.{World}
use c_bridge_node.Exec.{perform, ◌>>=◌}
use c_bridge_node.Dal.Queries.{get_all_transfers, query, rows_unless}
use c_bridge_node.Server.{Server}
use c_bridge_node.Server.Summary.{Summary, Key, key_eq, summarize, get_total_summary}
use c_bridge_node.Server.Summary.Totals.{is_out, is_in}
use c_bridge_node.Server.Summary.Numbers.{
  out_number, success_number, gas, is_success, gas_of, sum_of, summarize-out_number,
  summarize-success_number, summarize-gas,
}
use c_bridge_node.Server.Summary.Fees.{volume, earned, is_paid, summarize-volume, summarize-earned}

-- The summary says of every pair of chains, and every token, what these transfers add up to.
pub record IsSummaryOf (txs : List Transfer) (m : Summary) : Type 0 where
  pub outs : (k : Key) → out_number m k ≡ length (select (is_out k) txs)
  pub successes : (k : Key) → success_number m k ≡ length (select (is_success k) txs)
  pub gas_costs : (k : Key) → gas m k ≡ sum_of (is_in k) gas_of txs
  pub volumes :
      (token : Addr) (k : Key) → volume token m k ≡ sum_of (is_paid token k) (λ tx. tx.amount) txs
  pub fees :
      (token : Addr) (k : Key) → earned token m k ≡ sum_of (is_paid token k) (λ tx. tx.fee) txs

zero_add : (a : ℤ) → pos 0 +ℤ a ≡ a
zero_add a = omega int_laws

summarize-IsSummaryOf :
    (addr_string : Addr → String) (s : Server) (txs : List Transfer)
    → length txs < 2 ^ 64
    → IsSummaryOf txs (summarize addr_string s txs [])
unfolding lookup
summarize-IsSummaryOf addr_string s txs few = record {
  outs = λ k. omega (arith, summarize-out_number addr_string s txs [] k (omega arith));
  successes = λ k. omega (arith, summarize-success_number addr_string s txs [] k (omega arith));
  gas_costs = λ k. summarize-gas addr_string s txs [] k ∙ zero_add (sum_of (is_in k) gas_of txs);
  volumes = λ token k.
      summarize-volume addr_string s token txs [] k
      ∙ zero_add (sum_of (is_paid token k) (λ tx. tx.amount) txs);
  fees = λ token k.
      summarize-earned addr_string s token txs [] k
      ∙ zero_add (sum_of (is_paid token k) (λ tx. tx.fee) txs);
}

length-map : (rows : List Row) → length (map scan_transfer rows) ≡ length rows
length-map [] = refl
length-map (r ∷ rows) = ap suc (length-map rows)

-- Where the database answers and the table has fewer than 2^64 rows, the summary is there, and says
-- of every pair of chains how many transfers out and confirmed transfers in there are, what the
-- transfers in that are locked, confirmed or refunded cost in gas, and of every token the amounts
-- and the fees of the confirmed transfers in.
pub get_total_summary_lem :
    (addr_string : Addr → String) (s : Server) (w : World)
    → w.env.db_fault w.steps ≡ none
    → length w.table < 2 ^ 64
    → (m : Summary) × ((perform (get_total_summary addr_string s) w).0 ≡ some m)
      × IsSummaryOf (map scan_transfer w.table) m
unfolding get_total_summary get_all_transfers query rows_unless ◌>>=◌
get_total_summary_lem addr_string s w answers few =
    let txs = map scan_transfer w.table in
    (
      summarize addr_string s txs [],
      rw answers refl,
      summarize-IsSummaryOf addr_string s txs (rw (length-map w.table) few),
    )
