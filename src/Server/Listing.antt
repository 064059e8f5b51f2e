-- ===== src/Server/Listing.antt =====
-- server/server.go: GetTransfer, the page of the newest transfers, up to the text of its lines.
pub mod Page
pub mod Text
use c_bridge_node.Base.{
  ℕ, ◌+◌, ◌^◌, String, Option, none, some, List, map, ltb, ◌==◌, if◌then◌else◌,
}
use c_bridge_node.Base.Int.{ℤ, ◌+ℤ◌}
use c_bridge_node.Wire.{Addr, TransferStatus, TransferType, transfer_in, same_type}
use c_bridge_node.Transfer.{Time, Transfer}
use c_bridge_node.World.{Result, ok, err}
use c_bridge_node.Exec.{M, pure, ◌>>=◌}
use c_bridge_node.Dal.Queries.{get_all_transfers_with_limit}
use c_bridge_node.Gateway.{digits}

-- A line of the page.
pub record Line : Type 0 where
  pub user_addr : Addr
  pub src_chain : ℕ
  pub dst_chain : ℕ
  pub transfer_amount : ℤ
  pub create_ts : Time
  pub tx_type : TransferType
  pub tx_status : TransferStatus

-- What is written: a page, or http.Error.
pub data Response : Type 0 where
  page : List Line → Response
  bad_request : Response

unfoldable pub line_of : Transfer → Line
line_of tx =
    let is_in = same_type tx.transfer_type transfer_in in
    record {
      user_addr = tx.sender;
      src_chain = if is_in then tx.related_chain_id else tx.chain_id;
      dst_chain = if is_in then tx.chain_id else tx.related_chain_id;
      transfer_amount = tx.amount +ℤ tx.fee;
      create_ts = tx.create_ts;
      tx_type = tx.transfer_type;
      tx_status = tx.status;
    }

-- strconv.ParseUint(s, 10, 64)
unfoldable pub parse_uint : String → Option ℕ
unfolding digits
parse_uint s = elim (digits s) [ none ↦ none | some n ↦ if ltb n (2 ^ 64) then some n else none ]

unfoldable pub limit_of : ℕ → ℕ
limit_of n = if n == 0 then 500 else n

unfoldable pub page_of : Result (List Transfer) → Response
page_of (ok txs) = page (map line_of txs)
page_of (err e) = bad_request

unfoldable pub page_within : Option ℕ → M Response
page_within none = pure bad_request
page_within (some limit) = do
  transfers ← get_all_transfers_with_limit (limit_of limit)
  pure (page_of transfers)

unfoldable pub get_transfer_page : String → M Response
get_transfer_page limit_string = page_within (parse_uint limit_string)
