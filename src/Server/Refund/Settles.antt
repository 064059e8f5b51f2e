-- ===== src/Server/Refund/Settles.antt =====
-- What processTryRefundTransferIn (server/server.go) is to send where nothing fails.
mod Effects
pub mod Alone
use c_bridge_node.Base.{
  ℕ, suc, ◌≡◌, refl, sym, ap, ◌∙◌, ◌⊎◌, inl, inr, Bool, true, false, ◌&&◌, Option, none, some, List,
  [], ◌∷◌, map, arith, ◌==◌, if◌then◌else◌, Bool-cases,
}
use mathlib.Core.Path.{subst}
use c_bridge_node.Base.Lists.{All, select, head?}
use c_bridge_node.Base.Maps.{lookup, nat_eq}
use c_bridge_node.Wire.{Hash, confirmed, locked, refund_pending, same_status}
use c_bridge_node.Transfer.{Time, Row, Transfer, scan_transfer, hex_to_hash}
use c_bridge_node.World.{World, Env, Sent, Call, Fault, Result, ok, err, TransferInfo}
use c_bridge_node.Exec.{M, perform, pure, ask, gets, for_each, ◌>>=◌}
use c_bridge_node.Exec.Keeps.{Keeps, Keeps-bind, Keeps-perform}
use c_bridge_node.Exec.Views.{View, On}
use c_bridge_node.Exec.Ends.{Ends, Ends-after, Ends-or_skip, Ends-if_found, Ends-else, Ends-then}
use c_bridge_node.Dal.{update_where, exec_table, now, set_transfer_status_by_from, status_by_from}
use c_bridge_node.Dal.Evolution.{Evolves, Evolves-refl, Evolves-trans, Evolves-update_where}
use c_bridge_node.Dal.Tables.{Keeps-exec_table}
use c_bridge_node.Dal.Statements.{Keeps-now}
use c_bridge_node.Dal.Reads.{Keeps-get_transfer_by_tid}
use c_bridge_node.Dal.Queries.{
  query, rows_unless, refundable, get_all_refund_able_transfer_in, query_row, scan_row,
  get_transfer_by_tid,
}
use c_bridge_node.Chain.{BridgeConfig, confirm, refund}
use c_bridge_node.Chain.Keeps.{Keeps-get_transfer, Keeps-transact}
use c_bridge_node.Chain.Works.{
  At, accepted_call, set_transfer_status_by_from-At, get_transfer-At, transact-At,
}
use c_bridge_node.Server.{Server}
use c_bridge_node.Server.Refund.{
  refund_unless_confirmed, confirm_or_refund, settle, try_refund, process_try_refund_transfer_in,
}

-- What the job asks of a related row: its marking another row as pending leaves all of it.
pub record SameToJob (r r' : Row) : Type 0 where
  pub tid : r.tid ≡ r'.tid
  pub chain_id : r.chain_id ≡ r'.chain_id
  pub preimage : r.preimage ≡ r'.preimage
  pub settled : same_status r.status confirmed ≡ same_status r'.status confirmed

SameToJob-refl : (r : Row) → SameToJob r r
SameToJob-refl r = record { tid = refl; chain_id = refl; preimage = refl; settled = refl }

SameToJob-trans : (a b c : Row) → SameToJob a b → SameToJob b c → SameToJob a c
SameToJob-trans a b c p q = record {
  tid = p.tid ∙ q.tid;
  chain_id = p.chain_id ∙ q.chain_id;
  preimage = p.preimage ∙ q.preimage;
  settled = p.settled ∙ q.settled;
}

-- The row to which an id leads.
abbrev pub first_with : Hash → List Row → Option Row
first_with tid rs = head? (select (λ r. r.tid == tid) rs)

first_with-Evolves :
    (tid : Hash) (rs rs' : List Row) (r : Row)
    → Evolves SameToJob rs rs'
    → first_with tid rs ≡ some r
    → (r' : Row) × (first_with tid rs' ≡ some r') × SameToJob r r'
unfolding select
first_with-Evolves tid [] rs' r h found = absurd (ground arith)
first_with-Evolves tid (x ∷ rs) [] r h found = absurd h
first_with-Evolves tid (x ∷ rs) (x' ∷ rs') r h found = elim (Bool-cases (x.tid == tid)) [
  | inl e ↦ (
    x',
    ground (arith, h.0.tid),
    let here : x ≡ r = ground arith in subst (λ y. SameToJob y x') here h.0,
  )
  | inr e ↦
      let (r', found', same) = first_with-Evolves tid rs rs' r h.1 (ground arith) in
      (r', ground (arith, h.0.tid), same)
]

-- The related row is not confirmed, and neither is its transfer on its chain.
pub record CanRefund (s : Server) (e : Env) (related : Row) : Type 0 where
  pub open_row : same_status related.status confirmed ≡ false
  pub bc : BridgeConfig
  pub configured : lookup s.chain_map related.chain_id ≡ some bc
  pub info : TransferInfo
  pub said : (n block : ℕ) → e.transfers n bc.chain_id block related.tid ≡ ok info
  pub not_confirmed : (info.status == 2) ≡ false

-- Nothing stands in the way of settling an expired transfer in: its chain is configured and answers
-- that it is pending, its related id leads to a row of the table, that row is confirmed or its
-- transfer can be seen not to be, and the transactor accepts.
pub record CanSettle (s : Server) (e : Env) (t₀ : List Row) (tx : Transfer) : Type 0 where
  pub bc : BridgeConfig
  pub configured : lookup s.chain_map tx.chain_id ≡ some bc
  pub info : TransferInfo
  pub said : (n block : ℕ) → e.transfers n bc.chain_id block tx.transfer_id ≡ ok info
  pub pending : (info.status == 1) ≡ true
  pub related : Row
  pub leads : first_with tx.related_tid t₀ ≡ some related
  pub way : (same_status related.status confirmed ≡ true) ⊎ CanRefund s e related
  pub accepted : (n : ℕ) (call : Call) → e.transact n bc.chain_id call ≡ none

-- The call that settles it: with the related row's preimage, or a refund.
abbrev pub settling_call : Transfer → Row → Call
settling_call tx related =
    if same_status related.status confirmed
    then Call.confirm tx.transfer_id (hex_to_hash related.preimage)
    else Call.refund tx.transfer_id

abbrev pub settlement_of :
    (s : Server) (e : Env) (t₀ : List Row) (tx : Transfer) → CanSettle s e t₀ tx → Sent
settlement_of s e t₀ tx can = accepted_call can.bc tx.transfer_id (settling_call tx can.related)

-- The settlements of these rows, in their order, each in front of those before.
abbrev pub settlements_of :
    (s : Server) (e : Env) (t₀ : List Row) (txs : List Transfer)
    → All (CanSettle s e t₀) txs
    → List Sent
    → List Sent
settlements_of s e t₀ [] can sent = sent
settlements_of s e t₀ (tx ∷ txs) can sent =
    settlements_of s e t₀ txs can.1 (settlement_of s e t₀ tx can.0 ∷ sent)

-- The rows that the job reads in this world.
abbrev pub expired_in : World → List Transfer
expired_in w = map scan_transfer (select (refundable (w.env.clock w.steps)) w.table)
