-- ===== src/Dal/Reads.antt =====
-- Reading changes nothing that a view shows: the SELECT statements, and the questions that the
-- node asks of the chains and of the gateway.
use c_bridge_node.Base.{◌≡◌, refl, Bool, true, Option, none, some, List, [], ◌∷◌, map}
use c_bridge_node.Base.Lists.{All, All-mono, All-select, select}
use c_bridge_node.Wire.{Hash}
use c_bridge_node.Transfer.{Time, Row, Transfer, scan_transfer}
use c_bridge_node.World.{World, Fault}
use c_bridge_node.Exec.{◌>>=◌}
use c_bridge_node.Exec.Keeps.{
  Keeps, Yields, OnOk, OnOk-mono, Yields-mono, Yields-bind, Yields-Unit, Yields-pure, keeps_rules,
}
use c_bridge_node.Exec.Views.{View, On, Keeps-ask, Yields-gets}
use c_bridge_node.Dal.{now}
use c_bridge_node.Dal.Queries.{
  rows_unless, query, get_all_start_transfer_in, get_all_confirmable_locked_transfer,
  get_recover_timeout_pending_transfer_in, get_recover_timeout_pending_confirm,
  get_recover_timeout_pending_refund, get_all_refund_able_transfer_in, query_row,
  get_transfer_by_tid,
}
use c_bridge_node.Dal.Statements.{Keeps-now}

-- `tx` was scanned from a row with `Q` that the condition selects.
pub record IsRow (Q : Row → Type 0) (p : Row → Bool) (tx : Transfer) : Type 0 where
  pub row : Row
  pub scanned : tx ≡ scan_transfer row
  pub known : Q row
  pub chosen : p row ≡ true

pub record IsRowNow (C : Time → Type 0) (Q : Row → Type 0) (p : Time → Row → Bool) (tx : Transfer)
    : Type 0 where
  pub time : Time
  pub clocked : C time
  pub at_time : IsRow Q (p time) tx

rows_unless-OnOk :
    (Q : Row → Type 0) (p : Row → Bool) (fault : Option Fault) (rows : List Row)
    → All (λ r. Q r × (p r ≡ true)) rows
    → OnOk (All (IsRow Q p)) (rows_unless fault (map scan_transfer rows))
unfolding rows_unless
rows_unless-OnOk Q p (some e) rows h = tt
rows_unless-OnOk Q p none [] h = tt
rows_unless-OnOk Q p none (r ∷ rows) h = (
  record { row = r; scanned = refl; known = h.0.0; chosen = h.0.1 },
  rows_unless-OnOk Q p none rows h.1,
)

module _ {V : View} where
  pub Keeps-query : (q : List Row → List Row) → Keeps (On V) (query q)
  unfolding query
  Keeps-query q = search (keeps_rules, Keeps-ask)

  -- Each row that a query returns is a row of the table, and meets the condition.
  pub Yields-query :
      (p : Row → Bool) (Q : Row → Type 0)
      → ((w : World) → On V w → All Q w.table)
      → Yields (On V) (query (select p)) (OnOk (All (IsRow Q p)))
  unfolding query
  Yields-query p Q q = Yields-bind _ _ _ _ (Yields-Unit _ (Keeps-ask _)) λ fault u.
      Yields-bind _ _ (All (λ r. Q r × (p r ≡ true))) _
        (Yields-gets _ _ λ w h. All-select Q p w.table (q w h))
        λ rows h. Yields-pure _ _ (rows_unless-OnOk Q p fault rows h)

  -- The same of a query whose condition has the present time in it.
  pub Yields-query-now :
      (p : Time → Row → Bool) (C : Time → Type 0) (Q : Row → Type 0)
      → Yields (On V) now C
      → ((w : World) → On V w → All Q w.table)
      → Yields (On V) (now >>= λ ts. query (select (p ts))) (OnOk (All (IsRowNow C Q p)))
  Yields-query-now p C Q clocked q = Yields-bind _ _ C _ clocked λ ts c.
      Yields-mono _ _ _
        (λ r.
          OnOk-mono (All (IsRow Q (p ts))) (All (IsRowNow C Q p)) r
            λ txs. All-mono _ txs λ tx h. record { time = ts; clocked = c; at_time = h })
        (Yields-query (p ts) Q q)

  Keeps-query_row : (p : Row → Bool) → Keeps (On V) (query_row p)
  unfolding query_row
  Keeps-query_row p = search (keeps_rules, Keeps-ask)

  pub Keeps-get_transfer_by_tid : (tid : Hash) → Keeps (On V) (get_transfer_by_tid tid)
  unfolding get_transfer_by_tid
  Keeps-get_transfer_by_tid tid = Keeps-query_row _

  pub Keeps-get_all_start_transfer_in : Keeps (On V) get_all_start_transfer_in
  unfolding get_all_start_transfer_in
  Keeps-get_all_start_transfer_in = search (keeps_rules, Keeps-now, Keeps-query)

  pub Keeps-get_all_confirmable_locked_transfer : Keeps (On V) get_all_confirmable_locked_transfer
  unfolding get_all_confirmable_locked_transfer
  Keeps-get_all_confirmable_locked_transfer = Keeps-query _

  pub Keeps-get_recover_timeout_pending_transfer_in :
      Keeps (On V) get_recover_timeout_pending_transfer_in
  unfolding get_recover_timeout_pending_transfer_in
  Keeps-get_recover_timeout_pending_transfer_in = search (keeps_rules, Keeps-now, Keeps-query)

  pub Keeps-get_recover_timeout_pending_confirm : Keeps (On V) get_recover_timeout_pending_confirm
  unfolding get_recover_timeout_pending_confirm
  Keeps-get_recover_timeout_pending_confirm = search (keeps_rules, Keeps-now, Keeps-query)

  pub Keeps-get_recover_timeout_pending_refund : Keeps (On V) get_recover_timeout_pending_refund
  unfolding get_recover_timeout_pending_refund
  Keeps-get_recover_timeout_pending_refund = search (keeps_rules, Keeps-now, Keeps-query)

  pub Keeps-get_all_refund_able_transfer_in : Keeps (On V) get_all_refund_able_transfer_in
  unfolding get_all_refund_able_transfer_in
  Keeps-get_all_refund_able_transfer_in = search (keeps_rules, Keeps-now, Keeps-query)

pub ruleset read_rules = (
  Keeps-ask, Keeps-now, Keeps-get_transfer_by_tid, Keeps-get_all_start_transfer_in,
  Keeps-get_all_confirmable_locked_transfer, Keeps-get_recover_timeout_pending_transfer_in,
  Keeps-get_recover_timeout_pending_confirm, Keeps-get_recover_timeout_pending_refund,
  Keeps-get_all_refund_able_transfer_in,
)
