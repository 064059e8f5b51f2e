-- ===== src/Dal/Lookups.antt =====
-- What a lookup of one row (d.QueryRow in server/dal.go) tells.
use c_bridge_node.Base.{◌≡◌, refl, Bool, true, Option, none, some, List, [], ◌∷◌, ◌==◌, ==_iff}
use c_bridge_node.Base.Lists.{All, All-select, select, head?}
use c_bridge_node.Wire.{Hash}
use c_bridge_node.Transfer.{Row, Transfer, scan_transfer}
use c_bridge_node.World.{World, Env, Fault, Sent, Result, ok}
use c_bridge_node.Exec.Keeps.{Yields, Yields-bind, Yields-Unit, Yields-pure, Yields-mono}
use c_bridge_node.Exec.Views.{View, On, Keeps-ask, Yields-gets}
use c_bridge_node.Dal.Queries.{scan_row, query_row, get_transfer_by_tid}

-- The scan ended with this error, which was given to sqldb.ChkQueryRow; without an error a row was
-- read that meets the condition.
pub record Looked (e : Env) (P : Row → Type 0) (r : Transfer × Result Bool) : Type 0 where
  pub error : Option Fault
  pub checked : r.1 ≡ e.chk_query_row error
  pub found : error ≡ none → (row : Row) × (r.0 ≡ scan_transfer row) × P row

-- What the code relies on: sqldb.ChkQueryRow says "found" only of a scan without an error.
abbrev pub FindsOnlyRows : Env → Type 0
FindsOnlyRows e = (error : Option Fault) → e.chk_query_row error ≡ ok true → error ≡ none

abbrev HasSome : (Row → Type 0) → Option Row → Type 0
HasSome P none = Unit
HasSome P (some r) = P r

head-HasSome : (P : Row → Type 0) (rs : List Row) → All P rs → HasSome P (head? rs)
head-HasSome P [] h = tt
head-HasSome P (r ∷ rs) h = h.0

scan-Looked :
    (e : Env) (P : Row → Type 0) (fault : Option Fault) (found : Option Row) (checked : Result Bool)
    → HasSome P found
    → checked ≡ e.chk_query_row (scan_row fault found).1
    → Looked e P ((scan_row fault found).0, checked)
unfolding scan_row
scan-Looked e P (some x) found checked h eq = record {
  error = some x;
  checked = eq;
  found = λ no_error. cc;
}
scan-Looked e P none none checked h eq = record { error = _; checked = eq; found = λ no_error. cc }
scan-Looked e P none (some row) checked h eq = record {
  error = none;
  checked = eq;
  found = λ no_error. (row, refl, h);
}

module _ {V : View} (e : Env)
    (known : (env : Env) (t : List Row) (s : List Sent) → V env t s → env ≡ e) (Q : Row → Type 0)
    (q : (w : World) → On V w → All Q w.table) where
  Yields-query_row :
      (p : Row → Bool) → Yields (On V) (query_row p) (Looked e (λ r. Q r × (p r ≡ true)))
  unfolding query_row
  Yields-query_row p = Yields-bind _ _ _ _ (Yields-Unit _ (Keeps-ask _)) λ fault u.
      Yields-bind _ _ (HasSome (λ r. Q r × (p r ≡ true))) _
        (Yields-gets _ _ λ w h. head-HasSome _ (select p w.table) (All-select Q p w.table (q w h)))
        λ found has.
          Yields-bind _ _ (λ c. c ≡ e.chk_query_row (scan_row fault found).1) _
            (Yields-gets _ _ λ w h i.
              (known w.env w.table w.sent h.holds i).chk_query_row (scan_row fault found).1)
            λ checked eq. Yields-pure _ _ (scan-Looked e _ fault found checked has eq)

  pub Yields-get_transfer_by_tid :
      (tid : Hash) → Yields (On V) (get_transfer_by_tid tid) (Looked e (λ r. Q r × (r.tid ≡ tid)))
  unfolding get_transfer_by_tid
  Yields-get_transfer_by_tid tid =
      Yields-mono _ _ _
        (λ r h. record {
          error = h.error;
          checked = h.checked;
          found = λ n.
              let (row, eq, (had, p)) = h.found n in (row, eq, (had, (==_iff row.tid tid).0 p));
        })
        (Yields-query_row (λ r. r.tid == tid))
