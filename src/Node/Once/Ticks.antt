-- ===== src/Node/Once/Ticks.antt =====
-- A tick of processTrySendTransferIn (server/server.go): of the rows that it reads, at most one is the
-- transfer's, and that row was waiting when it was read.
use c_bridge_node.Base.{
  ℕ, ◌≡◌, refl, sym, Bool, true, false, ◌⊎◌, inl, inr, Option, none, some, List, [], ◌∷◌, map,
  arith, ◌==◌, Bool-cases,
}
use mathlib.Core.Path.{subst}
use c_bridge_node.Base.Lists.{select}
use c_bridge_node.Wire.{Hash}
use c_bridge_node.Transfer.{Time, Row, Transfer, scan_transfer}
use c_bridge_node.World.{Sent, Fault, Result, ok, err}
use c_bridge_node.Exec.{ask, gets, pure, ◌>>=◌, or_skip, for_each}
use c_bridge_node.Exec.Views.{Keeps-ask}
use c_bridge_node.Exec.Outlines.{Outline, Outline-bind, Outline-Keeps-bind, Anywhere}
use c_bridge_node.Dal.{has_tid, now}
use c_bridge_node.Dal.Evolution.{HasKeys}
use c_bridge_node.Dal.Queries.{startable, query, rows_unless, get_all_start_transfer_in}
use c_bridge_node.Dal.Statements.{Keeps-now}
use c_bridge_node.Server.{Server}
use c_bridge_node.Server.Send.{try_send, process_try_send_transfer_in}
use c_bridge_node.Node.Once.Phases.{is_waiting, Phase, unpaid, over, InPhase}
use c_bridge_node.Node.Once.Calm.{Steady-Keeps}
use c_bridge_node.Node.Once.Paying.{In, try_send-Anywhere, try_send-Steps}

has_tid-select :
    (tid : Hash) (p : Row → Bool) (rs : List Row)
    → has_tid tid rs ≡ false
    → has_tid tid (select p rs) ≡ false
unfolding has_tid select
has_tid-select tid p [] h = refl
has_tid-select tid p (r ∷ rs) h = ground (arith, has_tid-select tid p rs)

select-HasKeys : (p : Row → Bool) (rs : List Row) → HasKeys rs → HasKeys (select p rs)
unfolding select
select-HasKeys p [] h = tt
select-HasKeys p (r ∷ rs) h = ground (arith, has_tid-select r.tid p rs h.0, select-HasKeys p rs h.1)

-- A row of the transfer that the job reads is waiting.
select-is_waiting :
    (tid : Hash) (ts : Time) (rs : List Row)
    → has_tid tid (select (startable ts) rs) ≡ true
    → is_waiting tid rs ≡ true
unfolding has_tid select startable is_waiting
select-is_waiting tid ts [] h = cc
select-is_waiting tid ts (r ∷ rs) h = ground (arith, select-is_waiting tid ts rs)

is_waiting-has_tid : (tid : Hash) (rs : List Row) → is_waiting tid rs ≡ true → has_tid tid rs ≡ true
unfolding has_tid is_waiting
is_waiting-has_tid tid [] h = cc
is_waiting-has_tid tid (r ∷ rs) h = ground (arith, is_waiting-has_tid tid rs)

module _ (tid : Hash) (k : ℕ) where
  -- None of the rows left is the transfer's, or it is unpaid and they have different keys.
  abbrev Todo : List Row → Phase → Type 0
  Todo rows p = (has_tid tid rows ≡ false) ⊎ ((p ≡ unpaid) × HasKeys rows)

  over-unpaid :
      (ts : Time) (t : List Row) (s : List Sent)
      → has_tid tid (select (startable ts) t) ≡ true
      → InPhase tid k over t s
      → InPhase tid k unpaid t s
  over-unpaid ts t s found (keys, inl same) =
      (keys, same, is_waiting-has_tid tid t (select-is_waiting tid ts t found))
  over-unpaid ts t s found (keys, inr (more, closed)) =
      absurd (cc (select-is_waiting tid ts t found, closed.not_waiting))

  read-Todo : (ts : Time) → Outline (In tid k) over Todo (gets (λ w. select (startable ts) w.table))
  unfolding gets
  read-Todo ts = λ w h. elim (Bool-cases (has_tid tid (select (startable ts) w.table))) [
    | inl e ↦ (
      unpaid,
      record { holds = over-unpaid ts w.table w.sent e h.holds },
      inr (refl, select-HasKeys (startable ts) w.table h.holds.0),
    )
    | inr e ↦ (over, h, inl e)
  ]

  -- What the query returns, if no error.
  abbrev Read : Result (List Transfer) → Phase → Type 0
  Read (ok txs) p = (rows : List Row) × (txs ≡ map scan_transfer rows) × Todo rows p
  Read (err e) p = Unit

  rows_unless-Read :
      (fault : Option Fault) (rows : List Row) (p : Phase)
      → Todo rows p
      → Read (rows_unless fault (map scan_transfer rows)) p
  unfolding rows_unless
  rows_unless-Read none rows p h = (rows, refl, h)
  rows_unless-Read (some e) rows p h = tt

  query-Read : (ts : Time) → Outline (In tid k) over Read (query (select (startable ts)))
  unfolding query pure
  query-Read ts =
      Outline-Keeps-bind (In tid k) over Read (ask (λ env n. env.db_fault n)) _ (Keeps-ask _)
        λ fault.
          Outline-bind (In tid k) over Todo Read (gets _) _ (read-Todo ts)
            λ rows p h. rows_unless-Read fault rows p h

  rest-Anywhere :
      (s : Server) (rows : List Row) (p : Phase)
      → Todo rows p
      → Outline (In tid k) p Anywhere (for_each (try_send s) (map scan_transfer rows))
  unfolding for_each pure has_tid scan_transfer
  rest-Anywhere s [] p h = tt
  rest-Anywhere s (r ∷ rows) p (inl none_left) =
      Outline-Keeps-bind (In tid k) p Anywhere (try_send s (scan_transfer r)) _
        (Steady-Keeps tid k p _ (try_send-Steps tid k (scan_transfer r) (ground arith) s))
        λ u. rest-Anywhere s rows p (inl (ground arith))
  rest-Anywhere s (r ∷ rows) p (inr (still, keys)) = elim (Bool-cases (r.tid == tid)) [
    | inl this ↦
        subst
          (λ q.
            Outline (In tid k) q Anywhere (for_each (try_send s) (map scan_transfer (r ∷ rows))))
          (sym still)
          (Outline-bind (In tid k) unpaid Anywhere Anywhere (try_send s (scan_transfer r)) _
            (try_send-Anywhere tid k s (scan_transfer r) (ground arith))
            λ u p' h. rest-Anywhere s rows p' (inl (ground (arith, keys.0))))
    | inr other ↦
        Outline-Keeps-bind (In tid k) p Anywhere (try_send s (scan_transfer r)) _
          (Steady-Keeps tid k p _ (try_send-Steps tid k (scan_transfer r) other s))
          λ u. rest-Anywhere s rows p (inr (still, keys.1))
  ]

  loop-Anywhere :
      (s : Server) (r : Result (List Transfer)) (p : Phase)
      → Read r p
      → Outline (In tid k) p Anywhere (or_skip r (for_each (try_send s)))
  unfolding or_skip pure
  loop-Anywhere s (err e) p h = tt
  loop-Anywhere s (ok txs) p (rows, scanned, todo) =
      subst (λ xs. Outline (In tid k) p Anywhere (for_each (try_send s) xs)) (sym scanned)
        (rest-Anywhere s rows p todo)

  -- A tick of the paying job goes through the phases, whatever others do that keep them.
  pub tick-Anywhere :
      (s : Server) → Outline (In tid k) over Anywhere (process_try_send_transfer_in s)
  unfolding process_try_send_transfer_in get_all_start_transfer_in
  tick-Anywhere s =
      Outline-bind (In tid k) over Read Anywhere (now >>= λ ts. query (select (startable ts))) _
        (Outline-Keeps-bind (In tid k) over Read now _ Keeps-now query-Read) (loop-Anywhere s)
