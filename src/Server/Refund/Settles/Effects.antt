-- ===== src/Server/Refund/Settles/Effects.antt =====
-- The statements and questions of processTryRefundTransferIn (server/server.go) where they are
-- answered: what they leave of the table as the job sees it.
use c_bridge_node.Base.{ℕ, ◌≡◌, refl, ap, ◌∙◌, true, Option, none, some, List, arith}
use c_bridge_node.Base.Maps.{nat_eq}
use c_bridge_node.Wire.{Hash, locked, refund_pending, same_status-eq}
use c_bridge_node.Transfer.{Row, Transfer, scan_transfer}
use c_bridge_node.World.{World, Env, Sent, Fault, ok}
use c_bridge_node.Exec.{M, pure, ask, gets, ◌>>=◌}
use c_bridge_node.Exec.Keeps.{Keeps, Keeps-bind, Keeps-perform}
use c_bridge_node.Exec.Views.{View, On}
use c_bridge_node.Exec.Ends.{Ends}
use c_bridge_node.Dal.{now, set_transfer_status_by_from, status_by_from}
use c_bridge_node.Dal.Evolution.{Evolves, Evolves-trans, Evolves-update_where}
use c_bridge_node.Dal.Tables.{Keeps-exec_table}
use c_bridge_node.Dal.Statements.{Keeps-now}
use c_bridge_node.Dal.Queries.{query_row, scan_row, get_transfer_by_tid}
use c_bridge_node.Chain.Works.{At}
use c_bridge_node.Server.Refund.Settles.{SameToJob, SameToJob-refl, SameToJob-trans, first_with}

scan_row_found :
    (fault : Option Fault) (o : Option Row) (r : Row)
    → fault ≡ none
    → o ≡ some r
    → scan_row fault o ≡ (scan_transfer r, none)
unfolding scan_row
scan_row_found (some x) o r no_fault found = absurd (ground arith)
scan_row_found none none r no_fault found = absurd (ground arith)
scan_row_found none (some x) r no_fault found =
    let here : x ≡ r = ground arith in ap (λ (y : Row). (scan_transfer y, none)) here

-- In this environment, with these transactions, and with a table that shows the job the same.
pub record Here (e : Env) (t₀ : List Row) (sent : List Sent) (w : World) : Type 0 where
  pub at : At e sent w
  pub same : On (λ env t s. Evolves SameToJob t₀ t) w

module _ (e : Env) (t₀ : List Row) where
  abbrev Same : View
  Same env t s = Evolves SameToJob t₀ t

  -- What ends in this environment, and keeps what the table shows the job.
  pub stay :
      {A : Type 0} (Q : A → Type 0) (sent sent' : List Sent) (m : M A) (w : World)
      → (At e sent w → Ends m w (λ a w'. Q a × At e sent' w'))
      → Keeps (On Same) m
      → Here e t₀ sent w
      → Ends m w (λ a w'. Q a × Here e t₀ sent' w')
  stay Q sent sent' m w ends kept h =
      let there = ends h.at in
      record {
        ends = (there.ends.0, record { at = there.ends.1; same = Keeps-perform kept w h.same });
      }

  pub mark-Same :
      (tid : Hash) → Keeps (On Same) (set_transfer_status_by_from tid refund_pending locked)
  unfolding set_transfer_status_by_from status_by_from
  mark-Same tid = Keeps-bind now _ Keeps-now λ ts. Keeps-exec_table _ λ env t s h.
      Evolves-trans SameToJob SameToJob-trans t₀ t _ h (
        Evolves-update_where SameToJob SameToJob-refl _ _ t λ r hit. record {
          tid = refl;
          chain_id = refl;
          preimage = refl;
          settled = ground (arith, same_status-eq r.status locked);
        })

  pub get_transfer_by_tid-At :
      (sent : List Sent) (tid : Hash) (r : Row) (w : World)
      → ((n : ℕ) → e.db_fault n ≡ none)
      → e.chk_query_row none ≡ ok true
      → first_with tid w.table ≡ some r
      → At e sent w
      → Ends
          (get_transfer_by_tid tid)
          w
          (λ x w'. ((x.0 ≡ scan_transfer r) × (x.1 ≡ ok true)) × At e sent w')
  unfolding get_transfer_by_tid query_row ask gets pure ◌>>=◌
  get_transfer_by_tid-At sent tid r w answers found_ok leads at =
      let seen =
        scan_row_found (w.env.db_fault w.steps) (first_with tid w.table) r
          (ap (λ (x : Env). x.db_fault w.steps) at.env ∙ answers w.steps) leads in
      record {
        ends = (
          (
            ap (λ (p : Transfer × Option Fault). p.0) seen,
            ap (λ (p : Transfer × Option Fault). w.env.chk_query_row p.1) seen
                ∙ (ap (λ (x : Env). x.chk_query_row none) at.env ∙ found_ok),
          ),
          record { env = at.env; so_far = at.so_far },
        );
      }
