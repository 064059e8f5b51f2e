-- ===== src/Server/Refund/Settlements.antt =====
-- What processTryRefundTransferIn sends.
use c_bridge_node.Exec.{perform}
use c_bridge_node.Base.{◌≡◌, ◌≢◌, ◌∙◌, refl, sym, ap, ◌⊎◌, inl, inr, some, List, arith, ◌==◌}
use c_bridge_node.Base.Lists.{All-Among, Among}
use c_bridge_node.Base.Maps.{lookup, nat_eq}
use c_bridge_node.Wire.{confirmed, same_status-eq}
use c_bridge_node.Transfer.{Row, Transfer, scan_transfer}
use c_bridge_node.World.{World, Env, Sent, Call, ok, TransferInfo}
use c_bridge_node.Exec.Keeps.{
  Keeps, Keeps-pure, Keeps-bind, Keeps-bind_Yields, Keeps-if, Keeps-if_found, Keeps-or_skip,
  keeps_rules,
}
use c_bridge_node.Exec.Relies.{
  Relies, KeepsUnder, Relies-Yields, Relies-Keeps, Relies-pure, Relies-bind, Relies-if,
  Relies-or_skip, Relies-if_found,
}
use c_bridge_node.Exec.Views.{View, On, Both}
use c_bridge_node.Dal.Rows.{Rows}
use c_bridge_node.Dal.Stands.{Stands, loop_standing}
use c_bridge_node.Exec.{M}
use c_bridge_node.Base.Lists.{All}
use c_bridge_node.Exec.Keeps.{Yields}
use c_bridge_node.Dal.Queries.{refundable, get_all_refund_able_transfer_in, get_transfer_by_tid}
use c_bridge_node.Dal.Reads.{IsRowNow, Yields-query-now}
use c_bridge_node.Dal.Lookups.{Looked, FindsOnlyRows, Yields-get_transfer_by_tid}
use c_bridge_node.Chain.{BridgeConfig, get_transfer, confirm, refund}
use c_bridge_node.Chain.Answers.{ChainSaid, ClockSaid, Yields-now, Yields-get_transfer}
use c_bridge_node.Chain.Sends.{
  Untouched, Sending, Sending-known, Sending-transact, Sends-nothing, SentSince, sending_rules,
}
use c_bridge_node.Server.{Server}
use c_bridge_node.Server.Refund.{
  refund_unless_confirmed, confirm_or_refund, settle, try_refund, process_try_refund_transfer_in,
}

-- A chain of the configuration answered that the transfer has this status.
pub record HasRemote (s : Server) (e : Env) (tx : Transfer) : Type 0 where
  pub bc : BridgeConfig
  pub configured : lookup s.chain_map tx.chain_id ≡ some bc
  pub info : TransferInfo
  pub asked : ChainSaid e bc.chain_id tx.transfer_id (ok info)

-- An expired row, which had `Q`.
pub record IsExpired (s : Server) (e : Env) (Q : Row → Type 0) (tx : Transfer) : Type 0 where
  pub found : IsRowNow (ClockSaid e) Q refundable tx
  pub remote : HasRemote s e tx
  pub pending : remote.info.status ≡ 1

-- The row that the transfer's related id leads to, which had `R`.
pub record IsRelated (R : Row → Type 0) (tx related : Transfer) : Type 0 where
  pub row : Row
  pub had : R row
  pub scanned : related ≡ scan_transfer row
  pub keyed : row.tid ≡ tx.related_tid

pub record Refunds (s : Server) (e : Env) (tx related : Transfer) (c : Call) : Type 0 where
  pub call : c ≡ Call.refund tx.transfer_id
  pub not_confirmed : related.status ≢ confirmed
  pub out : HasRemote s e related
  pub out_not_confirmed : out.info.status ≢ 2

pub record Confirms (tx related : Transfer) (c : Call) : Type 0 where
  pub call : c ≡ Call.confirm tx.transfer_id related.preimage
  pub confirmed : related.status ≡ confirmed

-- A transaction that refunds or confirms an expired row, which had `Q`, by its related row, which had `R`.
pub record IsSettlement (s : Server) (e : Env) (Q R : Row → Type 0) (sent : Sent) : Type 0 where
  pub tx : Transfer
  pub expired : IsExpired s e Q tx
  pub on_chain : sent.chain ≡ expired.remote.bc.chain_id
  pub related : Transfer
  pub leads : IsRelated R tx related
  pub way : Refunds s e tx related sent.call ⊎ Confirms tx related sent.call

module _ (s : Server) (e : Env) (Q R : Row → Type 0) (s₀ : List Sent) (G : Sent → Type 0)
    (good : (x : Sent) → IsSettlement s e Q R x → G x) where
  abbrev Settling : View
  Settling = Sending e s₀ G

  known : (env : Env) (rows : List Row) (sent : List Sent) → Settling env rows sent → env ≡ e
  known = Sending-known e s₀ G

  module _ (tx related : Transfer) (expired : IsExpired s e Q tx)
      (leads : IsRelated R tx related) where
    refund-Settling :
        related.status ≢ confirmed
        → (out : HasRemote s e related) → out.info.status ≢ 2
        → Keeps (On Settling) (refund expired.remote.bc tx.transfer_id tx.related_tid tx.hash_lock)
    unfolding refund
    refund-Settling open_out out not_out =
        Sending-transact e s₀ G expired.remote.bc tx.transfer_id _ λ outcome. good _ (record {
          tx = tx;
          expired = expired;
          on_chain = refl;
          related = related;
          leads = leads;
          way = inl (record {
            call = refl;
            not_confirmed = open_out;
            out = out;
            out_not_confirmed = not_out;
          });
        })

    confirm-Settling :
        related.status ≡ confirmed
        → Keeps (On Settling) (
            confirm expired.remote.bc tx.transfer_id related.transfer_id related.preimage
              tx.hash_lock)
    unfolding confirm
    confirm-Settling done = Sending-transact e s₀ G expired.remote.bc tx.transfer_id _ λ outcome.
        good _ (record {
          tx = tx;
          expired = expired;
          on_chain = refl;
          related = related;
          leads = leads;
          way = inr (record { call = refl; confirmed = done });
        })

    refund_unless_confirmed-Settling :
        related.status ≢ confirmed
        → Keeps (On Settling) (refund_unless_confirmed s expired.remote.bc tx related)
    unfolding refund_unless_confirmed
    refund_unless_confirmed-Settling open_out =
        Keeps-if_found (lookup s.chain_map related.chain_id) _ λ out_bc configured.
          Keeps-bind_Yields (get_transfer out_bc related.transfer_id) _
            (ChainSaid e out_bc.chain_id related.transfer_id)
            (Yields-get_transfer e known out_bc related.transfer_id)
            λ r said. Keeps-or_skip r _ λ out ok_out.
              Keeps-if _ _ _ (λ done. Keeps-pure tt)
                λ not_done.
                  Keeps-bind _ _
                    (refund-Settling open_out
                      (record {
                        bc = out_bc;
                        configured = configured;
                        info = out;
                        asked = record {
                          moment = said.moment;
                          block = said.block;
                          answer = sym ok_out ∙ said.answer;
                        };
                      })
                      (λ two. ground arith))
                    (λ u. Keeps-pure tt)

    confirm_or_refund-Settling :
        Keeps (On Settling) (confirm_or_refund s expired.remote.bc tx related)
    unfolding confirm_or_refund
    confirm_or_refund-Settling =
        Keeps-if _ _ _
          (λ done.
            Keeps-bind _ _ (confirm-Settling (same_status-eq related.status confirmed done))
              (λ u. Keeps-pure tt))
          (λ not_done. refund_unless_confirmed-Settling (λ done. ground arith))

  -- Each row that the table has when the job looks into it has `R`.
  abbrev Rely : World → Type 0
  Rely = On (Rows R)

  abbrev Reading : View
  Reading = Both Settling (Rows R)

  reading-known : (env : Env) (rows : List Row) (sent : List Sent) → Reading env rows sent → env ≡ e
  reading-known env rows sent h = h.0.same_env

  rows_have : (w : World) → On Reading w → All R w.table
  unfolding Rows
  rows_have w h = h.holds.1

  -- What is read under `Reading` is read of such a table.
  pub read-Settling :
      {A : Type 0} (m : M A) (F : A → Type 0)
      → Yields (On Reading) m F
      → Relies Rely (On Settling) m F
  read-Settling m F y =
      Relies-Yields Rely (On Settling) (On Reading) F
        (λ w t p. record { holds = (p.holds, t.holds) }) (λ w r. record { holds = r.holds.0 }) y

  module _ (finds : FindsOnlyRows e) where
    settle-Settling :
        (tx : Transfer) (expired : IsExpired s e Q tx)
        → KeepsUnder Rely (On Settling) (settle s expired.remote.bc tx)
    unfolding settle
    settle-Settling tx expired = Relies-bind _ _ _ _ (Relies-Keeps (search sending_rules)) λ set u.
        Relies-bind (get_transfer_by_tid tx.related_tid) _
          (Looked e (λ r. R r × (r.tid ≡ tx.related_tid))) _
          (read-Settling _ _
            (Yields-get_transfer_by_tid e reading-known R rows_have tx.related_tid))
          λ r looked. Relies-or_skip r.1 _ λ exist ok_exist.
            Relies-if _ _ _
              (λ yes_exist.
                let (row, scanned, (had, keyed)) =
                  looked.found
                    (finds looked.error (sym looked.checked ∙ ok_exist ∙ ap ok yes_exist)) in
                Relies-Keeps (
                  confirm_or_refund-Settling tx r.0 expired
                    (record { row = row; had = had; scanned = scanned; keyed = keyed })))
              (λ absent. Relies-pure)

    pub try_refund-Settling :
        (tx : Transfer)
        → IsRowNow (ClockSaid e) Q refundable tx
        → KeepsUnder Rely (On Settling) (try_refund s tx)
    unfolding try_refund
    try_refund-Settling tx found =
        Relies-if_found (lookup s.chain_map tx.chain_id) _ λ bc configured.
          Relies-bind (get_transfer bc tx.transfer_id) _ (ChainSaid e bc.chain_id tx.transfer_id) _
            (read-Settling _ _ (Yields-get_transfer e reading-known bc tx.transfer_id))
            λ r said. Relies-or_skip r _ λ info ok_info.
              Relies-if (info.status == 1) _ _
                (λ pending. settle-Settling tx (record {
                  found = found;
                  remote = record {
                    bc = bc;
                    configured = configured;
                    info = info;
                    asked = record {
                      moment = said.moment;
                      block = said.block;
                      answer = sym ok_info ∙ said.answer;
                    };
                  };
                  pending = ground arith;
                }))
                (λ other. Relies-Keeps (search (keeps_rules, sending_rules)))

-- Every transaction that a run of the refunding job sends is for a transfer in that stood locked in
-- the table at its start, with a time lock that had passed, and that its configured chain said to be
-- pending. Given that sqldb.ChkQueryRow finds only rows, the related id leads to a row that stands in
-- the table at a moment of the run, and either that row is confirmed, and the transaction confirms the
-- transfer with that row's preimage; or it is not, its own configured chain answered that the transfer
-- out is not confirmed there either, and the transaction refunds the transfer.
pub sends-IsSettlement :
    (s : Server) (w : World)
    → FindsOnlyRows w.env
    → SentSince w.sent
        (IsSettlement s w.env (λ r. Among r w.table) (Stands (process_try_refund_transfer_in s) w))
        (perform (process_try_refund_transfer_in s) w).1.sent
unfolding process_try_refund_transfer_in get_all_refund_able_transfer_in
sends-IsSettlement s w finds =
    let R = Stands (process_try_refund_transfer_in s) w in
    let G = IsSettlement s w.env (λ r. Among r w.table) R in
    (loop_standing get_all_refund_able_transfer_in (try_refund s)
      (IsRowNow (ClockSaid w.env) (λ r. Among r w.table) refundable) (On (Untouched w))
      (On (Sending w.env w.sent G)) w
      (Yields-query-now refundable (ClockSaid w.env) (λ r. Among r w.table)
        (Yields-now w.env (λ env t sent h. h.same_env))
        λ w' h. rw h.holds.same_table (All-Among w.table))
      (λ w' h. record {
        holds = rw (h.holds.same_env, h.holds.same_sent) (Sends-nothing w.env w.sent G);
      })
      (try_refund-Settling s w.env (λ r. Among r w.table) R w.sent G (λ x h. h) finds)
      (record {
        holds = record { same_env = refl; same_table = refl; same_sent = refl };
      })).holds.since
