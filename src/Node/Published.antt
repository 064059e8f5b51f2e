-- ===== src/Node/Published.antt =====
-- From a published preimage to the claim: the callback of a confirmation (monitorLogConfirm) and the
-- next tick of processTryConfirmTransfer (server/server.go).
use c_bridge_node.Base.{ℕ, suc, ◌≡◌, ◌≢◌, refl, sym, ap, none, some, List, [], ◌∷◌, inl, inr}
use mathlib.Core.Path.{subst}
use c_bridge_node.Base.Lists.{All, Among, select}
use c_bridge_node.Base.Places.{Among-map}
use c_bridge_node.Wire.{Hash, locked}
use c_bridge_node.Transfer.{Row, Transfer, scan_transfer}
use c_bridge_node.World.{World, Env, Sent, Call}
use c_bridge_node.Exec.{perform}
use c_bridge_node.Exec.Keeps.{Keeps-perform}
use c_bridge_node.Dal.Queries.{confirmable}
use c_bridge_node.Chain.Sends.{Sends-nothing}
use c_bridge_node.Server.{Server}
use c_bridge_node.Server.Events.{LogTransferConfirmed, monitor_log_confirm}
use c_bridge_node.Server.Events.Claimable.{monitor_log_confirm-confirmable}
use c_bridge_node.Server.Confirm.{process_try_confirm_transfer}
use c_bridge_node.Server.Confirm.Collects.{
  CanClaim, claim_of, claims_of, claimable_in, process_try_confirm_transfer-claims_of,
}
use c_bridge_node.Node.Threads.Quiet.{monitor_log_confirm-Sending}

-- A transaction that claims this transfer with this preimage was sent.
abbrev pub Claimed : Hash → Hash → List Sent → Type 0
Claimed tid preimage sent =
    (x : Sent) × Among x sent × (x.transfer_id ≡ tid) × (x.call ≡ Call.confirm tid preimage)

module _ (s : Server) (e : Env) where
  Among-later :
      (x : Sent) (txs : List Transfer) (can : All (CanClaim s e) txs) (sent : List Sent)
      → Among x sent
      → Among x (claims_of s e txs can sent)
  Among-later x [] can sent there = there
  Among-later x (tx ∷ txs) can sent there =
      Among-later x txs can.1 (claim_of s e tx can.0 ∷ sent) (inr there)

  claims_of-Claimed :
      (tx : Transfer) (txs : List Transfer) (can : All (CanClaim s e) txs) (sent : List Sent)
      → Among tx txs
      → Claimed tx.transfer_id tx.preimage (claims_of s e txs can sent)
  claims_of-Claimed tx [] can sent there = elim there [ ]
  claims_of-Claimed tx (y ∷ txs) can sent (inl same) = (
    claim_of s e y can.0,
    Among-later _ txs can.1 (claim_of s e y can.0 ∷ sent) (inl refl),
    ap (λ t. t.transfer_id) same,
    ap (λ t. Call.confirm t.transfer_id t.preimage) same,
  )
  claims_of-Claimed tx (y ∷ txs) can sent (inr later) =
      claims_of-Claimed tx txs can.1 (claim_of s e y can.0 ∷ sent) later

-- The world after the callback.
abbrev pub told : LogTransferConfirmed → Hash → World → World
told ev tx_hash w = (perform (monitor_log_confirm (some ev) tx_hash) w).1

told_env :
    (ev : LogTransferConfirmed) (tx_hash : Hash) (w : World) → (told ev tx_hash w).env ≡ w.env
told_env ev tx_hash w =
    (Keeps-perform (monitor_log_confirm-Sending w.env w.sent (λ x. Unit {0}) (some ev) tx_hash) w
      (record { holds = Sends-nothing w.env w.sent (λ x. Unit {0}) })).holds.same_env

-- Where the database answers: after the log that a transfer was confirmed, with its preimage, the next
-- tick of the confirming job claims every other row that was locked and related to that transfer,
-- with that preimage, if nothing stands in the way of the claims of the rows that it reads.
pub published-Claimed :
    (s : Server) (ev : LogTransferConfirmed) (tx_hash : Hash) (w : World) (row : Row)
    → ((n : ℕ) → w.env.db_fault n ≡ none)
    → Among row w.table
    → row.related_tid ≡ ev.transfer_id
    → row.tid ≢ ev.transfer_id
    → row.status ≡ locked
    → All (CanClaim s w.env) (claimable_in (told ev tx_hash w))
    → Claimed row.tid ev.preimage
        (perform (process_try_confirm_transfer s) (told ev tx_hash w)).1.sent
unfolding scan_transfer
published-Claimed s ev tx_hash w row answers there related other is_locked can =
    let w' = told ev tx_hash w in
    let readable =
      monitor_log_confirm-confirmable ev tx_hash w row (answers w.steps) (answers (suc w.steps))
        there related other is_locked in
    let claimed =
      process_try_confirm_transfer-claims_of s w.env answers w'.sent w'
        (record { env = told_env ev tx_hash w; so_far = refl }) can in
    subst (Claimed row.tid ev.preimage) (sym claimed.so_far) (
      claims_of-Claimed s w.env (scan_transfer (record row { preimage = some ev.preimage }))
        (claimable_in w') can w'.sent
        (Among-map scan_transfer _ (select confirmable w'.table) readable.1))
