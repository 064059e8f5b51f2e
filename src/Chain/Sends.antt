-- ===== src/Chain/Sends.antt =====
-- What a job sends: a view that knows the environment, and what holds of every transaction that was
-- sent after a given moment.
use c_bridge_node.Base.{◌≡◌, refl, ap, Option, List, [], ◌∷◌, ◌++◌}
use c_bridge_node.Base.Int.{ℤ}
use c_bridge_node.Base.Lists.{All}
use c_bridge_node.Wire.{Hash, TransferStatus}
use c_bridge_node.Transfer.{Row, Transfer}
use c_bridge_node.World.{World, Env, Fault, Sent, Call}
use c_bridge_node.Exec.Keeps.{Keeps, Keeps-bind}
use c_bridge_node.Exec.Views.{View, On}
use c_bridge_node.Dal.{
  exec_table, now, set_transfer_in_amount_and_fee, set_pending_transfer_in,
  set_transfer_status_by_from, status_by_from, update_transfer_status, confirm_transfer,
  insert_transfer, set_related_tx_preimage, refund_transfer, record_transfer_in,
}
use c_bridge_node.Dal.Tables.{Keeps-exec_table}
use c_bridge_node.Dal.Statements.{Keeps-now}
use c_bridge_node.Chain.{BridgeConfig, transact}
use c_bridge_node.Chain.Keeps.{Keeps-transact}

-- Nothing of the view has changed since this world.
pub record Untouched (w : World) (env : Env) (t : List Row) (s : List Sent) : Type 0 where
  pub same_env : env ≡ w.env
  pub same_table : t ≡ w.table
  pub same_sent : s ≡ w.sent

-- The transactions in front of those of the earlier moment all have `G`.
pub record SentSince (s₀ : List Sent) (G : Sent → Type 0) (s : List Sent) : Type 0 where
  pub news : List Sent
  pub split : s ≡ news ++ s₀
  pub good : All G news

pub record Sends (e : Env) (s₀ : List Sent) (G : Sent → Type 0) (env : Env) (s : List Sent)
    : Type 0 where
  pub same_env : env ≡ e
  pub since : SentSince s₀ G s

abbrev pub Sending : Env → List Sent → (Sent → Type 0) → View
Sending e s₀ G env t s = Sends e s₀ G env s

pub Sends-nothing : (e : Env) (s₀ : List Sent) (G : Sent → Type 0) → Sends e s₀ G e s₀
Sends-nothing e s₀ G = record {
  same_env = refl;
  since = record { news = []; split = refl; good = tt };
}

module _ (e : Env) (s₀ : List Sent) (G : Sent → Type 0) where
  pub Sending-known : (env : Env) (t : List Row) (s : List Sent) → Sending e s₀ G env t s → env ≡ e
  Sending-known env t s h = h.same_env

  pub Sending-transact :
      (bc : BridgeConfig) (tid : Hash) (call : Call)
      → ((outcome : Option Fault)
          → G (record { chain = bc.chain_id; transfer_id = tid; call = call; outcome = outcome }))
      → Keeps (On (Sending e s₀ G)) (transact bc tid call)
  Sending-transact bc tid call good = Keeps-transact bc tid call λ env t s outcome h.
      let new : Sent = record {
        chain = bc.chain_id;
        transfer_id = tid;
        call = call;
        outcome = outcome;
      } in
      record {
        same_env = h.same_env;
        since = record {
          news = new ∷ h.since.news;
          split = ap (λ (xs : List Sent). new ∷ xs) h.since.split;
          good = (good outcome, h.since.good);
        };
      }

  Sending-exec_table : (f : List Row → List Row) → Keeps (On (Sending e s₀ G)) (exec_table f)
  Sending-exec_table f = Keeps-exec_table f (λ env t s h. h)

  pub Sending-set_transfer_in_amount_and_fee :
      (tid : Hash) (amount fee : ℤ)
      → Keeps (On (Sending e s₀ G)) (set_transfer_in_amount_and_fee tid amount fee)
  unfolding set_transfer_in_amount_and_fee
  Sending-set_transfer_in_amount_and_fee tid amount fee = Sending-exec_table _

  pub Sending-set_pending_transfer_in :
      (tid : Hash) (to from : TransferStatus)
      → Keeps (On (Sending e s₀ G)) (set_pending_transfer_in tid to from)
  unfolding set_pending_transfer_in status_by_from
  Sending-set_pending_transfer_in tid to from =
      Keeps-bind now _ Keeps-now (λ ts. Sending-exec_table _)

  pub Sending-set_transfer_status_by_from :
      (tid : Hash) (to from : TransferStatus)
      → Keeps (On (Sending e s₀ G)) (set_transfer_status_by_from tid to from)
  unfolding set_transfer_status_by_from status_by_from
  Sending-set_transfer_status_by_from tid to from =
      Keeps-bind now _ Keeps-now (λ ts. Sending-exec_table _)

  pub Sending-update_transfer_status :
      (tid : Hash) (to : TransferStatus)
      → Keeps (On (Sending e s₀ G)) (update_transfer_status tid to)
  unfolding update_transfer_status
  Sending-update_transfer_status tid to = Sending-exec_table _

  pub Sending-insert_transfer : (tx : Transfer) → Keeps (On (Sending e s₀ G)) (insert_transfer tx)
  unfolding insert_transfer
  Sending-insert_transfer tx = Keeps-bind now _ Keeps-now (λ ts. Sending-exec_table _)

  pub Sending-set_related_tx_preimage :
      (preimage related_tid : Hash)
      → Keeps (On (Sending e s₀ G)) (set_related_tx_preimage preimage related_tid)
  unfolding set_related_tx_preimage
  Sending-set_related_tx_preimage preimage related_tid = Sending-exec_table _

  pub Sending-refund_transfer :
      (tid tx_hash : Hash) → Keeps (On (Sending e s₀ G)) (refund_transfer tid tx_hash)
  unfolding refund_transfer
  Sending-refund_transfer tid tx_hash = Sending-exec_table _

  pub Sending-record_transfer_in :
      (tid tx_hash : Hash) → Keeps (On (Sending e s₀ G)) (record_transfer_in tid tx_hash)
  unfolding record_transfer_in
  Sending-record_transfer_in tid tx_hash = Sending-exec_table _

  pub Sending-confirm_transfer :
      (tid preimage tx_hash : Hash)
      → Keeps (On (Sending e s₀ G)) (confirm_transfer tid preimage tx_hash)
  unfolding confirm_transfer
  Sending-confirm_transfer tid preimage tx_hash = Sending-exec_table _

pub ruleset sending_rules = (
  Sending-set_transfer_in_amount_and_fee, Sending-set_pending_transfer_in,
  Sending-set_transfer_status_by_from, Sending-update_transfer_status, Sending-confirm_transfer,
  Sending-insert_transfer, Sending-set_related_tx_preimage, Sending-refund_transfer,
  Sending-record_transfer_in,
)
