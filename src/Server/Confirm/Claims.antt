-- ===== src/Server/Confirm/Claims.antt =====
-- What processTryConfirmTransfer sends.
use c_bridge_node.Exec.{perform}
use c_bridge_node.Base.{
  ◌≡◌, ◌∙◌, refl, sym, true, false, none, some, inl, inr, Option-cases, List, arith, ◌==◌,
}
use c_bridge_node.Base.Lists.{All-Among, Among}
use c_bridge_node.Base.Maps.{lookup, nat_eq}
use c_bridge_node.Wire.{Hash, locked, same_status-eq}
use c_bridge_node.Transfer.{Row, Transfer, scan_transfer}
use c_bridge_node.World.{World, Env, Sent, Call, ok, TransferInfo}
use c_bridge_node.Exec.Keeps.{
  Keeps, Keeps-pure, Keeps-bind, Keeps-bind_Yields, Keeps-if, Keeps-if_found, Keeps-or_skip,
  loop_from, keeps_rules,
}
use c_bridge_node.Exec.Views.{View, On}
use c_bridge_node.Dal.Queries.{confirmable, get_all_confirmable_locked_transfer}
use c_bridge_node.Dal.Reads.{IsRow, Yields-query}
use c_bridge_node.Chain.{BridgeConfig, get_transfer, confirm}
use c_bridge_node.Chain.Answers.{ChainSaid, Yields-get_transfer}
use c_bridge_node.Chain.Sends.{
  Untouched, Sending, Sending-known, Sending-transact, Sends-nothing, SentSince, sending_rules,
}
use c_bridge_node.Server.{Server}
use c_bridge_node.Server.Confirm.{claim, act_on_remote, try_confirm, process_try_confirm_transfer}

-- A transaction that claims a locked transfer with the preimage in its row, which had `Q`.
pub record IsClaim (s : Server) (e : Env) (Q : Row → Type 0) (sent : Sent) : Type 0 where
  pub tx : Transfer
  pub row : Row
  pub had : Q row
  pub scanned : tx ≡ scan_transfer row
  pub is_locked : row.status ≡ locked
  pub preimage : Hash
  pub known : row.preimage ≡ some preimage
  pub bc : BridgeConfig
  pub configured : lookup s.chain_map row.chain_id ≡ some bc
  pub info : TransferInfo
  pub asked : ChainSaid e bc.chain_id row.tid (ok info)
  pub pending : info.status ≡ 1
  pub on_chain : sent.chain ≡ bc.chain_id
  pub call : sent.call ≡ Call.confirm row.tid preimage

confirmable_lem :
    (r : Row) → confirmable r ≡ true → (h : Hash) × (r.status ≡ locked) × (r.preimage ≡ some h)
unfolding confirmable
confirmable_lem r chosen = elim (Option-cases r.preimage) [
  | inl e ↦ cc (sym chosen ∙ no_preimage e)
  | inr (h, e) ↦ (h, same_status-eq r.status locked (ground arith), e)
]
  where
    no_preimage : r.preimage ≡ none → confirmable r ≡ false
    no_preimage e = ground arith

module _ (s : Server) (e : Env) (Q : Row → Type 0) (s₀ : List Sent) (G : Sent → Type 0)
    (good : (x : Sent) → IsClaim s e Q x → G x) where
  abbrev Claiming : View
  Claiming = Sending e s₀ G

  known : (env : Env) (rows : List Row) (sent : List Sent) → Claiming env rows sent → env ≡ e
  known = Sending-known e s₀ G

  module _ (tx : Transfer) (found : IsRow Q confirmable tx) (bc : BridgeConfig)
      (configured : lookup s.chain_map tx.chain_id ≡ some bc) (info : TransferInfo)
      (asked : ChainSaid e bc.chain_id tx.transfer_id (ok info)) where
    claim-Claiming : info.status ≡ 1 → Keeps (On Claiming) (claim bc tx)
    unfolding claim confirm scan_transfer
    claim-Claiming pending = Keeps-bind _ _ (search sending_rules) λ set.
        Keeps-bind _ _
          (Sending-transact e s₀ G bc tx.transfer_id _ λ outcome.
            let (preimage, is_locked, has) = confirmable_lem found.row found.chosen in
            good _ (record {
              tx = tx;
              row = found.row;
              had = found.known;
              scanned = found.scanned;
              is_locked = is_locked;
              preimage = preimage;
              known = has;
              bc = bc;
              configured = rw found.scanned at configured;
              info = info;
              asked = rw found.scanned at asked;
              pending = pending;
              on_chain = refl;
              call = ground (arith, found.scanned, has);
            }))
          (λ u. Keeps-pure tt)

    act_on_remote-Claiming : Keeps (On Claiming) (act_on_remote bc tx info)
    unfolding act_on_remote
    act_on_remote-Claiming =
        Keeps-if (info.status == 1) _ _ (λ pending. claim-Claiming (ground arith))
          (λ other. search (keeps_rules, sending_rules) depth 9)

  pub try_confirm-Claiming :
      (tx : Transfer) → IsRow Q confirmable tx → Keeps (On Claiming) (try_confirm s tx)
  unfolding try_confirm
  try_confirm-Claiming tx found = Keeps-if_found (lookup s.chain_map tx.chain_id) _ λ bc configured.
      Keeps-bind_Yields (get_transfer bc tx.transfer_id) _ (ChainSaid e bc.chain_id tx.transfer_id)
        (Yields-get_transfer e known bc tx.transfer_id)
        λ r said. Keeps-or_skip r _ λ info ok_info.
          act_on_remote-Claiming tx found bc configured info (record {
            moment = said.moment;
            block = said.block;
            answer = sym ok_info ∙ said.answer;
          })

-- Every transaction that a run of the confirming job sends claims a row that stood locked in the
-- table at its start with a preimage, on its configured chain, which answered that the transfer is
-- pending there; it carries the row's id and that preimage.
pub sends-IsClaim :
    (s : Server) (w : World)
    → SentSince w.sent
        (IsClaim s w.env (λ r. Among r w.table))
        (perform (process_try_confirm_transfer s) w).1.sent
unfolding process_try_confirm_transfer get_all_confirmable_locked_transfer
sends-IsClaim s w =
    (loop_from {P = On (Sending w.env w.sent (IsClaim s w.env (λ r. Among r w.table)))}
      get_all_confirmable_locked_transfer (try_confirm s) (IsRow (λ r. Among r w.table) confirmable)
      (On (Untouched w))
      (Yields-query confirmable (λ r. Among r w.table)
        λ w' h. rw h.holds.same_table (All-Among w.table))
      (λ w' h. record {
        holds = rw (h.holds.same_env, h.holds.same_sent) (Sends-nothing w.env w.sent _);
      })
      (try_confirm-Claiming s w.env (λ r. Among r w.table) w.sent _ (λ x h. h)) w
      (record {
        holds = record { same_env = refl; same_table = refl; same_sent = refl };
      })).holds.since
