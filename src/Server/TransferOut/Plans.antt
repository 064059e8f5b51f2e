-- ===== src/Server/TransferOut/Plans.antt =====
-- What the callback of a user's transfer out achieves where nothing fails.
use c_bridge_node.Base.{
  ℕ, String, ◌≡◌, ◌≢◌, refl, sym, ap, true, false, not, ◌==◌, none, some, List,
}
use mathlib.Core.Path.{subst}
use c_bridge_node.Base.Int.{pos, ltb_ℤ}
use c_bridge_node.Base.Lists.{Among}
use c_bridge_node.Base.Maps.{lookup, nat_eq, string_eq}
use c_bridge_node.Wire.{Hash, Addr}
use c_bridge_node.Transfer.{Row, Time, Transfer}
use c_bridge_node.World.{World, Env, Sent}
use c_bridge_node.Exec.{M, pure, ask, gets, ◌>>=◌}
use c_bridge_node.Exec.Ends.{Ends, Ends-after, Ends-else}
use c_bridge_node.Dal.{has_tid, insert_transfer, row_of, now}
use c_bridge_node.Chain.{BridgeConfig}
use c_bridge_node.Chain.Works.{At}
use c_bridge_node.Server.{Server}
use c_bridge_node.Server.Callbacks.{Ends-or_give_up, Ends-or_panic, Ends-or_retry}
use c_bridge_node.Dal.Inserts.{With, insert_row-Among, insert_row-new, insert_transfer-With}
use c_bridge_node.Server.TransferOut.{
  LogNewTransferOut, Outcome, returned, get_transfer_id, timeout_of, chain2_time_lock,
  transfer_out_of, transfer_in_of, or_retry, or_give_up, lookup_in, convert_amount,
  plan_transfer_in, save_transfers, convert_and_save, on_transfer_out, monitor_log_transfer_out,
}

-- The callback, which reads this time, does not decline the log: it is addressed to this account,
-- chain and token are known, the amount can be converted, and the time lock leaves sixteen hours.
pub record CanAnswer (s : Server) (bc : BridgeConfig) (ev : LogNewTransferOut) (ts : Time)
    : Type 0 where
  pub mine : (ev.receiver == s.account_addr) ≡ true
  pub dst : BridgeConfig
  pub configured : lookup s.chain_map ev.dst_chain_id ≡ some dst
  pub token_name : String
  pub named : lookup_in s.chain_token_name_map bc.chain_id ev.token ≡ some token_name
  pub token : Addr
  pub has_token : lookup_in s.chain_token_addr_map ev.dst_chain_id token_name ≡ some token
  pub src_decimal : ℕ
  pub has_src : lookup_in s.chain_token_decimal_map bc.chain_id ev.token ≡ some src_decimal
  pub dst_decimal : ℕ
  pub has_dst : lookup_in s.chain_token_decimal_map ev.dst_chain_id token ≡ some dst_decimal
  pub amount : ℕ
  pub converted : convert_amount ev.amount src_decimal dst_decimal ≡ some amount
  pub ample : ltb_ℤ (timeout_of ev.timelock ts) (pos 57600) ≡ false

-- The id of the transfer in that answers a log.
abbrev pub answer_id : Env → LogNewTransferOut → Hash
answer_id e ev = e.solidity_sha3 ev.receiver ev.dst_address ev.hashlock ev.dst_chain_id

-- The transfer in that answers the log.
abbrev pub answer_of :
    (s : Server) (bc : BridgeConfig) (e : Env) (ev : LogNewTransferOut) (ts : Time)
    → CanAnswer s bc ev ts
    → Transfer
answer_of s bc e ev ts can =
    transfer_in_of bc ev can.token can.amount (answer_id e ev)
      (chain2_time_lock ts (timeout_of ev.timelock ts)) ts

-- The answer has a row, and these transactions were sent.
abbrev pub Planned :
    (e : Env) (sent : List Sent) (s : Server) (bc : BridgeConfig) (ev : LogNewTransferOut)
    (ts : Time)
    → CanAnswer s bc ev ts
    → World
    → Type 0
Planned e sent s bc ev ts can w =
    At e sent w × ((t : Time) × Among (row_of t (answer_of s bc e ev ts can)) w.table)

module _ (e : Env) (sent : List Sent) (answers : (n : ℕ) → e.db_fault n ≡ none) where
  module _ (s : Server) (bc : BridgeConfig) (ev : LogNewTransferOut) (tx_hash : Hash) (ts : Time)
      (can : CanAnswer s bc ev ts) where
    record_answer : Hash → M Outcome
    unfolding transfer_in_of
    record_answer tid =
        insert_transfer (
          transfer_in_of bc ev can.token can.amount tid
            (chain2_time_lock ts (timeout_of ev.timelock ts)) ts)
        >>= λ saved. or_retry saved (pure (returned false))

    record_answer-Planned :
        (t : List Row) (w : World)
        → has_tid (answer_id e ev) t ≡ false
        → With e sent t w
        → Ends
            (record_answer (answer_id e ev))
            w
            (λ o w'. (o ≡ returned false) × Planned e sent s bc ev ts can w')
    unfolding record_answer pure row_of
    record_answer-Planned t w new h =
        Ends-after _ _ _ _ w
          (insert_transfer-With e sent answers (answer_of s bc e ev ts can) t w h)
          λ r w' saved. Ends-or_retry _ r _ w' saved.0 (record {
            ends = (
              refl,
              (
                saved.1.1.0,
                (
                  saved.1.0,
                  subst (Among (row_of saved.1.0 (answer_of s bc e ev ts can))) (sym saved.1.1.1)
                      (insert_row-Among (row_of saved.1.0 (answer_of s bc e ev ts can)) t new),
                ),
              ),
            );
          })

    plan_transfer_in-Planned :
        (t : List Row) (w : World)
        → has_tid (answer_id e ev) t ≡ false
        → With e sent t w
        → Ends
            (plan_transfer_in bc ev can.token can.amount ts)
            w
            (λ o w'. (o ≡ returned false) × Planned e sent s bc ev ts can w')
    unfolding plan_transfer_in get_transfer_id gets record_answer
    plan_transfer_in-Planned t w new h = Ends-else _ _ _ _ w can.ample (
        Ends-after _ (λ tid w'. (tid ≡ answer_id e ev) × With e sent t w') _ _ w
          (record {
            ends = (
              ap (λ x. x.solidity_sha3 ev.receiver ev.dst_address ev.hashlock ev.dst_chain_id)
                  h.0.env,
              h,
            );
          })
          λ tid w₁ got.
            subst
              (λ x.
                Ends (record_answer x) w₁
                  (λ o w'. (o ≡ returned false) × Planned e sent s bc ev ts can w'))
              (sym got.0) (record_answer-Planned t w₁ new got.1))

    save_transfers-Planned :
        (t : List Row) (w : World)
        → ev.transfer_id ≢ answer_id e ev
        → has_tid (answer_id e ev) t ≡ false
        → With e sent t w
        → Ends
            (save_transfers bc ev tx_hash can.token can.amount ts)
            w
            (λ o w'. (o ≡ returned false) × Planned e sent s bc ev ts can w')
    unfolding save_transfers get_transfer_id gets transfer_out_of row_of
    save_transfers-Planned t w other new h =
        Ends-after _ (λ tid w'. With e sent t w') _ _ w (record { ends = h })
          λ tid w₁ got.
            Ends-after _ _ _ _ w₁ (insert_transfer-With e sent answers _ t w₁ got) λ r w₂ saved.
              Ends-or_retry _ r _ w₂ saved.0
                (plan_transfer_in-Planned _ w₂ (insert_row-new _ _ t other new) saved.1.1)

    convert_and_save-Planned :
        (t : List Row) (w : World)
        → ev.transfer_id ≢ answer_id e ev
        → has_tid (answer_id e ev) t ≡ false
        → With e sent t w
        → Ends
            (convert_and_save s bc ev tx_hash ts)
            w
            (λ o w'. (o ≡ returned false) × Planned e sent s bc ev ts can w')
    unfolding convert_and_save
    convert_and_save-Planned t w other new h = Ends-or_give_up _ _ _ w can.token_name can.named (
        Ends-or_give_up _ _ _ w can.token can.has_token (
          Ends-or_give_up _ _ _ w can.src_decimal can.has_src (
            Ends-or_give_up _ _ _ w can.dst_decimal can.has_dst (
              Ends-or_panic _ _ _ w can.amount can.converted
                (save_transfers-Planned t w other new h)))))

-- Where the database answers: the callback of a log that it does not decline, and whose answer has no
-- row yet, leaves a row of the answer, sends nothing, and does not ask for the log again.
pub monitor_log_transfer_out-Planned :
    (s : Server) (bc : BridgeConfig) (ev : LogNewTransferOut) (tx_hash : Hash) (w : World)
    → (answers : (n : ℕ) → w.env.db_fault n ≡ none)
    → (can : CanAnswer s bc ev (w.env.clock w.steps)) → ev.transfer_id ≢ answer_id w.env ev
    → has_tid (answer_id w.env ev) w.table ≡ false
    → Ends
        (monitor_log_transfer_out s bc (some ev) tx_hash)
        w
        (λ o w'. (o ≡ returned false) × Planned w.env w.sent s bc ev (w.env.clock w.steps) can w')
unfolding monitor_log_transfer_out or_give_up on_transfer_out now ask
monitor_log_transfer_out-Planned s bc ev tx_hash w answers can other new =
    Ends-else _ _ _ _ w (ap not can.mine) (
      Ends-or_give_up _ _ _ w can.dst can.configured (
        Ends-after _ (λ ts w'. (ts ≡ w.env.clock w.steps) × With w.env w.sent w.table w') now _ w
          (record { ends = (refl, (record { env = refl; so_far = refl }, refl)) })
          λ ts w₁ read.
            subst
              (λ x. Ends (convert_and_save s bc ev tx_hash x) w₁ (λ o w'.
                (o ≡ returned false) × Planned w.env w.sent s bc ev (w.env.clock w.steps) can w'))
              (sym read.0)
              (convert_and_save-Planned w.env w.sent answers s bc ev tx_hash (w.env.clock w.steps)
                can w.table w₁ other new read.1)))
