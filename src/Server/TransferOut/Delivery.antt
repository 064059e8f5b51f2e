-- ===== src/Server/TransferOut/Delivery.antt =====
-- A monitor may deliver a log again: after a restart, or because the callback asked for it.
use c_bridge_node.Exec.{perform}
use c_bridge_node.Base.{ℕ, ◌≡◌, ◌∙◌, refl, ap, true, false, not, some, List, ◌==◌}
use c_bridge_node.Base.Int.{pos, ltb_ℤ}
use c_bridge_node.Base.Maps.{lookup, nat_eq, string_eq}
use c_bridge_node.Wire.{Hash, Addr}
use c_bridge_node.Transfer.{Row, Time, Transfer}
use c_bridge_node.World.{World, Env}
use c_bridge_node.Exec.Keeps.{
  Keeps-perform, Keeps, Yields, Keeps-pure, Keeps-bind, Keeps-bind_Yields, Keeps-if, Keeps-gets,
}
use c_bridge_node.Exec.Views.{View, On, Yields-gets}
use c_bridge_node.Dal.{has_tid, insert_row, insert_transfer, row_of, now}
use c_bridge_node.Dal.Tables.{Keeps-exec_table}
use c_bridge_node.Dal.Statements.{Keeps-now}
use c_bridge_node.Chain.{BridgeConfig}
use c_bridge_node.Server.{Server}
use c_bridge_node.Server.Callbacks.{Keeps-or_retry, Keeps-or_panic, Keeps-or_give_up}
use c_bridge_node.Server.TransferOut.{
  LogNewTransferOut, get_transfer_id, timeout_of, chain2_time_lock, transfer_out_of, transfer_in_of,
  returned, or_give_up, lookup_in, convert_amount, plan_transfer_in, save_transfers,
  convert_and_save, on_transfer_out, monitor_log_transfer_out,
}

-- Environment and table are still these.
abbrev Still : Env → List Row → View
Still e t₀ env t s = (env ≡ e) × (t ≡ t₀)

insert_row_old : (r : Row) (rs : List Row) → has_tid r.tid rs ≡ true → insert_row r rs ≡ rs
unfolding insert_row
insert_row_old r rs h = rw h refl

module _ (e : Env) (t₀ : List Row) where
  insert_transfer-Still :
      (tx : Transfer)
      → has_tid tx.transfer_id t₀ ≡ true
      → Keeps (On (Still e t₀)) (insert_transfer tx)
  unfolding insert_transfer row_of
  insert_transfer-Still tx known = Keeps-bind now _ Keeps-now λ ts_now.
      Keeps-exec_table (insert_row (row_of ts_now tx)) λ env t s h.
        (h.0, ap (insert_row (row_of ts_now tx)) h.1 ∙ insert_row_old (row_of ts_now tx) t₀ known)

  module _ (bc : BridgeConfig) (ev : LogNewTransferOut)
      (known_out : has_tid ev.transfer_id t₀ ≡ true)
      (known_in : has_tid
          (e.solidity_sha3 ev.receiver ev.dst_address ev.hashlock ev.dst_chain_id)
          t₀
        ≡ true) where
    abbrev in_id : Hash
    in_id = e.solidity_sha3 ev.receiver ev.dst_address ev.hashlock ev.dst_chain_id

    id-Still :
        Yields
          (On (Still e t₀))
          (get_transfer_id ev.receiver ev.dst_address ev.hashlock ev.dst_chain_id)
          (λ h. h ≡ in_id)
    unfolding get_transfer_id
    id-Still =
        Yields-gets _ _ λ w h i.
          (h.holds.0 i).solidity_sha3 ev.receiver ev.dst_address ev.hashlock ev.dst_chain_id

    plan_transfer_in-Still :
        (dst_token : Addr) (dst_amount : ℕ) (ts_now : Time)
        → Keeps (On (Still e t₀)) (plan_transfer_in bc ev dst_token dst_amount ts_now)
    unfolding plan_transfer_in transfer_in_of
    plan_transfer_in-Still dst_token dst_amount ts_now =
        Keeps-if (ltb_ℤ (timeout_of ev.timelock ts_now) (pos 57600)) _ _
          (λ small. Keeps-pure (returned false))
          λ enough.
            Keeps-bind_Yields
              (get_transfer_id ev.receiver ev.dst_address ev.hashlock ev.dst_chain_id) _ _ id-Still
              λ h e_id.
                Keeps-bind _ _
                  (insert_transfer-Still
                    (transfer_in_of bc ev dst_token dst_amount h
                      (chain2_time_lock ts_now (timeout_of ev.timelock ts_now)) ts_now)
                    (rw e_id known_in))
                  λ saved. Keeps-or_retry saved _ (Keeps-pure (returned false))

    save_transfers-Still :
        (tx_hash : Hash) (dst_token : Addr) (dst_amount : ℕ) (ts_now : Time)
        → Keeps (On (Still e t₀)) (save_transfers bc ev tx_hash dst_token dst_amount ts_now)
    unfolding save_transfers transfer_out_of get_transfer_id
    save_transfers-Still tx_hash dst_token dst_amount ts_now =
        Keeps-bind _ _ (Keeps-gets _) λ related_tid.
          Keeps-bind _ _ (insert_transfer-Still _ known_out)
            λ saved. Keeps-or_retry saved _ (plan_transfer_in-Still dst_token dst_amount ts_now)

    on_transfer_out-Still :
        (s : Server) (tx_hash : Hash) → Keeps (On (Still e t₀)) (on_transfer_out s bc ev tx_hash)
    unfolding on_transfer_out convert_and_save
    on_transfer_out-Still s tx_hash =
        Keeps-if (not (ev.receiver == s.account_addr)) _ _ (λ other. Keeps-pure (returned false))
          λ mine. Keeps-or_give_up (lookup s.chain_map ev.dst_chain_id) _ λ dst.
            Keeps-bind now _ Keeps-now λ ts_now.
              Keeps-or_give_up (lookup_in s.chain_token_name_map bc.chain_id ev.token) _ λ name.
                Keeps-or_give_up (lookup_in s.chain_token_addr_map ev.dst_chain_id name) _ λ token.
                  Keeps-or_give_up (lookup_in s.chain_token_decimal_map bc.chain_id ev.token) _
                    λ src_decimal.
                      Keeps-or_give_up (lookup_in s.chain_token_decimal_map ev.dst_chain_id token) _
                        λ dst_decimal.
                          Keeps-or_panic (convert_amount ev.amount src_decimal dst_decimal) _
                            λ amount. save_transfers-Still tx_hash token amount ts_now

-- A log that is delivered again changes nothing in the table once it has the rows of the transfer
-- out and of the transfer in that answers it, whatever happened to these rows since.
pub redelivery :
    (s : Server) (bc : BridgeConfig) (ev : LogNewTransferOut) (tx_hash : Hash) (w : World)
    → has_tid ev.transfer_id w.table ≡ true
    → has_tid (w.env.solidity_sha3 ev.receiver ev.dst_address ev.hashlock ev.dst_chain_id) w.table
      ≡ true
    → (perform (monitor_log_transfer_out s bc (some ev) tx_hash) w).1.table ≡ w.table
unfolding monitor_log_transfer_out or_give_up
redelivery s bc ev tx_hash w known_out known_in =
    (Keeps-perform (on_transfer_out-Still w.env w.table bc ev known_out known_in s tx_hash) w
      (record { holds = (refl, refl) })).holds.1
