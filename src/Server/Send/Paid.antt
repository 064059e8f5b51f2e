-- ===== src/Server/Send/Paid.antt =====
-- Which rows a tick of the paying job pays.
use c_bridge_node.Base.{ℕ, ◌≡◌, refl, sym, ap, ◌∙◌, true, none, List, [], ◌∷◌, inl, inr}
use mathlib.Core.Path.{subst}
use c_bridge_node.Base.Lists.{All, Among}
use c_bridge_node.Base.Places.{Among-map, Among-select}
use c_bridge_node.Base.Maps.{nat_eq}
use c_bridge_node.Transfer.{Row, Transfer, scan_transfer}
use c_bridge_node.World.{World, Env, Sent}
use c_bridge_node.Exec.{perform}
use c_bridge_node.Dal.Queries.{startable}
use c_bridge_node.Server.{Server}
use c_bridge_node.Server.Send.{process_try_send_transfer_in}
use c_bridge_node.Server.Send.Pays.{
  CanPay, payment_of, payments_of, planned_in, process_try_send_transfer_in-payments_of,
}

-- Whether a payment of this transfer was sent, and accepted.
abbrev pub IsPaid : Server → Env → Transfer → List Sent → Type 0
IsPaid s e tx sent = (can : CanPay s e tx) × Among (payment_of s e tx can) sent

module _ (s : Server) (e : Env) where
  Among-later :
      (x : Sent) (txs : List Transfer) (can : All (CanPay s e) txs) (sent : List Sent)
      → Among x sent
      → Among x (payments_of s e txs can sent)
  Among-later x [] can sent there = there
  Among-later x (tx ∷ txs) can sent there =
      Among-later x txs can.1 (payment_of s e tx can.0 ∷ sent) (inr there)

  payments_of-IsPaid :
      (tx : Transfer) (txs : List Transfer) (can : All (CanPay s e) txs) (sent : List Sent)
      → Among tx txs
      → IsPaid s e tx (payments_of s e txs can sent)
  payments_of-IsPaid tx [] can sent there = elim there [ ]
  payments_of-IsPaid tx (y ∷ txs) can sent (inl same) =
      subst (λ t. IsPaid s e t (payments_of s e (y ∷ txs) can sent)) same
        (can.0, Among-later _ txs can.1 (payment_of s e y can.0 ∷ sent) (inl refl))
  payments_of-IsPaid tx (y ∷ txs) can sent (inr later) =
      payments_of-IsPaid tx txs can.1 (payment_of s e y can.0 ∷ sent) later

-- Where the database answers, and nothing stands in the way of the payments of the rows that it reads, a
-- tick of the paying job pays each row that is to be paid.
pub tick-IsPaid :
    (s : Server) (e : Env) (w : World) (row : Row)
    → w.env ≡ e
    → ((n : ℕ) → e.db_fault n ≡ none)
    → Among row w.table
    → startable (e.clock w.steps) row ≡ true
    → All (CanPay s e) (planned_in w)
    → IsPaid s e (scan_transfer row) (perform (process_try_send_transfer_in s) w).1.sent
tick-IsPaid s e w row env answers there ready can_pay =
    subst
      (λ e'.
        All (CanPay s e') (planned_in w)
        → IsPaid s e' (scan_transfer row) (perform (process_try_send_transfer_in s) w).1.sent)
      env
      (λ can.
        subst (IsPaid s w.env (scan_transfer row))
          (sym (
            process_try_send_transfer_in-payments_of s w
              (λ n. ap (λ e'. e'.db_fault n) env ∙ answers n) can))
          (payments_of-IsPaid s w.env (scan_transfer row) (planned_in w) can w.sent (
            Among-map scan_transfer row _ (
              Among-select (startable (w.env.clock w.steps)) row w.table there
                (ap (λ e'. startable (e'.clock w.steps) row) env ∙ ready)))))
      can_pay
