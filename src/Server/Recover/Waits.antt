-- ===== src/Server/Recover/Waits.antt =====
-- Rows that wait for their transaction, and how they are taken back to be tried again.
use c_bridge_node.Base.{
  ◌≡◌, ◌≢◌, refl, sym, ap, ◌∙◌, Bool, true, false, ◌&&◌, inl, inr, List, [], ◌∷◌, arith, ◌==◌,
  ==_iff, Bool-cases, if◌then◌else◌,
}
use c_bridge_node.Base.Lists.{All, All-mono, All-both, All-everywhere}
use c_bridge_node.Wire.{
  TransferStatus, locked, transfer_in_start, transfer_in_pending, confirm_pending, refund_pending,
  same_status, same_status-eq, Hash,
}
use c_bridge_node.Transfer.{Time, Row}
use c_bridge_node.World.{Env}
use c_bridge_node.Dal.{update_where, has_tid}
use c_bridge_node.Dal.Queries.{
  timeout_pending_transfer_in, timeout_pending_confirm, timeout_pending_refund,
}
use c_bridge_node.Dal.Evolution.{Evolves, HasKeys}
use c_bridge_node.Chain.Answers.{ClockSaid}

-- The three ways to wait: for a payment, a claim, or a refund.
pub data Wait : Type 0 where
  payment claim refund : Wait

abbrev pub pending : Wait → TransferStatus
pending payment = transfer_in_pending
pending claim = confirm_pending
pending refund = refund_pending

-- The status from which it is tried again.
abbrev pub source : Wait → TransferStatus
source payment = transfer_in_start
source claim = locked
source refund = locked

abbrev pub due : Wait → Time → Row → Bool
due payment = timeout_pending_transfer_in
due claim = timeout_pending_confirm
due refund = timeout_pending_refund

-- The row waited too long by a reading of the clock, and is to be tried again.
pub record IsTriedAgain (e : Env) (k : Wait) (r r' : Row) : Type 0 where
  pub time : Time
  pub clocked : ClockSaid e time
  pub waited : due k time r ≡ true
  pub stamp : Time
  pub changed : r' ≡ record r { status = source k; update_ts = stamp }

pub data Retried (e : Env) (r r' : Row) : Type 0 where
  same : r ≡ r' → Retried e r r'
  again : (k : Wait) → IsTriedAgain e k r r' → Retried e r r'

source_not_pending : (j k : Wait) → source j ≢ pending k
source_not_pending payment payment eq = ground arith
source_not_pending payment claim eq = ground arith
source_not_pending payment refund eq = ground arith
source_not_pending claim payment eq = ground arith
source_not_pending claim claim eq = ground arith
source_not_pending claim refund eq = ground arith
source_not_pending refund payment eq = ground arith
source_not_pending refund claim eq = ground arith
source_not_pending refund refund eq = ground arith

pub due_pending :
    (k : Wait) (ts_now : Time) (r : Row) → due k ts_now r ≡ true → r.status ≡ pending k
unfolding timeout_pending_transfer_in timeout_pending_confirm timeout_pending_refund
due_pending payment ts_now r h = same_status-eq r.status transfer_in_pending (ground arith)
due_pending claim ts_now r h = same_status-eq r.status confirm_pending (ground arith)
due_pending refund ts_now r h = same_status-eq r.status refund_pending (ground arith)

both_true : (a b : Bool) → (a && b) ≡ true → (a ≡ true) × (b ≡ true)
both_true true b h = (refl, h)
both_true false b h = absurd (ground arith)

module _ (e : Env) where
  Retried_tid : (r r' : Row) → Retried e r r' → r.tid ≡ r'.tid
  Retried_tid r r' (same eq) = ap (λ x. x.tid) eq
  Retried_tid r r' (again k h) = sym (ap (λ x. x.tid) h.changed)

  -- A row that waits has not been changed.
  pub Retried_pending : (k : Wait) (r r' : Row) → Retried e r r' → r'.status ≡ pending k → r ≡ r'
  Retried_pending k r r' (same eq) waits = eq
  Retried_pending k r r' (again j h) waits =
      absurd (source_not_pending j k (sym (ap (λ x. x.status) h.changed) ∙ waits))

  -- The rows with this id have `P`, where none of them is left.
  absent-All :
      (P : Row → Type 0) (rs rs' : List Row) (tid : Hash)
      → Evolves (Retried e) rs rs'
      → has_tid tid rs' ≡ false
      → All (λ r. r.tid ≡ tid → P r) rs
  unfolding has_tid
  absent-All P [] rs' tid h none_left = tt
  absent-All P (r ∷ rs) [] tid h none_left = absurd h
  absent-All P (r ∷ rs) (r' ∷ rs') tid h none_left = (
    λ k. absurd (ground (arith, k, Retried_tid r r' h.0)),
    absent-All P rs rs' tid h.1 (ground arith),
  )

  -- What a row of a keyed table was before.
  abbrev pub Was : List Row → Row → Type 0
  Was t₀ r' = All (λ r. r.tid ≡ r'.tid → Retried e r r') t₀

  absent_keys : (tid : Hash) (rs : List Row) → has_tid tid rs ≡ false → All (λ r. r.tid ≢ tid) rs
  unfolding has_tid
  absent_keys tid [] none_left = tt
  absent_keys tid (r ∷ rs) none_left = (λ k. ground arith, absent_keys tid rs (ground arith))

  pub All-Was : (t₀ t : List Row) → Evolves (Retried e) t₀ t → HasKeys t → All (Was t₀) t
  All-Was [] t h keys = All-everywhere _ t (λ r. tt)
  All-Was (r ∷ rs) [] h keys = absurd h
  All-Was (r ∷ rs) (r' ∷ rs') h keys = (
    (λ k. h.0, absent-All (λ x. Retried e x r') rs rs' r'.tid h.1 keys.0),
    All-mono _ rs' (λ x hx. (λ k. absurd (hx.0 (sym k ∙ Retried_tid r r' h.0)), hx.1))
        (All-both _ _ rs' (absent_keys r'.tid rs' keys.0) (All-Was rs rs' h.1 keys.1)),
  )

  put_back_row :
      (k : Wait) (ts_now stamp : Time) (tid : Hash) (r r' : Row)
      → ClockSaid e ts_now
      → (r.tid ≡ tid → due k ts_now r ≡ true)
      → Retried e r r'
      → Retried e r (
          if r'.tid == tid && same_status r'.status (pending k)
          then record r' { status = source k; update_ts = stamp }
          else r')
  put_back_row k ts_now stamp tid r r' clocked waited h =
      elim (Bool-cases (r'.tid == tid && same_status r'.status (pending k))) [
        | inl hit ↦
            let (has_id, waits) = both_true (r'.tid == tid) _ hit in
            let unchanged = Retried_pending k r r' h (same_status-eq r'.status (pending k) waits) in
            rw hit (
              again k (record {
                time = ts_now;
                clocked = clocked;
                waited = waited (Retried_tid r r' h ∙ (==_iff r'.tid tid).0 has_id);
                stamp = stamp;
                changed =
                    ap (λ (x : Row). record x { status = source k; update_ts = stamp })
                      (sym unchanged);
              }))
        | inr miss ↦ rw miss h
      ]

  pub Evolves-put_back :
      (k : Wait) (ts_now stamp : Time) (tid : Hash) (t₀ t : List Row)
      → ClockSaid e ts_now
      → All (λ r. r.tid ≡ tid → due k ts_now r ≡ true) t₀
      → Evolves (Retried e) t₀ t
      → Evolves (Retried e) t₀ (
          update_where
            (λ r. r.tid == tid && same_status r.status (pending k))
            (λ r. record r { status = source k; update_ts = stamp })
            t)
  unfolding update_where
  Evolves-put_back k ts_now stamp tid [] t clocked waited h = tt
  Evolves-put_back k ts_now stamp tid (r ∷ t₀) [] clocked waited h = absurd h
  Evolves-put_back k ts_now stamp tid (r ∷ t₀) (r' ∷ t) clocked waited h = (
    put_back_row k ts_now stamp tid r r' clocked waited.0 h.0,
    Evolves-put_back k ts_now stamp tid t₀ t clocked waited.1 h.1,
  )
