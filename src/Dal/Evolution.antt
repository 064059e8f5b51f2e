-- ===== src/Dal/Evolution.antt =====
-- How the rows of the table may change over time: what a row is about stays, its status moves
-- forward through three stages, amount and fee keep their sum, and no row goes away.
use c_bridge_node.Base.{
  ℕ, ◌≤◌, ◌≡◌, ◌≢◌, refl, sym, ap, ◌∙◌, Bool, true, false, inl, inr, List, [], ◌∷◌, ◌++◌, arith,
  ◌==◌, ==_iff, Bool-cases, if◌then◌else◌,
}
use c_bridge_node.Base.Int.{ℤ, ◌+ℤ◌}
use c_bridge_node.Base.Lists.{All, All-mono, All-both, All-everywhere}
use c_bridge_node.Wire.{
  TransferStatus, undefined, locked, confirmed, refunded, transfer_in_start, transfer_in_pending,
  confirm_pending, refund_pending, TransferType, Hash, Addr,
}
use c_bridge_node.Transfer.{Time, Row}
use c_bridge_node.Dal.{update_where, has_tid, insert_row}

-- The columns that say which transfer a row stands for.
pub record Identity : Type 0 where
  pub tid : Hash
  pub chain_id : ℕ
  pub token : Addr
  pub transfer_type : TransferType
  pub time_lock : Time
  pub hash_lock : Hash
  pub related_tid : Hash
  pub related_chain_id : ℕ
  pub related_token : Addr
  pub sender : Addr
  pub receiver : Addr
  pub create_ts : Time

abbrev pub identity : Row → Identity
identity r = record {
  tid = r.tid;
  chain_id = r.chain_id;
  token = r.token;
  transfer_type = r.transfer_type;
  time_lock = r.time_lock;
  hash_lock = r.hash_lock;
  related_tid = r.related_tid;
  related_chain_id = r.related_chain_id;
  related_token = r.related_token;
  sender = r.sender;
  receiver = r.receiver;
  create_ts = r.create_ts;
}

-- Before the transfer is known to be on its chain; while it is locked there; once it is settled.
abbrev pub stage : TransferStatus → ℕ
stage undefined = 0
stage transfer_in_start = 1
stage transfer_in_pending = 1
stage locked = 2
stage confirm_pending = 2
stage refund_pending = 2
stage confirmed = 3
stage refunded = 3

pub record Progress (r r' : Row) : Type 0 where
  pub same : identity r ≡ identity r'
  pub forward : stage r.status ≤ stage r'.status
  pub total : r.amount +ℤ r.fee ≡ r'.amount +ℤ r'.fee

pub Progress-refl : (r : Row) → Progress r r
Progress-refl r = record { same = refl; forward = omega arith; total = refl }

pub Progress-trans : (a b c : Row) → Progress a b → Progress b c → Progress a c
Progress-trans a b c p q = record {
  same = p.same ∙ q.same;
  forward = omega arith;
  total = p.total ∙ q.total;
}

-- The rows of the first table stand in the second at the same places, each related to what it was;
-- the second may have more rows behind them.
abbrev pub Evolves : (Row → Row → Type 0) → List Row → List Row → Type 0
Evolves R [] rs' = Unit
Evolves R (r ∷ rs) [] = ⊥
Evolves R (r ∷ rs) (r' ∷ rs') = R r r' × Evolves R rs rs'

module _ (R : Row → Row → Type 0) (reflexive : (r : Row) → R r r) where
  pub Evolves-refl : (rs : List Row) → Evolves R rs rs
  Evolves-refl [] = tt
  Evolves-refl (r ∷ rs) = (reflexive r, Evolves-refl rs)

  pub Evolves-append : (rs new : List Row) → Evolves R rs (rs ++ new)
  Evolves-append [] new = tt
  Evolves-append (r ∷ rs) new = (reflexive r, Evolves-append rs new)

  pub Evolves-update_where :
      (p : Row → Bool) (f : Row → Row) (rs : List Row)
      → ((r : Row) → p r ≡ true → R r (f r))
      → Evolves R rs (update_where p f rs)
  unfolding update_where
  Evolves-update_where p f [] hit = tt
  Evolves-update_where p f (r ∷ rs) hit = elim (Bool-cases (p r)) [
    | inl e ↦ (rw e (hit r e), Evolves-update_where p f rs hit)
    | inr e ↦ (rw e (reflexive r), Evolves-update_where p f rs hit)
  ]

  pub Evolves-insert_row : (r : Row) (rs : List Row) → Evolves R rs (insert_row r rs)
  unfolding insert_row
  Evolves-insert_row r rs = elim (Bool-cases (has_tid r.tid rs)) [
    | inl e ↦ rw e (Evolves-refl rs)
    | inr e ↦ rw e (Evolves-append rs (r ∷ []))
  ]

pub Evolves-trans :
    (R : Row → Row → Type 0)
    → ((a b c : Row) → R a b → R b c → R a c)
    → (us bs cs : List Row) → Evolves R us bs
    → Evolves R bs cs
    → Evolves R us cs
Evolves-trans R trans [] bs cs h k = tt
Evolves-trans R trans (a ∷ us) [] cs h k = absurd h
Evolves-trans R trans (a ∷ us) (b ∷ bs) [] h k = absurd k
Evolves-trans R trans (a ∷ us) (b ∷ bs) (c ∷ cs) h k =
    (trans a b c h.0 k.0, Evolves-trans R trans us bs cs h.1 k.1)

-- No two rows have the same primary key.
abbrev pub HasKeys : List Row → Type 0
HasKeys [] = Unit
HasKeys (r ∷ rs) = (has_tid r.tid rs ≡ false) × HasKeys rs

pub has_tid-update_where :
    (tid : Hash) (p : Row → Bool) (f : Row → Row) (rs : List Row)
    → ((r : Row) → (f r).tid ≡ r.tid)
    → has_tid tid (update_where p f rs) ≡ has_tid tid rs
unfolding update_where has_tid
has_tid-update_where tid p f [] keeps = refl
has_tid-update_where tid p f (r ∷ rs) keeps =
    ground (arith, keeps r, has_tid-update_where tid p f rs keeps)

pub update_where-HasKeys :
    (p : Row → Bool) (f : Row → Row) (rs : List Row)
    → ((r : Row) → (f r).tid ≡ r.tid)
    → HasKeys rs
    → HasKeys (update_where p f rs)
unfolding update_where
update_where-HasKeys p f [] keeps h = tt
update_where-HasKeys p f (r ∷ rs) keeps h =
    ground (
      arith,
      keeps r,
      has_tid-update_where r.tid p f rs keeps,
      update_where-HasKeys p f rs keeps h.1,
    )

has_tid-append :
    (tid : Hash) (rs : List Row) (r : Row)
    → has_tid tid (rs ++ r ∷ []) ≡ (if has_tid tid rs then true else r.tid == tid)
unfolding has_tid
has_tid-append tid [] r = ground arith
has_tid-append tid (s ∷ rs) r = ground (arith, has_tid-append tid rs r)

append-HasKeys :
    (rs : List Row) (r : Row) → has_tid r.tid rs ≡ false → HasKeys rs → HasKeys (rs ++ r ∷ [])
unfolding has_tid
append-HasKeys [] r new h = (refl, tt)
append-HasKeys (s ∷ rs) r new h = ground (arith, has_tid-append s.tid rs r, append-HasKeys rs r)

-- The primary key is what ON CONFLICT DO NOTHING protects.
pub insert_row-HasKeys : (r : Row) (rs : List Row) → HasKeys rs → HasKeys (insert_row r rs)
unfolding insert_row
insert_row-HasKeys r rs h = elim (Bool-cases (has_tid r.tid rs)) [
  | inl e ↦ rw e h
  | inr e ↦ rw e (append-HasKeys rs r e h)
]

-- Every row of the table with this key has this sum of amount and fee.
abbrev pub HasTotal : List Row → Hash → ℤ → Type 0
HasTotal rs tid total = All (λ r. r.tid ≡ tid → r.amount +ℤ r.fee ≡ total) rs

absent-HasTotal :
    (rs rs' : List Row) (tid : Hash) (total : ℤ)
    → Evolves Progress rs rs'
    → has_tid tid rs' ≡ false
    → HasTotal rs tid total
unfolding has_tid
absent-HasTotal [] rs' tid total h e = tt
absent-HasTotal (r ∷ rs) [] tid total h e = absurd h
absent-HasTotal (r ∷ rs) (r' ∷ rs') tid total h e = (
  λ k. ground (arith, ap (λ (i : Identity). i.tid) h.0.same),
  absent-HasTotal rs rs' tid total h.1 (ground arith),
)

absent-All : (tid : Hash) (rs : List Row) → has_tid tid rs ≡ false → All (λ r. r.tid ≢ tid) rs
unfolding has_tid
absent-All tid [] e = tt
absent-All tid (r ∷ rs) e = (λ k. ground arith, absent-All tid rs (ground arith))

same_tid : (r r' : Row) → Progress r r' → r.tid ≡ r'.tid
same_tid r r' p = ap (λ (i : Identity). i.tid) p.same

-- A row of a keyed table shows the total of its key in any table that this one has come from.
pub All-HasTotal :
    (rs rs' : List Row)
    → Evolves Progress rs rs'
    → HasKeys rs'
    → All (λ r. HasTotal rs r.tid (r.amount +ℤ r.fee)) rs'
All-HasTotal [] rs' h keys = All-everywhere _ rs' (λ r. tt)
All-HasTotal (r ∷ rs) [] h keys = tt
All-HasTotal (r ∷ rs) (r' ∷ rs') h keys = (
  (λ k. h.0.total, absent-HasTotal rs rs' r'.tid (r'.amount +ℤ r'.fee) h.1 keys.0),
  All-mono _ rs' (λ x hx. (λ k. absurd (hx.0 (sym k ∙ same_tid r r' h.0)), hx.1))
      (All-both _ _ rs' (absent-All r'.tid rs' keys.0) (All-HasTotal rs rs' h.1 keys.1)),
)

-- Setting amount and fee to what adds up to the total of the key is progress.
pub Evolves-set_total :
    (tid : Hash) (amount fee : ℤ) (rs rs' : List Row)
    → HasTotal rs tid (amount +ℤ fee)
    → Evolves Progress rs rs'
    → Evolves Progress rs
        (update_where (λ r. r.tid == tid) (λ r. record r { amount = amount; fee = fee }) rs')
unfolding update_where
Evolves-set_total tid amount fee [] rs' total h = tt
Evolves-set_total tid amount fee (r ∷ rs) [] total h = absurd h
Evolves-set_total tid amount fee (r ∷ rs) (r' ∷ rs') total h = elim (Bool-cases (r'.tid == tid)) [
  | inl e ↦ (
    rw e (record {
      same = h.0.same;
      forward = h.0.forward;
      total = total.0 (same_tid r r' h.0 ∙ (==_iff r'.tid tid).0 e);
    }),
    Evolves-set_total tid amount fee rs rs' total.1 h.1,
  )
  | inr e ↦ (rw e h.0, Evolves-set_total tid amount fee rs rs' total.1 h.1)
]
