-- ===== src/Node/Once/Phases.antt =====
-- How far the paying of one transfer in has come, as the table and the transactions show it.
use c_bridge_node.Base.{
  ℕ, suc, ◌≡◌, refl, Bool, true, false, ◌&&◌, ◌||◌, ◌⊎◌, inl, inr, Option, none, some, List, [],
  ◌∷◌, ◌++◌, arith, ◌==◌, if◌then◌else◌, Bool-cases,
}
use c_bridge_node.Wire.{Hash, transfer_in_start, same_status}
use c_bridge_node.Transfer.{Row}
use c_bridge_node.World.{Sent, Call}
use c_bridge_node.Exec.Views.{View}
use c_bridge_node.Dal.{update_where, has_tid, insert_row}
use c_bridge_node.Dal.Evolution.{
  HasKeys, has_tid-update_where, update_where-HasKeys, insert_row-HasKeys,
}

abbrev is_transfer_in : Call → Bool
is_transfer_in (Call.transfer_in dst token amount hash_lock time_lock src_chain src_tid) = true
is_transfer_in (Call.confirm tid preimage) = false
is_transfer_in (Call.refund tid) = false

abbrev accepted : {A : Type 0} → Option A → Bool
accepted none = true
accepted (some e) = false

-- A transfer in of this id that the transactor accepted.
unfoldable pub pays : Hash → Sent → Bool
pays tid x = x.transfer_id == tid && is_transfer_in x.call && accepted x.outcome

-- How many payments of the transfer were accepted.
unfoldable pub payments : Hash → List Sent → ℕ
payments tid [] = 0
payments tid (x ∷ s) = let rest = payments tid s in if pays tid x then suc rest else rest

-- A row of this id waits for its payment.
unfoldable pub is_waiting : Hash → List Row → Bool
is_waiting tid [] = false
is_waiting tid (r ∷ rs) =
    r.tid == tid && same_status r.status transfer_in_start || is_waiting tid rs

-- Not paid since there were `k` payments; then its row marked; then perhaps paid, once.
pub data Phase : Type 0 where
  unpaid marked over : Phase

pub record IsClosed (tid : Hash) (t : List Row) : Type 0 where
  pub present : has_tid tid t ≡ true
  pub not_waiting : is_waiting tid t ≡ false

abbrev pub InPhase : Hash → ℕ → Phase → List Row → List Sent → Type 0
InPhase tid k unpaid t s = HasKeys t × (payments tid s ≡ k) × (has_tid tid t ≡ true)
InPhase tid k marked t s = HasKeys t × (payments tid s ≡ k) × IsClosed tid t
InPhase tid k over t s =
    HasKeys t × ((payments tid s ≡ k) ⊎ ((payments tid s ≡ suc k) × IsClosed tid t))

-- As a predicate on the world.
abbrev pub Seen : Hash → ℕ → Phase → View
Seen tid k p env t s = InPhase tid k p t s

-- In every phase there was at most one payment more.
pub InPhase-over :
    (tid : Hash) (k : ℕ) (p : Phase) (t : List Row) (s : List Sent)
    → InPhase tid k p t s
    → InPhase tid k over t s
InPhase-over tid k unpaid t s h = (h.0, inl h.1)
InPhase-over tid k marked t s h = (h.0, inl h.1)
InPhase-over tid k over t s h = h

-- What a change of the table must leave, for all phases to be kept.
pub record IsHarmless (tid : Hash) (f : List Row → List Row) : Type 0 where
  pub keys : (t : List Row) → HasKeys t → HasKeys (f t)
  pub stays : (t : List Row) → has_tid tid t ≡ true → has_tid tid (f t) ≡ true
  pub closed : (t : List Row) → IsClosed tid t → IsClosed tid (f t)

pub IsHarmless-InPhase :
    (tid : Hash) (k : ℕ) (p : Phase) (f : List Row → List Row)
    → IsHarmless tid f
    → (t : List Row) (s : List Sent) → InPhase tid k p t s
    → InPhase tid k p (f t) s
IsHarmless-InPhase tid k unpaid f harmless t s h = (harmless.keys t h.0, h.1, harmless.stays t h.2)
IsHarmless-InPhase tid k marked f harmless t s h = (harmless.keys t h.0, h.1, harmless.closed t h.2)
IsHarmless-InPhase tid k over f harmless t s (keys, inl same) = (harmless.keys t keys, inl same)
IsHarmless-InPhase tid k over f harmless t s (keys, inr (more, closed)) =
    (harmless.keys t keys, inr (more, harmless.closed t closed))

is_waiting-update_where :
    (tid : Hash) (p : Row → Bool) (f : Row → Row) (rs : List Row)
    → ((r : Row) → (f r).tid ≡ r.tid)
    → ((r : Row)
        → p r ≡ true
        → same_status r.status transfer_in_start ≡ false
        → same_status (f r).status transfer_in_start ≡ false)
    → is_waiting tid rs ≡ false
    → is_waiting tid (update_where p f rs) ≡ false
unfolding is_waiting update_where
is_waiting-update_where tid p f [] same_tid not_back h = refl
is_waiting-update_where tid p f (r ∷ rs) same_tid not_back h = elim (Bool-cases (p r)) [
  | inl hit ↦ ground (
    arith,
    same_tid r,
    not_back r hit,
    is_waiting-update_where tid p f rs same_tid not_back (ground arith),
  )
  | inr miss ↦ ground (arith, is_waiting-update_where tid p f rs same_tid not_back (ground arith))
]

-- A statement that takes no row back to the status in which it waits for its payment.
pub update_where-IsHarmless :
    (tid : Hash) (p : Row → Bool) (f : Row → Row)
    → ((r : Row) → (f r).tid ≡ r.tid)
    → ((r : Row)
        → p r ≡ true
        → same_status r.status transfer_in_start ≡ false
        → same_status (f r).status transfer_in_start ≡ false)
    → IsHarmless tid (update_where p f)
update_where-IsHarmless tid p f same_tid not_back = record {
  keys = λ t. update_where-HasKeys p f t same_tid;
  stays = λ t h. rw (has_tid-update_where tid p f t same_tid) h;
  closed = λ t h. record {
    present = rw (has_tid-update_where tid p f t same_tid) h.present;
    not_waiting = is_waiting-update_where tid p f t same_tid not_back h.not_waiting;
  };
}

has_tid-append_true :
    (tid : Hash) (rs : List Row) (r : Row)
    → has_tid tid rs ≡ true
    → has_tid tid (rs ++ r ∷ []) ≡ true
unfolding has_tid
has_tid-append_true tid [] r h = cc
has_tid-append_true tid (s ∷ rs) r h = ground (arith, has_tid-append_true tid rs r)

is_waiting-append :
    (tid : Hash) (rs : List Row) (r : Row)
    → (r.tid == tid) ≡ false
    → is_waiting tid rs ≡ false
    → is_waiting tid (rs ++ r ∷ []) ≡ false
unfolding is_waiting
is_waiting-append tid [] r other h = ground arith
is_waiting-append tid (s ∷ rs) r other h = ground (arith, is_waiting-append tid rs r other)

-- INSERT … ON CONFLICT DO NOTHING adds no second row of an id.
pub insert_row-IsHarmless : (tid : Hash) (r : Row) → IsHarmless tid (insert_row r)
unfolding insert_row
insert_row-IsHarmless tid r = record {
  keys = λ t. insert_row-HasKeys r t;
  stays = λ t h. elim (Bool-cases (has_tid r.tid t)) [
    | inl e ↦ rw e h
    | inr e ↦ rw e (has_tid-append_true tid t r h)
  ];
  closed = λ t h. elim (Bool-cases (has_tid r.tid t)) [
    | inl e ↦ rw e h
    | inr e ↦ rw e (record {
      present = has_tid-append_true tid t r h.present;
      not_waiting = is_waiting-append tid t r (ground (arith, h.present)) h.not_waiting;
    })
  ];
}
