-- ===== src/Dal/Queries/Newest.antt =====
-- The order of GetAllTransfersWithLimit.
use c_bridge_node.Base.{
  ℕ, zero, suc, ◌≡◌, refl, ap, ◌∙◌, List, [], ◌∷◌, ◌++◌, arith, Bool-cases, inl, inr,
}
use mathlib.Core.List.{Perm}
use mathlib.Core.List.Perm
use c_bridge_node.Base.Int.{◌≤ℤ◌, ltb_ℤ}
use c_bridge_node.Base.Lists.{length, take, All, All-mono}
use c_bridge_node.Transfer.{Row}
use c_bridge_node.Dal.Queries.{newest_first, insert_newest_first}

-- No row was created after one that stands before it.
abbrev pub IsNewestFirst : List Row → Type 0
IsNewestFirst [] = Unit
IsNewestFirst (r ∷ rs) = All (λ s. s.create_ts ≤ℤ r.create_ts) rs × IsNewestFirst rs

All-insert :
    (P : Row → Type 0) (r : Row) (rs : List Row) → P r → All P rs → All P (insert_newest_first r rs)
unfolding insert_newest_first
All-insert P r [] h hs = (h, tt)
All-insert P r (s ∷ rs) h hs = elim (Bool-cases (ltb_ℤ r.create_ts s.create_ts)) [
  | inl older ↦ rw older (hs.0, All-insert P r rs h hs.1)
  | inr newer ↦ rw newer (h, hs)
]

insert-IsNewestFirst :
    (r : Row) (rs : List Row) → IsNewestFirst rs → IsNewestFirst (insert_newest_first r rs)
unfolding insert_newest_first
insert-IsNewestFirst r [] h = (tt, tt)
insert-IsNewestFirst r (s ∷ rs) h = elim (Bool-cases (ltb_ℤ r.create_ts s.create_ts)) [
  | inl older ↦ rw older (All-insert _ r rs (ground arith) h.0, insert-IsNewestFirst r rs h.1)
  | inr newer ↦ rw newer ((ground arith, All-mono _ rs (λ q le. ground arith) h.0), h)
]

pub newest_first-IsNewestFirst : (rs : List Row) → IsNewestFirst (newest_first rs)
unfolding newest_first
newest_first-IsNewestFirst [] = tt
newest_first-IsNewestFirst (r ∷ rs) =
    insert-IsNewestFirst r (newest_first rs) (newest_first-IsNewestFirst rs)

All-take : (P : Row → Type 0) (n : ℕ) (rs : List Row) → All P rs → All P (take n rs)
All-take P zero rs h = tt
All-take P (suc n) [] h = tt
All-take P (suc n) (r ∷ rs) h = (h.0, All-take P n rs h.1)

pub take-IsNewestFirst : (n : ℕ) (rs : List Row) → IsNewestFirst rs → IsNewestFirst (take n rs)
take-IsNewestFirst zero rs h = tt
take-IsNewestFirst (suc n) [] h = tt
take-IsNewestFirst (suc n) (r ∷ rs) h = (All-take _ n rs h.0, take-IsNewestFirst n rs h.1)

length-insert : (r : Row) (rs : List Row) → length (insert_newest_first r rs) ≡ suc (length rs)
unfolding insert_newest_first
length-insert r [] = refl
length-insert r (s ∷ rs) = ground (arith, length-insert r rs)

pub length-newest_first : (rs : List Row) → length (newest_first rs) ≡ length rs
unfolding newest_first
length-newest_first [] = refl
length-newest_first (r ∷ rs) = length-insert r (newest_first rs) ∙ ap suc (length-newest_first rs)

insert-Perm : (r : Row) (rs : List Row) → Perm (insert_newest_first r rs) (r ∷ rs)
unfolding insert_newest_first
insert-Perm r [] = Perm.refl (r ∷ [])
insert-Perm r (s ∷ rs) = elim (Bool-cases (ltb_ℤ r.create_ts s.create_ts)) [
  | inl older ↦ rw older (Perm.trans (Perm.cons s (insert-Perm r rs)) (Perm.swap r s rs))
  | inr newer ↦ rw newer (Perm.refl (r ∷ s ∷ rs))
]

-- Ordering the rows neither adds nor drops one.
pub newest_first-Perm : (rs : List Row) → Perm (newest_first rs) rs
unfolding newest_first
newest_first-Perm [] = Perm.refl []
newest_first-Perm (r ∷ rs) =
    Perm.trans (insert-Perm r (newest_first rs)) (Perm.cons r (newest_first-Perm rs))

-- The rows behind the first ones.
abbrev pub behind : ℕ → List Row → List Row
behind zero rs = rs
behind (suc n) [] = []
behind (suc n) (r ∷ rs) = behind n rs

pub take-behind : (n : ℕ) (rs : List Row) → take n rs ++ behind n rs ≡ rs
take-behind zero rs = refl
take-behind (suc n) [] = refl
take-behind (suc n) (r ∷ rs) = ap (λ xs. r ∷ xs) (take-behind n rs)

All-behind : (P : Row → Type 0) (n : ℕ) (rs : List Row) → All P rs → All P (behind n rs)
All-behind P zero rs h = h
All-behind P (suc n) [] h = tt
All-behind P (suc n) (r ∷ rs) h = All-behind P n rs h.1

-- No row that is left out was created after one that is taken.
pub behind-older :
    (n : ℕ) (rs : List Row)
    → IsNewestFirst rs
    → All (λ r. All (λ s. s.create_ts ≤ℤ r.create_ts) (behind n rs)) (take n rs)
behind-older zero rs h = tt
behind-older (suc n) [] h = tt
behind-older (suc n) (r ∷ rs) h = (All-behind _ n rs h.0, behind-older n rs h.1)
