-- ===== src/Base/Places.antt =====
-- Where a member of a list is after the list's operations, and what it has.
use c_bridge_node.Base.Tests.{if◌then◌else◌}
use c_bridge_node.Base.Lists.{All, Among, select}
use mathlib.Core.Path.{◌≡◌, refl, sym, ap, ◌∙◌, subst}
use mathlib.Core.Logic.{inl, inr}
use mathlib.Core.Bool.{Bool, true, false}
use mathlib.Core.List.{List, [], ◌∷◌, ◌++◌, map}

module _ {A : Type 0} where
  pub Among-last : (a : A) (xs : List A) → Among a (xs ++ a ∷ [])
  Among-last a [] = inl refl
  Among-last a (x ∷ xs) = inr (Among-last a xs)

  Among-if : (b : Bool) (x a : A) (xs : List A) → Among a xs → Among a (if b then x ∷ xs else xs)
  Among-if true x a xs there = inr there
  Among-if false x a xs there = there

  pub Among-select :
      (p : A → Bool) (a : A) (xs : List A) → Among a xs → p a ≡ true → Among a (select p xs)
  unfolding select
  Among-select p a [] there h = elim there [ ]
  Among-select p a (x ∷ xs) (inl same) h =
      subst (λ b. Among a (if b then x ∷ select p xs else select p xs)) (sym (ap p same ∙ h))
        (inl same)
  Among-select p a (x ∷ xs) (inr later) h =
      Among-if (p x) x a (select p xs) (Among-select p a xs later h)

  pub Among-map :
      {B : Type 0} (f : A → B) (a : A) (xs : List A) → Among a xs → Among (f a) (map f xs)
  Among-map f a [] there = elim there [ ]
  Among-map f a (x ∷ xs) (inl same) = inl (ap f same)
  Among-map f a (x ∷ xs) (inr later) = inr (Among-map f a xs later)

  pub All-at : (P : A → Type 0) (a : A) (xs : List A) → All P xs → Among a xs → P a
  All-at P a [] h there = elim there [ ]
  All-at P a (x ∷ xs) h (inl same) = subst P same h.0
  All-at P a (x ∷ xs) h (inr later) = All-at P a xs h.1 later
