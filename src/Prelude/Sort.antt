-- ===== src/Prelude/Sort.antt =====
-- `sort.SliceStable` and `sort.Strings`: a stable sort by a strict Boolean order.
use mathlib.Core.Path.{◌≡◌, refl}
use mathlib.Core.Bool.{Bool, true, false}
use mathlib.Core.List.{List, [], ◌∷◌, Perm}
use mathlib.Core.List.Perm
use native.Mathlib.Omega.{arith}
use reversibility_engine.Prelude.Tests.{if◌then◌else◌, Bool-cases}
use reversibility_engine.Prelude.Lists.{All, All-map, is_empty}
use reversibility_engine.Prelude.Text.{Text, text_lt, text_lt_asymm, text_le_trans}
use mathlib.Core.Logic.{inl, inr}

module _ {ℓ} {A : Type ℓ} (less : A → A → Bool) where
  -- In front of the first element that is not less, so equal elements keep their order.
  unfoldable pub insert_by : A → List A → List A
  insert_by a [] = a ∷ []
  insert_by a (x ∷ xs) = let rest = insert_by a xs in if less x a then x ∷ rest else a ∷ x ∷ xs

  unfoldable pub sort_by : List A → List A
  unfolding insert_by
  sort_by [] = []
  sort_by (x ∷ xs) = insert_by x (sort_by xs)

  -- Each element is not greater than any that follows.
  abbrev pub IsSorted : List A → Type 0
  IsSorted [] = Unit
  IsSorted (x ∷ xs) = All (λ y. less y x ≡ false) xs × IsSorted xs

  insert_by-perm : (a : A) (xs : List A) → Perm (insert_by a xs) (a ∷ xs)
  unfolding insert_by
  insert_by-perm a [] = Perm.refl (a ∷ [])
  insert_by-perm a (x ∷ xs) = elim (Bool-cases (less x a)) [
    | inl e ↦ rw e (Perm.trans (Perm.cons x (insert_by-perm a xs)) (Perm.swap a x xs))
    | inr e ↦ rw e (Perm.refl (a ∷ x ∷ xs))
  ]

  pub is_empty-insert_by : (a : A) (xs : List A) → is_empty (insert_by a xs) ≡ false
  unfolding insert_by
  is_empty-insert_by a [] = refl
  is_empty-insert_by a (x ∷ xs) = ground arith

  -- Sorting reorders.
  pub sort_by-perm : (xs : List A) → Perm (sort_by xs) xs
  unfolding sort_by
  sort_by-perm [] = Perm.refl []
  sort_by-perm (x ∷ xs) = Perm.trans (insert_by-perm x (sort_by xs)) (Perm.cons x (sort_by-perm xs))

  insert_by-All {κ} :
      (P : A → Type κ) (a : A) (xs : List A) → P a → All P xs → All P (insert_by a xs)
  unfolding insert_by
  insert_by-All P a [] h k = (h, tt)
  insert_by-All P a (x ∷ xs) h k = elim (Bool-cases (less x a)) [
    | inl e ↦ rw e (k.0, insert_by-All P a xs h k.1)
    | inr e ↦ rw e (h, k)
  ]

  pub sort_by-All {κ} : (P : A → Type κ) (xs : List A) → All P xs → All P (sort_by xs)
  unfolding sort_by
  sort_by-All P [] h = tt
  sort_by-All P (x ∷ xs) h = insert_by-All P x (sort_by xs) h.0 (sort_by-All P xs h.1)

  module _ (asymm : (x y : A) → less x y ≡ true → less y x ≡ false)
      (trans : (x y z : A) → less y x ≡ false → less z y ≡ false → less z x ≡ false) where
    insert_by-IsSorted : (a : A) (xs : List A) → IsSorted xs → IsSorted (insert_by a xs)
    unfolding insert_by
    insert_by-IsSorted a [] h = (tt, tt)
    insert_by-IsSorted a (x ∷ xs) h = elim (Bool-cases (less x a)) [
      | inl e ↦ rw e (
        insert_by-All (λ y. less y x ≡ false) a xs (asymm x a e) h.0,
        insert_by-IsSorted a xs h.1,
      )
      | inr e ↦ rw e ((e, All-map xs (λ y. trans a x y e) h.0), h)
    ]

    -- The result of the sort is sorted.
    pub sort_by-IsSorted : (xs : List A) → IsSorted (sort_by xs)
    unfolding sort_by
    sort_by-IsSorted [] = tt
    sort_by-IsSorted (x ∷ xs) = insert_by-IsSorted x (sort_by xs) (sort_by-IsSorted xs)

-- `sort.Strings`.
unfoldable pub sort_strings : List Text → List Text
sort_strings = sort_by text_lt

pub sort_strings-IsSorted : (xs : List Text) → IsSorted text_lt (sort_strings xs)
unfolding sort_strings
sort_strings-IsSorted = sort_by-IsSorted text_lt text_lt_asymm text_le_trans

pub sort_strings-perm : (xs : List Text) → Perm (sort_strings xs) xs
unfolding sort_strings
sort_strings-perm = sort_by-perm text_lt

pub is_empty-sort_strings : (xs : List Text) → is_empty (sort_strings xs) ≡ is_empty xs
unfolding sort_strings sort_by insert_by
is_empty-sort_strings [] = refl
is_empty-sort_strings (x ∷ xs) = is_empty-insert_by text_lt x (sort_strings xs)
