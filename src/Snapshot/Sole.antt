-- ===== src/Snapshot/Sole.antt =====
-- What every lookup of a snapshot returns, and what its callers go on with
-- (internal/snapshot/enrich.go).
use reversibility_engine.Prelude.{
  ℕ, suc, ◌+◌, Bool, true, ◌≡◌, ◌↔◌, refl, arith, Option, none, some, List, [], ◌∷◌, keep, length,
  is_empty, inl, inr, Bool-cases, if◌then◌else◌, ◌==◌,
}
use reversibility_engine.Snapshot.Lookup.{
  Table, Set, Found, accepted, only, only_from, find_table, tables_of, same_object, split_qualified,
}
use reversibility_engine.Prelude.Text.{Text}

-- The one element of a list that has one.
unfoldable pub sole : {A : Type 0} → List A → Option A
sole [] = none
sole (x ∷ []) = some x
sole (x ∷ y ∷ rest) = none

or_else : {A : Type 0} → Option A → Option A → Option A
or_else none b = b
or_else (some a) b = some a

-- The last element of a list that has one.
unfoldable pub last_of : {A : Type 0} → List A → Option A
unfolding or_else
last_of [] = none
last_of (x ∷ xs) = or_else (last_of xs) (some x)

module _ {A : Type 0} (p : A → Bool) where
  or_else_assoc : (a b c : Option A) → or_else (or_else a b) c ≡ or_else a (or_else b c)
  unfolding or_else
  or_else_assoc none b c = refl
  or_else_assoc (some a) b c = refl

  abbrev counted : List A → Option A → ℕ → Found A
  counted ks found n = record { item = or_else (last_of ks) found; is_sole = (n + length ks) == 1 }

  only_from-eq :
      (xs : List A) (found : Option A) (n : ℕ)
      → only_from p xs found n ≡ counted (keep p xs) found n
  unfolding only_from last_of or_else
  only_from-eq [] found n = ground arith
  only_from-eq (x ∷ xs) found n = ground (
    arith,
    only_from-eq xs (some x) (suc n),
    only_from-eq xs found n,
    or_else_assoc (last_of (keep p xs)) (some x) found,
  )

  or_else-none : (a : Option A) → or_else a none ≡ a
  unfolding or_else
  or_else-none none = refl
  or_else-none (some a) = refl

  accepted-counted : (ks : List A) → accepted (counted ks none 0) ≡ sole ks
  unfolding accepted sole last_of or_else
  accepted-counted [] = refl
  accepted-counted (x ∷ []) = refl
  accepted-counted (x ∷ y ∷ ks) = ground arith

  pub only-eq-sole :
      (xs : List A)
      → ((only p xs).item ≡ last_of (keep p xs))
        × (((only p xs).is_sole ≡ true) ↔ (length (keep p xs) ≡ 1))
        × (accepted (only p xs) ≡ sole (keep p xs))
  unfolding only
  only-eq-sole xs =
      let e = only_from-eq xs none 0 in
      (
        rw e (or_else-none (last_of (keep p xs))),
        (rw e (λ h. ground arith), rw e (λ h. ground arith)),
        rw e (accepted-counted (keep p xs)),
      )

-- The last of the tables that a name may stand for.
abbrev pub last_match : {F : Type 0} → Set F → Text → Option Table
last_match s relation =
    let r = split_qualified relation in
    let found =
      last_of (keep (λ (t : Table). same_object r.0 r.1 t.schema t.name) (tables_of s.postgres)) in
    if is_empty relation then none else found

pub find_table-item :
    {F : Type 0} (s : Set F) (relation : Text)
    → (find_table s relation).item ≡ last_match s relation
unfolding find_table
find_table-item s relation = elim (Bool-cases (is_empty relation)) [
  | inl e ↦ rw e refl
  | inr e ↦ rw e (only-eq-sole _ (tables_of s.postgres)).0
]
