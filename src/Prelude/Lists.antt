-- ===== src/Prelude/Lists.antt =====
-- Lists measured by native numbers and searched by Boolean tests, under the library's names.
use Prim.Native.Nat.{ℕ, suc, ◌+◌}
use mathlib.Core.Path.{◌≡◌, refl}
use mathlib.Core.Logic.{inl, inr}
use mathlib.Core.Bool.{Bool, true, false, ◌&&◌, ◌||◌}
use mathlib.Core.List.{List, [], ◌∷◌, ◌++◌, Memᴰ}
use native.Mathlib.Omega.{arith}
use reversibility_engine.Prelude.Tests.{if◌then◌else◌, ||-true}

module _ {ℓ} {A : Type ℓ} where
  abbrev pub length : List A → ℕ
  length [] = 0
  length (x ∷ xs) = suc (length xs)

  abbrev pub is_empty : List A → Bool
  is_empty [] = true
  is_empty (x ∷ xs) = false

  abbrev pub any : List A → (A → Bool) → Bool
  any [] p = false
  any (x ∷ xs) p = p x || any xs p

  abbrev pub all : List A → (A → Bool) → Bool
  all [] p = true
  all (x ∷ xs) p = p x && all xs p

  -- How many elements pass the test.
  abbrev pub count_p : (A → Bool) → List A → ℕ
  count_p p [] = 0
  count_p p (x ∷ xs) = (if p x then 1 else 0) + count_p p xs

  -- The elements that pass the test, in order.
  abbrev pub keep : (A → Bool) → List A → List A
  keep p [] = []
  keep p (x ∷ xs) = let rest = keep p xs in if p x then x ∷ rest else rest

  abbrev pub All {κ} : (A → Type κ) → List A → Type κ
  All P [] = Unit
  All P (x ∷ xs) = P x × All P xs

  pub length-append : (xs ys : List A) → length (xs ++ ys) ≡ length xs + length ys
  length-append [] ys = omega arith
  length-append (x ∷ xs) ys = omega (arith, length-append xs ys)

  pub any-append : (xs ys : List A) (p : A → Bool) → any (xs ++ ys) p ≡ any xs p || any ys p
  any-append [] ys p = refl
  any-append (x ∷ xs) ys p = ground (arith, any-append xs ys p)

  pub any-of_mem : (xs : List A) (p : A → Bool) {x : A} → Memᴰ x xs → p x ≡ true → any xs p ≡ true
  any-of_mem [] p m h = elim m [ ]
  any-of_mem (y ∷ xs) p (Memᴰ.head e) h = ground arith
  any-of_mem (y ∷ xs) p (Memᴰ.tail m) h = ground (arith, any-of_mem xs p m h)

  pub mem-of_any :
      (xs : List A) (p : A → Bool) → any xs p ≡ true → (x : A) × Memᴰ x xs × (p x ≡ true)
  mem-of_any [] p h = absurd (ground arith)
  mem-of_any (x ∷ xs) p h = elim (||-true (p x) (any xs p) h) [
    | inl e ↦ (x, Memᴰ.head refl, e)
    | inr e ↦ let (y, m, hy) = mem-of_any xs p e in (y, Memᴰ.tail m, hy)
  ]

  pub All-of_all : (p : A → Bool) (xs : List A) → all xs p ≡ true → All (λ x. p x ≡ true) xs
  All-of_all p [] h = tt
  All-of_all p (x ∷ xs) h = (ground arith, All-of_all p xs (ground arith))

  pub all-of_All : (p : A → Bool) (xs : List A) → All (λ x. p x ≡ true) xs → all xs p ≡ true
  all-of_All p [] h = refl
  all-of_All p (x ∷ xs) h = ground (arith, all-of_All p xs h.1)

  pub All-map {κ μ} :
      {P : A → Type κ} {Q : A → Type μ} (xs : List A) → ((x : A) → P x → Q x) → All P xs → All Q xs
  All-map [] f h = tt
  All-map (x ∷ xs) f h = (f x h.0, All-map xs f h.1)

  pub any_cong : {p q : A → Bool} (xs : List A) → ((x : A) → p x ≡ q x) → any xs p ≡ any xs q
  any_cong [] h = refl
  any_cong (x ∷ xs) h = ground (arith, h x, any_cong xs h)

  -- Two tests that agree on the elements keep the same ones.
  pub keep_cong {κ} :
      {P : A → Type κ} {p q : A → Bool} (xs : List A)
      → All P xs
      → ((x : A) → P x → p x ≡ q x)
      → keep p xs ≡ keep q xs
  keep_cong [] a h = refl
  keep_cong (x ∷ xs) a h = ground (arith, h x a.0, keep_cong xs a.1 h)
