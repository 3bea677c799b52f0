-- ===== src/Prelude/Assoc.antt =====
-- A Go map keyed by strings, as an association list.
use mathlib.Core.Path.{◌≡◌, refl}
use mathlib.Core.Bool.{true}
use mathlib.Core.Option.{Option, none, some}
use mathlib.Core.List.{List, [], ◌∷◌}
use native.Mathlib.Omega.{arith}
use reversibility_engine.Prelude.Tests.{if◌then◌else◌}
use reversibility_engine.Prelude.Text.{Text, text_eq, text_eq_iff}

-- Equal keys are the same text, so they agree on every other key.
pub text_eq_congr : (q a b : Text) → text_eq a b ≡ true → text_eq q a ≡ text_eq q b
text_eq_congr q a b e = cc ((text_eq_iff a b).0 e)

pub text_eq_symm : (a b : Text) → text_eq a b ≡ text_eq b a
unfolding text_eq
text_eq_symm [] [] = refl
text_eq_symm [] (y ∷ ys) = refl
text_eq_symm (x ∷ xs) [] = refl
text_eq_symm (x ∷ xs) (y ∷ ys) = ground (arith, text_eq_symm xs ys)

-- Where one of two keys is the same as a third, so is the other.
pub text_eq_left : (q k a : Text) → text_eq q k ≡ true → text_eq k a ≡ text_eq q a
text_eq_left q k a e = cc ((text_eq_iff q k).0 e)

module _ {ℓ} {V : Type ℓ} where
  -- `v, ok := m[k]`.
  unfoldable pub lookup : Text → List (Text × V) → Option V
  lookup k [] = none
  lookup k (e ∷ m) = if text_eq k e.0 then some e.1 else lookup k m

  -- `m[k] = v`.
  unfoldable pub put : Text → V → List (Text × V) → List (Text × V)
  put k v [] = (k, v) ∷ []
  put k v (e ∷ m) = let rest = put k v m in if text_eq k e.0 then (k, v) ∷ m else e ∷ rest

  -- `delete(m, k)`.
  unfoldable pub delete : Text → List (Text × V) → List (Text × V)
  delete k [] = []
  delete k (e ∷ m) = let rest = delete k m in if text_eq k e.0 then rest else e ∷ rest

  pub lookup-put :
      (q k : Text) (v : V) (m : List (Text × V))
      → lookup q (put k v m) ≡ (if text_eq q k then some v else lookup q m)
  unfolding lookup put
  lookup-put q k v [] = refl
  lookup-put q k v (e ∷ m) =
      ground (arith, lookup-put q k v m, text_eq_congr q k e.0, text_eq_left q k e.0)

  pub lookup-delete :
      (q k : Text) (m : List (Text × V))
      → lookup q (delete k m) ≡ (if text_eq q k then none else lookup q m)
  unfolding lookup delete
  lookup-delete q k [] = ground arith
  lookup-delete q k (e ∷ m) =
      ground (arith, lookup-delete q k m, text_eq_congr q k e.0, text_eq_left q k e.0)
