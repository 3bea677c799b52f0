-- ===== src/Prelude/Reorder.antt =====
-- Searches and counts over lists that are reordered, or of which some elements are left out.
use mathlib.Core.Path.{◌≡◌, refl, ◌∙◌}
use mathlib.Core.Bool.{Bool, true, Bool-set}
use mathlib.Core.List.{List, Permᴰ, Sublistᴰ, Perm}
use mathlib.Core.Logic.{∥∥₁_elim}
use Prim.Native.Nat.{◌≤◌}
use native.Mathlib.Nat.{ℕ_set}
use native.Mathlib.Omega.{arith}
use reversibility_engine.Prelude.Lists.{any, count_p}

module _ {ℓ} {A : Type ℓ} (p : A → Bool) where
  any-permᴰ : {xs ys : List A} → Permᴰ xs ys → any xs p ≡ any ys p
  any-permᴰ Permᴰ.nil = refl
  any-permᴰ (Permᴰ.cons e m) = ground (arith, any-permᴰ m)
  any-permᴰ (Permᴰ.swap e e') = ground arith
  any-permᴰ (Permᴰ.trans m n) = any-permᴰ m ∙ any-permᴰ n

  count_p-permᴰ : {xs ys : List A} → Permᴰ xs ys → count_p p xs ≡ count_p p ys
  count_p-permᴰ Permᴰ.nil = refl
  count_p-permᴰ (Permᴰ.cons e m) = ground (arith, count_p-permᴰ m)
  count_p-permᴰ (Permᴰ.swap e e') = ground arith
  count_p-permᴰ (Permᴰ.trans m n) = count_p-permᴰ m ∙ count_p-permᴰ n

  pub any-perm : {xs ys : List A} → Perm xs ys → any xs p ≡ any ys p
  any-perm m = ∥∥₁_elim m (Bool-set _ _) any-permᴰ

  pub count_p-perm : {xs ys : List A} → Perm xs ys → count_p p xs ≡ count_p p ys
  count_p-perm m = ∥∥₁_elim m (ℕ_set _ _) count_p-permᴰ

  pub any-sublist : {xs ys : List A} → Sublistᴰ xs ys → any xs p ≡ true → any ys p ≡ true
  any-sublist Sublistᴰ.slnil h = h
  any-sublist (Sublistᴰ.cons m) h = ground (arith, any-sublist m)
  any-sublist (Sublistᴰ.cons-cons e m) h = ground (arith, any-sublist m)

  pub count_p-sublist : {xs ys : List A} → Sublistᴰ xs ys → count_p p xs ≤ count_p p ys
  count_p-sublist Sublistᴰ.slnil = omega arith
  count_p-sublist (Sublistᴰ.cons m) = ground (arith, count_p-sublist m)
  count_p-sublist (Sublistᴰ.cons-cons e m) = ground (arith, count_p-sublist m)
