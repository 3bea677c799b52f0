-- ===== src/Snapshot/Float.antt =====
-- What the snapshot package uses of `float64`, and of `int64`. The arithmetic of floats is a
-- parameter, so nothing that is proved rests on how it rounds.
use reversibility_engine.Prelude.Text.{Text}
use reversibility_engine.Prelude.Int.{ℤ, pos, negsuc, pos_part, neg_part, ltb_ℤ}
use reversibility_engine.Prelude.{ℕ, ◌+◌, ◌-◌, ◌%◌, ◌^◌, Bool, not, ltb, leb, if◌then◌else◌}

-- `float64`: conversions, arithmetic, comparison, `math.Round` and the verbs `%.0f`, `%.1f`,
-- `%.2f` and `%g`.
pub record Floats (F : Type 0) : Type 0 where
  pub of_int : ℤ → F
  pub to_int : F → ℤ
  pub plus : F → F → F
  pub divide : F → F → F
  pub times : F → F → F
  pub less : F → F → Bool
  pub at_most : F → F → Bool
  pub round : F → F
  pub fixed_0 : F → Text
  pub fixed_1 : F → Text
  pub fixed_2 : F → Text
  pub general : F → Text

-- The `int64` that the bits of a number stand for.
unfoldable pub int64_of_bits : ℕ → ℤ
int64_of_bits n = if ltb n (2 ^ 63) then pos n else negsuc (2 ^ 64 - n - 1)

-- A number as it wraps around in an `int64`.
unfoldable pub wrap_int64 : ℤ → ℤ
unfolding int64_of_bits
wrap_int64 (pos n) = int64_of_bits (n % 2 ^ 64)
wrap_int64 (negsuc n) = int64_of_bits (2 ^ 64 - 1 - n % 2 ^ 64)

unfoldable pub minus : ℕ → ℕ → ℤ
minus a b = if leb b a then pos (a - b) else negsuc (b - a - 1)

-- `a + b` on `int64`.
unfoldable pub add_int64 : ℤ → ℤ → ℤ
unfolding wrap_int64 minus
add_int64 a b = wrap_int64 (minus (pos_part a + pos_part b) (neg_part a + neg_part b))

-- `a <= 0`.
abbrev pub is_not_positive : ℤ → Bool
is_not_positive a = not (ltb_ℤ (pos 0) a)
