-- ===== src/Postgres/Digits.antt =====
-- What `compareNumeric` (internal/analyzer/postgres/schema.go) makes of integral digits.
use reversibility_engine.Prelude.Text.{text, text_eq, to_lower}
use reversibility_engine.Prelude.Int.{ℤ, pos, pos_part}
use reversibility_engine.Prelude.{ℕ, ◌+◌, ◌-◌, ◌≤◌, ◌<◌, ◌≡◌, arith, some, List, [], ◌∷◌}
use reversibility_engine.Postgres.Statement.{SqlType}
use reversibility_engine.Postgres.Width.{
  width_widening, compare_types, compare_numeric, compare_precisions, compare_others, integer_rank,
  is_character, numeric_mods,
}

-- `numeric(p, s)`.
unfoldable pub numeric : ℕ → ℕ → SqlType
numeric p s = record { name = text "numeric"; mods = pos p ∷ pos s ∷ [] }

digits_of : List ℤ → ℕ
digits_of (p ∷ s ∷ mods) = pos_part p - pos_part s
digits_of _ = 0

-- The digits in front of the point of a numeric type with precision and scale.
unfoldable pub integral_digits : SqlType → ℕ
unfolding digits_of
integral_digits t = digits_of t.mods

wider_scale :
    (p s d : ℕ)
    → 0 < d
    → compare_precisions (some (pos p, pos s)) (some (pos p, pos (s + d))) ≡ width_widening
unfolding compare_precisions
wider_scale p s d h = ground arith

-- `compareTypes` calls a conversion that keeps the precision of a numeric type and raises its scale
-- a widening, although it leaves fewer digits in front of the point: values that fitted do not.
pub compare_types-numeric :
    (p s d : ℕ)
    → 0 < d
    → s + d ≤ p
    → (compare_types (numeric p s) (numeric p (s + d)) ≡ width_widening)
      × (integral_digits (numeric p (s + d)) < integral_digits (numeric p s))
unfolding compare_types compare_others compare_numeric numeric_mods numeric integral_digits
    integer_rank is_character text text_eq to_lower
compare_types-numeric p s d h k = (wider_scale p s d h, omega arith)
