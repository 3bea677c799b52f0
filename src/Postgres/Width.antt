-- ===== src/Postgres/Width.antt =====
-- The direction of a conversion between column types (`compareTypes` and its helpers,
-- internal/analyzer/postgres/schema.go).
use reversibility_engine.Prelude.Text.{Text, text, text_eq, to_lower}
use reversibility_engine.Prelude.Int.{ℤ, pos, ltb_ℤ}
use reversibility_engine.Prelude.{
  ℕ, Bool, true, false, not, ◌&&◌, ◌||◌, Option, none, some, List, [], ◌∷◌, ltb, if◌then◌else◌,
}
use reversibility_engine.Postgres.Statement.{SqlType}

pub data WidthChange : Type 0 where
  width_unknown width_narrowing width_widening width_same : WidthChange

-- `integerRanks`.
unfoldable pub integer_rank : Text → Option ℕ
unfolding text_eq text
integer_rank t =
    if text_eq t (text "int2")
    then some 1
    else (if text_eq t (text "int4")
        then some 2
        else (if text_eq t (text "int8") then some 3 else none))

-- `a == b` on `int32`.
unfoldable pub int_eq : ℤ → ℤ → Bool
int_eq a b = not (ltb_ℤ a b) && not (ltb_ℤ b a)

-- The comparison of lists of modifiers.
unfoldable pub mods_eq : List ℤ → List ℤ → Bool
unfolding int_eq
mods_eq [] [] = true
mods_eq (a ∷ rest) (b ∷ rest') = int_eq a b && mods_eq rest rest'
mods_eq _ _ = false

-- `sameMods`.
unfoldable pub same_mods : SqlType → SqlType → Bool
unfolding mods_eq
same_mods a b = mods_eq a.mods b.mods

-- `isCharacter`.
unfoldable pub is_character : Text → Bool
unfolding text_eq text
is_character t = text_eq t (text "text") || text_eq t (text "varchar")

limit_of : Bool → List ℤ → Option ℤ
limit_of true mods = none
limit_of false [] = none
limit_of false (m ∷ mods) = some m

-- `charLimit`: the bound, or `none` where the type is unbounded.
unfoldable pub char_limit : SqlType → Option ℤ
unfolding limit_of to_lower text text_eq
char_limit t = limit_of (text_eq (to_lower t.name) (text "text")) t.mods

-- `compareCharacter` on the two bounds.
unfoldable pub compare_limits : Option ℤ → Option ℤ → WidthChange
compare_limits none none = width_same
compare_limits none (some l) = width_narrowing
compare_limits (some l) none = width_widening
compare_limits (some l) (some l') =
    if ltb_ℤ l' l then width_narrowing else (if ltb_ℤ l l' then width_widening else width_same)

-- `compareCharacter`.
unfoldable pub compare_character : SqlType → SqlType → WidthChange
unfolding char_limit compare_limits
compare_character a b = compare_limits (char_limit a) (char_limit b)

-- `numericMods`: precision and scale, or `none` where the type is unbounded.
unfoldable pub numeric_mods : List ℤ → Option (ℤ × ℤ)
numeric_mods [] = none
numeric_mods (p ∷ []) = some (p, pos 0)
numeric_mods (p ∷ s ∷ rest) = some (p, s)

-- `compareNumeric` on the two pairs.
unfoldable pub compare_precisions : Option (ℤ × ℤ) → Option (ℤ × ℤ) → WidthChange
compare_precisions none none = width_same
compare_precisions none (some b) = width_narrowing
compare_precisions (some a) none = width_widening
compare_precisions (some a) (some b) =
    if ltb_ℤ b.0 a.0 || ltb_ℤ b.1 a.1
    then width_narrowing
    else (if ltb_ℤ a.0 b.0 || ltb_ℤ a.1 b.1 then width_widening else width_same)

-- `compareNumeric`.
unfoldable pub compare_numeric : SqlType → SqlType → WidthChange
unfolding numeric_mods compare_precisions
compare_numeric a b = compare_precisions (numeric_mods a.mods) (numeric_mods b.mods)

-- `compareTypes` where the first type is an integer.
unfoldable pub compare_ranks : ℕ → Option ℕ → WidthChange
compare_ranks r none = width_unknown
compare_ranks r (some r') =
    if ltb r' r then width_narrowing else (if ltb r r' then width_widening else width_same)

-- `compareTypes` past the integers.
unfoldable pub compare_others : Text → Text → SqlType → SqlType → WidthChange
unfolding is_character compare_character compare_numeric same_mods text_eq text
compare_others f t a b =
    if is_character f && is_character t
    then compare_character a b
    else (if text_eq f (text "numeric") && text_eq t (text "numeric")
        then compare_numeric a b
        else (if text_eq f (text "timestamptz") && text_eq t (text "date")
            then width_narrowing
            else (if text_eq f (text "date") && text_eq t (text "timestamptz")
                then width_widening
                else (if text_eq f t && same_mods a b then width_same else width_unknown))))

-- `compareTypes`.
unfoldable pub compare_types : SqlType → SqlType → WidthChange
unfolding integer_rank compare_ranks compare_others to_lower
compare_types a b =
    let f = to_lower a.name in
    let t = to_lower b.name in
    let others = compare_others f t a b in
    elim (integer_rank f) [ some r ↦ compare_ranks r (integer_rank t) | none ↦ others ]
