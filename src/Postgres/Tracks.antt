-- ===== src/Postgres/Tracks.antt =====
-- What the schema tracker knows: the type that the last statement about a column declares
-- (internal/analyzer/postgres/schema.go).
use reversibility_engine.Prelude.Text.{Text, text_eq}
use reversibility_engine.Prelude.{
  Bool, true, not, ◌&&◌, ◌||◌, Option, none, some, List, [], ◌∷◌, is_empty, if◌then◌else◌,
}
use reversibility_engine.Postgres.Statement.{Kind, Column, SqlType, Statement}
use reversibility_engine.Postgres.Schema.{Schema, key}

-- The first of two that says something.
unfoldable pub over {ℓ} : {A : Type ℓ} → Option A → Option A → Option A
over none b = b
over (some a) b = some a

-- What stays where nothing is said.
unfoldable pub unless {ℓ} : {A : Type ℓ} → Option A → A → A
unless none a = a
unless (some b) a = b

-- Both names are given, and they name the column of the table.
unfoldable pub names : Text → Text → Text → Text → Bool
unfolding text_eq key
names table column t c =
    not (is_empty table || is_empty column)
    && (text_eq (key t) (key table) && text_eq (key c) (key column))

-- The declaration that a known type makes.
unfoldable pub declares : Bool → Option SqlType → Option (Option SqlType)
declares true (some ty) = some (some ty)
declares _ _ = none

-- What a list of columns says of one.
unfoldable pub columns_effect : List Column → Text → Text → Text → Option (Option SqlType)
unfolding over declares names
columns_effect [] table t c = none
columns_effect (d ∷ ds) table t c =
    over (columns_effect ds table t c) (declares (names table d.name t c) d.type)

-- What a statement says of a column: nothing, that it has a type, or that it is gone.
unfoldable pub effect_of : Kind → Statement → Text → Text → Option (Option SqlType)
unfolding columns_effect declares names text_eq key
effect_of Kind.kind_create_table s t c = columns_effect s.columns s.relation t c
effect_of Kind.kind_add_column s t c = declares (names s.relation s.object t c) s.column_type
effect_of Kind.kind_alter_column_type s t c = declares (names s.relation s.object t c) s.column_type
effect_of Kind.kind_drop_column s t c =
    if text_eq (key t) (key s.relation) && text_eq (key c) (key s.object) then some none else none
effect_of Kind.kind_drop_table s t c = if text_eq (key t) (key s.object) then some none else none
effect_of _ s t c = none

-- What the last statement that says something of the column says.
unfoldable pub last_effect : List Statement → Text → Text → Option (Option SqlType)
unfolding over effect_of
last_effect [] t c = none
last_effect (s ∷ ss) t c = over (last_effect ss t c) (effect_of s.kind s t c)
