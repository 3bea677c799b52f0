-- ===== src/Postgres/Normal.antt =====
-- The one-line form of a statement (`NormalizeStatement`, internal/analyzer/analyzer.go).
use reversibility_engine.Prelude.Text.{Text}
use reversibility_engine.Prelude.Words.{is_space, take}
use reversibility_engine.Prelude.{
  ℕ, ◌-◌, Bool, true, false, ◌&&◌, [], ◌∷◌, ◌++◌, length, leb, if◌then◌else◌,
}

-- `domain.MaxStatementLength`.
abbrev pub max_statement_length : ℕ
max_statement_length = 200

-- The loop of `NormalizeStatement`: whether white space is pending, and whether anything has been
-- written.
unfoldable pub collapse : Bool → Bool → Text → Text
unfolding is_space
collapse space started [] = []
collapse space started (c ∷ cs) =
    let skipped = collapse true started cs in
    let written = collapse false true cs in
    if is_space c then skipped else (if space && started then 32 ∷ c ∷ written else c ∷ written)

abbrev pub marker : Text
marker = 46 ∷ 46 ∷ 46 ∷ []

-- The cut to the bound, the marker inside of it.
unfoldable pub bounded : Text → Text
unfolding take
bounded out =
    let cut = take (max_statement_length - length marker) out ++ marker in
    if leb (length out) max_statement_length then out else cut

-- `NormalizeStatement`.
unfoldable pub normalize_statement : Text → Text
unfolding bounded collapse
normalize_statement s = bounded (collapse false false s)
