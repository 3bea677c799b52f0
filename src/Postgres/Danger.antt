-- ===== src/Postgres/Danger.antt =====
-- A migration that cannot be undone, or cannot be read, is graded F: the analyzer
-- (internal/analyzer/postgres/postgres.go) with the scorer (internal/engine/scorer.go).
use reversibility_engine.Prelude.Result.{Result, ok, err}
use reversibility_engine.Prelude.{
  Bool, true, false, ◌||◌, ◌&&◌, ◌≡◌, ◌⊎◌, List, [], ◌∷◌, any, if◌then◌else◌,
}
use reversibility_engine.Domain.Finding.{Finding}
use reversibility_engine.Domain.Located.{ChangedFile}
use reversibility_engine.Postgres.Schema.{Schema, new_schema, schema_apply}
use reversibility_engine.Postgres.Statement.{Statement}
use reversibility_engine.Postgres.Analyze.{Parser, is_analyzed, ordered}
use reversibility_engine.Postgres.Risk.{destroys, is_destructive}

-- Some statement is destructive against the schema that those before it leave.
unfoldable pub any_destructive : List Statement → Schema → Bool
unfolding is_destructive
any_destructive [] sch = false
any_destructive (s ∷ ss) sch = is_destructive s sch || any_destructive ss (schema_apply sch s)

holds : Result (List Statement) → Schema → Bool
unfolding any_destructive
holds (err why) sch = true
holds (ok ss) sch = any_destructive ss sch

schema_after : List Statement → Schema → Schema
schema_after [] sch = sch
schema_after (s ∷ ss) sch = schema_after ss (schema_apply sch s)

left_by : Result (List Statement) → Schema → Schema
unfolding schema_after
left_by (err why) sch = sch
left_by (ok ss) sch = schema_after ss sch

-- Some file is an up migration that does not parse, or that holds a statement that is destructive
-- against the schema that the up migrations before it leave.
unfoldable pub is_dangerous : Parser → List ChangedFile → Schema → Bool
unfolding holds left_by is_analyzed
is_dangerous parse [] sch = false
is_dangerous parse (f ∷ fs) sch =
    let here = holds (parse f.current) sch in
    let rest = is_dangerous parse fs (left_by (parse f.current) sch) in
    let skipped = is_dangerous parse fs sch in if is_analyzed f then here || rest else skipped

holds_always : Result (List Statement) → Bool
holds_always (err why) = true
holds_always (ok ss) = any ss (λ s. s.cascade || destroys s.kind)

-- The file is an up migration that does not parse, or that holds a statement that is destructive
-- against every schema.
unfoldable pub is_always_dangerous : Parser → ChangedFile → Bool
unfolding holds_always is_analyzed destroys
is_always_dangerous parse f = is_analyzed f && holds_always (parse f.current)

-- What a changeset holds that is graded F: a file at fault, wherever it stands, or one at fault
-- against the schema that the migrations before it, in the order of their paths, leave.
abbrev pub Endangers : Parser → List ChangedFile → Type 0
Endangers parse files =
    (any files (is_always_dangerous parse) ≡ true)
    ⊎ (is_dangerous parse (ordered files) new_schema ≡ true)
