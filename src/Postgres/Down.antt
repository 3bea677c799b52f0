-- ===== src/Postgres/Down.antt =====
-- Validation of down migrations (internal/analyzer/postgres/down.go).
use reversibility_engine.Prelude.Sort.{sort_strings}
use reversibility_engine.Prelude.Result.{Result, ok, err}
use reversibility_engine.Prelude.Format.{format}
use reversibility_engine.Prelude.Text.{Text, text, text_eq, trim_space}
use reversibility_engine.Prelude.{
  Bool, true, false, Option, none, some, List, [], ◌∷◌, ◌++◌, any, is_empty, if◌then◌else◌,
}
use reversibility_engine.Domain.Finding.{DownMigrationStatus}
use reversibility_engine.Domain.Located.{ChangedFile}
use reversibility_engine.Postgres.Statement.{Statement, ObjectRef, ref_eq, ref_text, creates, drops}
use reversibility_engine.Postgres.Migration.{Pair, pair_migrations}
use reversibility_engine.Postgres.Analyze.{Parser, Context}

unfoldable pub added_ref : Option ObjectRef → List ObjectRef → List ObjectRef
added_ref none refs = refs
added_ref (some r) refs = r ∷ refs

-- `objectSet`.
unfoldable pub object_set : List Statement → (Statement → Option ObjectRef) → List ObjectRef
unfolding added_ref
object_set [] get = []
object_set (s ∷ ss) get = added_ref (get s) (object_set ss get)

-- `_, ok := set[obj]`.
unfoldable pub has_ref : List ObjectRef → ObjectRef → Bool
unfolding ref_eq
has_ref refs r = any refs (λ q. ref_eq r q)

-- The note on an object that the set should hold.
unfoldable pub note_of : Option ObjectRef → List ObjectRef → Text → List Text
unfolding has_ref ref_text format
note_of none refs template = []
note_of (some r) refs template =
    if has_ref refs r then [] else format template (ref_text r ∷ []) ∷ []

-- The loop of `checkSymmetry`.
unfoldable pub symmetry_notes_of : List Statement → List ObjectRef → List ObjectRef → List Text
unfolding note_of creates drops text
symmetry_notes_of [] down_drops down_creates = []
symmetry_notes_of (s ∷ ss) down_drops down_creates =
    note_of (creates s) down_drops (text "up creates %s but down never drops it")
    ++ (note_of (drops s) down_creates (text "up drops %s but down never recreates it")
        ++ symmetry_notes_of ss down_drops down_creates)

dedupe_after : Text → List Text → List Text
unfolding text_eq
dedupe_after prev [] = []
dedupe_after prev (s ∷ ss) =
    let rest = dedupe_after s ss in if text_eq s prev then rest else s ∷ rest

-- `dedupe`: each text once, where equal ones stand together.
unfoldable pub dedupe : List Text → List Text
unfolding dedupe_after
dedupe [] = []
dedupe (s ∷ ss) = s ∷ dedupe_after s ss

-- `checkSymmetry`.
unfoldable pub check_symmetry : List Statement → List Statement → Bool × List Text
unfolding symmetry_notes_of object_set creates drops sort_strings dedupe
check_symmetry up down =
    let notes = symmetry_notes_of up (object_set down drops) (object_set down creates) in
    if is_empty notes then (true, []) else (false, dedupe (sort_strings notes))

-- The last level: the up migration parses, and is reversed.
unfoldable pub compare_up :
    Result (List Statement) → List Statement → DownMigrationStatus → DownMigrationStatus
unfolding check_symmetry text
compare_up (err why) down status = record status {
  symmetry_notes =
      text "symmetry could not be checked because the up migration does not parse" ∷ [];
}
compare_up (ok up) down status =
    let checked = check_symmetry up down in
    record status { symmetric = checked.0; symmetry_notes = checked.1 }

-- The second level: the down migration parses.
unfoldable pub parsed_down :
    Parser → ChangedFile → Result (List Statement) → DownMigrationStatus → DownMigrationStatus
unfolding compare_up format text
parsed_down parse up (err why) status = record status {
  symmetry_notes = format (text "the down migration does not parse: %v") (why ∷ []) ∷ [];
}
parsed_down parse up (ok down) status =
    compare_up (parse up.current) down (record status { parses = true })

-- The first level: there is a down migration, and it is not empty.
unfoldable pub existing_down :
    Parser → ChangedFile → Option ChangedFile → DownMigrationStatus → DownMigrationStatus
unfolding parsed_down trim_space text
existing_down parse up none status = record status {
  symmetry_notes = text "no down migration accompanies this up migration" ∷ [];
}
existing_down parse up (some down) status =
    let found : DownMigrationStatus = record status { down_file = down.path; exists = true } in
    let sql : Text = trim_space down.current in
    let blank : DownMigrationStatus = record found {
      symmetry_notes = text "the down migration is empty" ∷ [];
    } in
    if is_empty sql then blank else parsed_down parse up (parse sql) found

-- The status of a pair that has an up migration.
unfoldable pub pair_status : Parser → Text → ChangedFile → Option ChangedFile → DownMigrationStatus
unfolding existing_down
pair_status parse id up down = existing_down parse up down (record {
  migration = id;
  up_file = up.path;
  down_file = [];
  exists = false;
  parses = false;
  symmetric = false;
  symmetry_notes = [];
})

unfoldable pub statuses_with :
    Parser → Text → Option ChangedFile → Option ChangedFile → List DownMigrationStatus
unfolding pair_status
statuses_with parse id none down = []
statuses_with parse id (some up) down = pair_status parse id up down ∷ []

-- The loop of `ValidateDownMigrations`: a pair without an up migration is passed over.
unfoldable pub pair_statuses : Parser → List Pair → List DownMigrationStatus
unfolding statuses_with
pair_statuses parse [] = []
pair_statuses parse (p ∷ ps) = statuses_with parse p.id p.up p.down ++ pair_statuses parse ps

validation_error : Text → Text
unfolding text
validation_error why = text "postgres: validating down migrations: " ++ why

-- `ValidateDownMigrations`.
unfoldable pub validate_down_migrations :
    Option Parser → Context → List ChangedFile → Result (List DownMigrationStatus)
unfolding pair_statuses pair_migrations validation_error text
validate_down_migrations none ctx files =
    err (validation_error (text "domain: sql parser unavailable"))
validate_down_migrations (some parse) ctx files =
    let run = ok (pair_statuses parse (pair_migrations files)) in
    elim (ctx 0) [ some why ↦ err (validation_error why) | none ↦ run ]
