-- ===== src/Postgres/Levels.antt =====
-- The three levels of the validation of down migrations (internal/analyzer/postgres/down.go).
use reversibility_engine.Prelude.Sort.{is_empty-sort_strings, sort_strings}
use reversibility_engine.Prelude.Result.{Result, ok, err}
use reversibility_engine.Prelude.Text.{Text, trim_space}
use reversibility_engine.Prelude.{
  Bool, true, false, ◌&&◌, ◌≡◌, refl, sym, arith, inl, inr, List, [], ◌∷◌, ◌++◌, All, any, is_empty,
  Bool-cases, Option, none, some,
}
use reversibility_engine.Domain.Finding.{DownMigrationStatus}
use reversibility_engine.Domain.Located.{ChangedFile}
use reversibility_engine.Postgres.Statement.{Statement, ObjectRef, ref_eq, creates, drops}
use reversibility_engine.Postgres.Migration.{Pair, pair_migrations}
use reversibility_engine.Postgres.Analyze.{Parser, Context}
use reversibility_engine.Postgres.Down.{
  statuses_with, object_set, symmetry_notes_of, dedupe, check_symmetry, compare_up, parsed_down,
  existing_down, pair_status, pair_statuses, validate_down_migrations,
}

-- Some statement of the list gives the object.
unfoldable pub undone : Option ObjectRef → (Statement → Option ObjectRef) → List Statement → Bool
unfolding ref_eq
undone none get down = true
undone (some r) get down = any down (λ s. elim (get s) [ none ↦ false | some q ↦ ref_eq r q ])

-- What the statement creates is dropped again, and what it drops is created again.
unfoldable pub is_undone : List Statement → Statement → Bool
unfolding undone
is_undone down s = undone (creates s) drops down && undone (drops s) creates down

is_empty-dedupe : (xs : List Text) → is_empty (dedupe xs) ≡ is_empty xs
unfolding dedupe
is_empty-dedupe [] = refl
is_empty-dedupe (x ∷ xs) = refl

-- Symmetry is claimed without a note, and denied with one.
check_symmetry-notes :
    (up down : List Statement) → is_empty (check_symmetry up down).1 ≡ (check_symmetry up down).0
unfolding check_symmetry
check_symmetry-notes up down =
    let notes = symmetry_notes_of up (object_set down drops) (object_set down creates) in
    ground (arith, is_empty-dedupe (sort_strings notes), is_empty-sort_strings notes)

-- Each level needs the one below it, and a note stands exactly where the last level fails.
pub record IsLevelled (s : DownMigrationStatus) : Type 0 where
  pub parsed : s.parses ≡ true → s.exists ≡ true
  pub reversed : s.symmetric ≡ true → s.parses ≡ true
  pub noted : is_empty s.symmetry_notes ≡ s.symmetric

compare_up-IsLevelled :
    (r : Result (List Statement)) (down : List Statement) (s : DownMigrationStatus)
    → s.exists ≡ true
    → s.parses ≡ true
    → s.symmetric ≡ false
    → IsLevelled (compare_up r down s)
unfolding compare_up
compare_up-IsLevelled (err why) down s e p q = record {
  parsed = λ _. e;
  reversed = λ _. p;
  noted = sym q;
}
compare_up-IsLevelled (ok up) down s e p q = record {
  parsed = λ _. e;
  reversed = λ _. p;
  noted = check_symmetry-notes up down;
}

parsed_down-IsLevelled :
    (parse : Parser) (up : ChangedFile) (r : Result (List Statement)) (s : DownMigrationStatus)
    → s.exists ≡ true
    → s.symmetric ≡ false
    → IsLevelled (parsed_down parse up r s)
unfolding parsed_down
parsed_down-IsLevelled parse up (err why) s e q = record {
  parsed = λ _. e;
  reversed = λ h. absurd (ground (arith, h, q));
  noted = sym q;
}
parsed_down-IsLevelled parse up (ok down) s e q =
    compare_up-IsLevelled (parse up.current) down _ e refl q

pair_status-IsLevelled :
    (parse : Parser) (id : Text) (up : ChangedFile) (down : Option ChangedFile)
    → IsLevelled (pair_status parse id up down)
unfolding pair_status existing_down
pair_status-IsLevelled parse id up none = record {
  parsed = λ h. h;
  reversed = λ h. h;
  noted = refl;
}
pair_status-IsLevelled parse id up (some down) =
    elim (Bool-cases (is_empty (trim_space down.current))) [
      | inl e ↦ rw e (record { parsed = λ h. refl; reversed = λ h. h; noted = refl })
      | inr e ↦ rw e (
          parsed_down-IsLevelled parse up (parse (trim_space down.current))
            (record {
              migration = id;
              up_file = up.path;
              down_file = down.path;
              exists = true;
              parses = false;
              symmetric = false;
              symmetry_notes = [];
            })
            refl refl)
    ]

with-IsLevelled :
    (parse : Parser) (id : Text) (up down : Option ChangedFile) (rest : List DownMigrationStatus)
    → All IsLevelled rest
    → All IsLevelled (statuses_with parse id up down ++ rest)
unfolding statuses_with
with-IsLevelled parse id none down rest h = h
with-IsLevelled parse id (some up) down rest h = (pair_status-IsLevelled parse id up down, h)

statuses-IsLevelled : (parse : Parser) (ps : List Pair) → All IsLevelled (pair_statuses parse ps)
unfolding pair_statuses
statuses-IsLevelled parse [] = tt
statuses-IsLevelled parse (p ∷ ps) =
    with-IsLevelled parse p.id p.up p.down (pair_statuses parse ps) (statuses-IsLevelled parse ps)

-- Under a live context and with any parser, `ValidateDownMigrations` returns statuses, and in each of
-- them a down migration that parses exists, one that is symmetric parses, and a note stands exactly
-- where it is not symmetric.
pub validate-IsLevelled :
    (parse : Parser) (ctx : Context) (files : List ChangedFile)
    → ctx 0 ≡ none
    → (statuses : List DownMigrationStatus) × (validate_down_migrations (some parse) ctx files
        ≡ ok statuses)
      × All IsLevelled statuses
unfolding validate_down_migrations
validate-IsLevelled parse ctx files live = (
  pair_statuses parse (pair_migrations files),
  rw (validate_down_migrations, live) refl,
  statuses-IsLevelled parse (pair_migrations files),
)
