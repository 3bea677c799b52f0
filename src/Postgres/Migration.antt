-- ===== src/Postgres/Migration.antt =====
-- The role of a file, and the pairs of up and down migrations
-- (internal/analyzer/postgres/migration.go).
use reversibility_engine.Prelude.Sort.{sort_by}
use reversibility_engine.Prelude.Words.{take}
use reversibility_engine.Prelude.Text.{Text, text, text_eq, text_lt, to_lower}
use reversibility_engine.Prelude.{
  ◌-◌, Bool, true, false, not, ◌&&◌, ◌||◌, Option, none, some, List, [], ◌∷◌, length, if◌then◌else◌,
}
use reversibility_engine.Paths.{base, dir, has_suffix}
use reversibility_engine.Domain.Located.{ChangedFile}

abbrev up_suffix : Text
up_suffix = text ".up.sql"

abbrev down_suffix : Text
down_suffix = text ".down.sql"

abbrev up_base : Text
up_base = text "up.sql"

abbrev down_base : Text
down_base = text "down.sql"

-- What `classifyPath` returns.
pub record Role : Type 0 where
  pub id : Text
  pub is_down : Bool
  pub is_migration : Bool

role : Text → Bool → Role
role id down = record { id = id; is_down = down; is_migration = true }

-- The name without a suffix that it has, whatever its letters' case.
abbrev without : Text → Text → Text
without b suffix = take (length b - length suffix) b

-- `classifyPath`: every `.sql` file that is no down migration is an up migration.
unfoldable pub classify_path : Text → Role
unfolding base dir to_lower has_suffix text_eq text role take
classify_path p =
    let b = base p in
    let l = to_lower b in
    if has_suffix l down_suffix
    then role (without b down_suffix) true
    else (if has_suffix l up_suffix
        then role (without b up_suffix) false
        else (if text_eq l down_base
            then role (base (dir p)) true
            else (if text_eq l up_base
                then role (base (dir p)) false
                else (if has_suffix l (text ".sql")
                    then role (without b (text ".sql")) false
                    else record { id = []; is_down = false; is_migration = false }))))

-- `migrationPair`, with the directory of its key.
pub record Pair : Type 0 where
  pub folder : Text
  pub id : Text
  pub up : Option ChangedFile
  pub down : Option ChangedFile

-- The directory of the key: above the migration's own in the directory layout.
unfoldable pub key_folder : Text → Text
unfolding base dir to_lower text_eq text
key_folder p =
    let l = to_lower (base p) in
    if text_eq l up_base || text_eq l down_base then dir (dir p) else dir p

-- The half that a file is, written over an earlier one.
unfoldable pub fill : Pair → Bool → ChangedFile → Pair
fill p is_down f = if is_down then record p { down = some f } else record p { up = some f }

-- The pair of the key, entered behind the others where it is new.
unfoldable pub enter : Text → Text → Bool → ChangedFile → List Pair → List Pair
unfolding fill text_eq
enter folder id is_down f [] =
    fill (record { folder = folder; id = id; up = none; down = none }) is_down f ∷ []
enter folder id is_down f (p ∷ ps) =
    let rest = enter folder id is_down f ps in
    if text_eq folder p.folder && text_eq id p.id then fill p is_down f ∷ ps else p ∷ rest

-- The loop of `pairMigrations`.
unfoldable pub collect_pairs : List ChangedFile → List Pair → List Pair
unfolding classify_path enter key_folder
collect_pairs [] pairs = pairs
collect_pairs (f ∷ fs) pairs =
    let r = classify_path f.path in
    let entered = collect_pairs fs (enter (key_folder f.path) r.id r.is_down f pairs) in
    let skipped = collect_pairs fs pairs in if r.is_migration then entered else skipped

-- The order of the pairs: by directory, then by identity.
unfoldable pub pair_less : Pair → Pair → Bool
unfolding text_eq text_lt
pair_less p q =
    if not (text_eq p.folder q.folder) then text_lt p.folder q.folder else text_lt p.id q.id

-- `pairMigrations`.
unfoldable pub pair_migrations : List ChangedFile → List Pair
unfolding collect_pairs sort_by pair_less
pair_migrations files = sort_by pair_less (collect_pairs files [])
