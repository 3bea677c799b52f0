-- ===== src/Engine/Remedy.antt =====
-- The refusals for files that no analyzer read, and the way forward (internal/engine/candidate.go).
use mathlib.Core.List.{foldl}
use reversibility_engine.Prelude.Text.{Text, text, text_eq, text_lt, to_lower, decimal, join}
use reversibility_engine.Prelude.Sort.{sort_by, sort_strings}
use reversibility_engine.Prelude.{
  ℕ, ◌+◌, ◌||◌, List, [], ◌∷◌, ◌++◌, ◌==◌, if◌then◌else◌, is_empty, map,
}
use reversibility_engine.Paths.{ext, dir, forward_slashes}
use reversibility_engine.Engine.Candidate.{contains, candidate_extensions}

-- `PartialCoverageBlocker`.
unfoldable pub partial_coverage_blocker : Text
partial_coverage_blocker =
    text
      "Cannot guarantee reversibility. Unanalyzed files found in migration directories. Remove them or explicitly ignore them in the config."

-- `RenderToSQL`.
unfoldable pub render_to_sql : Text
render_to_sql = text "Render these migrations to SQL and point the engine at the output."

-- `renderingRemedies`, as the lines that an extension adds.
unfoldable pub rendering_remedies : Text → List Text
unfolding text_eq
rendering_remedies e =
    if text_eq e (text ".py")
    then text
        "Django: `python manage.py sqlmigrate <app> <name> > rendered/<name>.sql`. Alembic: `alembic upgrade <rev> --sql > rendered/<rev>.sql`."
      ∷ []
    else (if text_eq e (text ".rb")
        then text
            "Rails: set `config.active_record.schema_format = :sql`, run `bin/rails db:migrate`, and point the engine at `db/structure.sql`."
          ∷ []
        else [])

-- `set[s] = true` on a set that is later sorted.
abbrev add_unique : List Text → Text → List Text
add_unique xs s = if contains xs s then xs else xs ++ s ∷ []

-- The extension of a path as the caller named it.
unfoldable pub named_extension : Text → Text
unfolding ext forward_slashes to_lower
named_extension p = to_lower (ext (forward_slashes p))

-- One turn of the first loop of `RenderingRemedy`.
see_extension : List Text → Text → List Text
unfolding named_extension contains
see_extension seen p =
    let e = named_extension p in if contains candidate_extensions e then add_unique seen e else seen

remedy_lines : List Text → List Text
unfolding rendering_remedies
remedy_lines [] = []
remedy_lines (e ∷ es) = rendering_remedies e ++ remedy_lines es

-- `RenderingRemedy`.
unfoldable pub rendering_remedy : List Text → List Text
unfolding see_extension remedy_lines sort_strings render_to_sql
rendering_remedy paths =
    let seen = foldl see_extension [] paths in
    if is_empty seen then [] else render_to_sql ∷ remedy_lines (sort_strings seen)

-- A group of unread files: how many there are in a directory, and their extensions.
record Group : Type 0 where
  at : Text
  count : ℕ
  exts : List Text

abbrev see_ext : Text → List Text → List Text
see_ext e exts = if is_empty e then exts else add_unique exts e

-- `groups[dir]`, made where it is missing.
add_to_group : Text → Text → List Group → List Group
unfolding text_eq contains
add_to_group d e [] = record { at = d; count = 1; exts = see_ext e [] } ∷ []
add_to_group d e (g ∷ gs) =
    let rest = add_to_group d e gs in
    if text_eq g.at d
    then record g { count = g.count + 1; exts = see_ext e g.exts } ∷ gs
    else g ∷ rest

group_dir : Text → Text
unfolding dir forward_slashes text_eq
group_dir p =
    let d = dir (forward_slashes p) in
    if text_eq d (text ".") || text_eq d (text "/") then text "the changeset root" else d

group_step : List Group → Text → List Group
unfolding group_dir add_to_group named_extension
group_step gs p = add_to_group (group_dir p) (named_extension p) gs

-- `plural`.
unfoldable pub plural : ℕ → Text → Text
unfolding decimal
plural n noun = if n == 1 then text "1 " ++ noun else decimal n ++ (text " " ++ (noun ++ text "s"))

group_line : Group → Text
unfolding plural sort_strings join
group_line g =
    text "found "
    ++ (plural g.count (text "file")
        ++ (text " in "
            ++ (g.at
                ++ (text " that no analyzer supports ("
                    ++ (join (text ", ") (sort_strings g.exts)
                        ++ text " migrations). Reversibility was not assessed.")))))

-- `unsupportedContentBlockers`: a line for each directory, sorted, then the way forward.
unfoldable pub unsupported_content_blockers : List Text → List Text
unfolding group_step group_line rendering_remedy sort_by text_lt
unsupported_content_blockers paths =
    map group_line (sort_by (λ a b. text_lt a.at b.at) (foldl group_step [] paths))
    ++ rendering_remedy paths
