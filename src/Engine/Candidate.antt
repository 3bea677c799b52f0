-- ===== src/Engine/Candidate.antt =====
-- Which unread files plausibly are migrations (internal/engine/candidate.go).
use reversibility_engine.Prelude.Text.{Text, text, text_eq, to_lower}
use reversibility_engine.Prelude.{
  Bool, true, false, not, List, [], ◌∷◌, ◌++◌, if◌then◌else◌, is_empty, any, map,
}
use reversibility_engine.Paths.{has_suffix}
use reversibility_engine.Domain.Certificate.{UnanalyzedFile}
use reversibility_engine.Domain.Located.{Located, Locator, parent, extension, segments}

-- Whether the list holds the text.
unfoldable pub contains : List Text → Text → Bool
unfolding text_eq
contains xs s = any xs (text_eq s)

-- `migrationDirs`.
abbrev pub migration_dirs : List Text
migration_dirs = text "migrations" ∷ text "migration" ∷ text "migrate" ∷ []

-- `candidateExtensions`.
abbrev pub candidate_extensions : List Text
candidate_extensions = text ".py" ∷ text ".rb" ∷ text ".js" ∷ text ".ts" ∷ []

-- `InMigrationDir`: a directory named for migrations stands above the file.
unfoldable pub in_migration_dir : Located → Bool
unfolding contains parent segments
in_migration_dir at = any (segments (parent at)) (contains migration_dirs)

-- `classifyCandidate`: the answer and the reason.
unfoldable pub classify_candidate : Located → Bool × Text
unfolding in_migration_dir extension has_suffix to_lower
classify_candidate at =
    if has_suffix (to_lower at.path) (text ".sql")
    then (true, text "no analyzer claimed this .sql file")
    else (if not (contains candidate_extensions (extension at))
        then (if in_migration_dir at
            then (false, text "not analyzed, and it sits in a migration directory")
            else (false, []))
        else (if in_migration_dir at
            then (true, text "no analyzer reads " ++ (extension at ++ text " migrations"))
            else (false, [])))

-- `Candidate`.
unfoldable pub candidate : Located → Bool
unfolding classify_candidate
candidate at = (classify_candidate at).0

-- One turn of the loop of `unanalyzedFiles`.
unfoldable pub unanalyzed_file : Locator → Text → UnanalyzedFile
unfolding classify_candidate
unanalyzed_file locate p =
    let reason = (classify_candidate (locate p)).1 in
    record {
      path = p;
      reason =
          if is_empty reason
          then text "not analyzed, and it sits in a migration directory"
          else reason;
    }

-- `unanalyzedFiles`: the reason is read from where the file sits, the path is the caller's.
unfoldable pub unanalyzed_files : List Text → Locator → List UnanalyzedFile
unfolding unanalyzed_file
unanalyzed_files paths locate = map (unanalyzed_file locate) paths
