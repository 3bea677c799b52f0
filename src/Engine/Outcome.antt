-- ===== src/Engine/Outcome.antt =====
-- What a run was able to read at all (internal/engine/candidate.go, `Supports` of
-- internal/engine/engine.go).
pub mod Unread
use reversibility_engine.Prelude.Text.{Text, text_eq}
use reversibility_engine.Prelude.Sort.{sort_strings}
use reversibility_engine.Prelude.{
  Bool, not, ◌&&◌, ◌||◌, List, [], if◌then◌else◌, is_empty, any, keep, map,
}
use reversibility_engine.Domain.Grade.{
  AnalysisOutcome, analyzed, no_candidates, unsupported_content,
}
use reversibility_engine.Domain.Located.{Located, Locator, parent, ChangedFile, location}
use reversibility_engine.Engine.Candidate.{contains, in_migration_dir, candidate}
use reversibility_engine.Engine.Interfaces.{Analyzer}

-- `Engine.Supports`.
unfoldable pub supports : List Analyzer → Located → Bool
supports analyzers at = any analyzers (λ a. a.supports at)

-- `migrationDirectories`: the directories, as a list of their paths.
unfoldable pub migration_directories : List Analyzer → List Text → Locator → List Text
unfolding supports in_migration_dir parent
migration_directories analyzers enumerated locate =
    map (λ p. (parent (locate p)).path)
      (keep (λ p. supports analyzers (locate p) || in_migration_dir (locate p)) enumerated)

-- Whether `claimed` is set.
unfoldable pub claims : List Analyzer → List ChangedFile → Bool
unfolding supports location
claims analyzers files = any files (λ f. supports analyzers (location f))

-- `read[p]`.
unfoldable pub is_read : List ChangedFile → Text → Bool
unfolding text_eq
is_read files p = any files (λ f. text_eq p f.path)

-- The tests of the loop over the enumeration: the path is neither read by an analyzer nor plainly
-- no migration.
unfoldable pub is_unread : List Analyzer → List ChangedFile → List Text → Locator → Text → Bool
unfolding is_read supports migration_directories contains candidate parent
is_unread analyzers files enumerated locate p =
    not (is_read files p && supports analyzers (locate p))
    && (contains (migration_directories analyzers enumerated locate) (parent (locate p)).path
        || candidate (locate p))

-- `Engine.outcome`.
unfoldable pub outcome :
    List Analyzer → List ChangedFile → List Text → Locator → AnalysisOutcome × List Text
unfolding is_unread claims sort_strings
outcome analyzers files enumerated locate =
    let unsupported =
      sort_strings (keep (is_unread analyzers files enumerated locate) enumerated) in
    if claims analyzers files
    then (analyzed, unsupported)
    else (if not (is_empty unsupported)
        then (unsupported_content, unsupported)
        else (no_candidates, []))
