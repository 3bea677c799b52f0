-- ===== src/Engine/Collect.antt =====
-- Running the analyzers (`New`, `run` and `catalogs` of internal/engine/engine.go).
use reversibility_engine.Prelude.Text.{Text, text, text_lt, join}
use reversibility_engine.Prelude.Sort.{sort_by, sort_strings}
use reversibility_engine.Prelude.Result.{ok, err}
use reversibility_engine.Prelude.{
  Bool, List, [], ◌∷◌, ◌++◌, Option, none, some, if◌then◌else◌, is_empty, any, map,
}
use reversibility_engine.Domain.Finding.{Finding, DownMigrationStatus}
use reversibility_engine.Domain.Located.{Locator, ChangedFile, location}
use reversibility_engine.Policy.Date.{Day}
use reversibility_engine.Policy.Apply.{Policy}
use reversibility_engine.Engine.Interfaces.{
  Run, returns, panics, Analyzer, Catalog, ProductionContext,
}

-- `Engine`, without its logger.
pub record Engine : Type 0 where
  pub analyzers : List Analyzer
  pub policy : Option Policy
  pub today : Day
  pub context : Option ProductionContext

-- `New`: the registry is ordered by name.
unfoldable pub new_engine : List Analyzer → Option Policy → Day → Option ProductionContext → Engine
unfolding sort_by text_lt
new_engine analyzers policy today context = record {
  analyzers = sort_by (λ a b. text_lt a.name b.name) analyzers;
  policy = policy;
  today = today;
  context = context;
}

-- `runConfig`.
pub record RunConfig : Type 0 where
  pub enumerated : List Text
  pub ignored_by_policy : List Text
  pub dead_ignores : List Text
  pub root : Text
  pub anchor : Text

-- `runConfig.anchoredPrefix`.
unfoldable pub anchored_prefix : RunConfig → Text
anchored_prefix c = if is_empty c.anchor then [] else c.root

-- `located`.
unfoldable pub located : List ChangedFile → Locator → List ChangedFile
located files locate = map (λ (f : ChangedFile). record f { at = locate f.path }) files

-- What `run` collects.
pub record Collected : Type 0 where
  pub findings : List Finding
  pub down : List DownMigrationStatus
  pub failures : List Text

-- The second half of a turn of the loop of `run`.
after_validate : Analyzer → Collected → Run (List DownMigrationStatus) → Run Collected
after_validate a c (panics why) = panics why
after_validate a c (returns (err e)) = returns (
    ok (record c {
      failures = c.failures ++ (a.name ++ (text " down-migration validation: " ++ e)) ∷ [];
    }))
after_validate a c (returns (ok statuses)) = returns (ok (record c { down = c.down ++ statuses }))

validate :
    Analyzer
    → List ChangedFile
    → Option (List ChangedFile → Run (List DownMigrationStatus))
    → Collected
    → Run Collected
unfolding after_validate
validate a files none c = returns (ok c)
validate a files (some v) c = after_validate a c (v files)

after_analyze : Analyzer → List ChangedFile → Collected → Run (List Finding) → Run Collected
unfolding validate
after_analyze a files c (panics why) = panics why
after_analyze a files c (returns (err e)) =
    returns (ok (record c { failures = c.failures ++ (a.name ++ (text ": " ++ e)) ∷ [] }))
after_analyze a files c (returns (ok got)) =
    validate a files a.validate_down_migrations (record c { findings = c.findings ++ got })

pub run_from : List Analyzer → List ChangedFile → Run Collected → Run Collected
unfolding after_analyze
run_from [] files c = c
run_from (a ∷ rest) files (panics why) = panics why
run_from (a ∷ rest) files (returns (err e)) = returns (err e)
run_from (a ∷ rest) files (returns (ok c)) =
    run_from rest files (after_analyze a files c (a.analyze files))

settle : Run Collected → Run Collected
unfolding sort_strings sort_by text_lt
settle (returns (ok c)) = returns (
    ok (record c {
      failures = sort_strings c.failures;
      down = sort_by (λ a b. text_lt a.migration b.migration) c.down;
    }))
settle other = other

-- `Engine.run`: a failing analyzer is recorded and stops no other.
unfoldable pub run_analyzers : List Analyzer → List ChangedFile → Run Collected
unfolding run_from settle
run_analyzers analyzers files =
    settle
      (run_from analyzers files (returns (ok (record { findings = []; down = []; failures = [] }))))

abbrev sees : Analyzer → List ChangedFile → Bool
sees a files = any files (λ f. a.supports (location f))

abbrev add_catalog : Option Catalog → Bool → List Catalog → List Catalog
add_catalog none claimed rest = rest
add_catalog (some c) claimed rest = if claimed then c ∷ rest else rest

applied_catalogs : List Analyzer → List ChangedFile → List Catalog
unfolding location
applied_catalogs [] files = []
applied_catalogs (a ∷ rest) files =
    add_catalog a.catalog (sees a files) (applied_catalogs rest files)

-- `Engine.catalogs`: the version and the digest.
unfoldable pub catalogs : List Analyzer → List ChangedFile → Text × Text
unfolding applied_catalogs join
catalogs analyzers files =
    let cs = applied_catalogs analyzers files in
    (join (text ",") (map (λ c. c.version) cs), join (text ",") (map (λ c. c.digest) cs))
