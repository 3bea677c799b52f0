-- ===== src/Engine/Interfaces.antt =====
-- What the engine is given: its analyzers (internal/analyzer/analyzer.go), and the production
-- context (the `*snapshot.Set` that internal/engine/engine.go enriches findings with).
use reversibility_engine.Prelude.Text.{Text}
use reversibility_engine.Prelude.Result.{Result}
use reversibility_engine.Prelude.{Bool, List, Option}
use reversibility_engine.Domain.Finding.{Finding, DownMigrationStatus}
use reversibility_engine.Domain.Located.{Located, ChangedFile}

-- A call that may panic.
pub data Run (A : Type 0) : Type 0 where
  returns : Result A → Run A
  panics : Text → Run A

-- `CatalogVersioner`: the identity of the catalog of an analyzer.
pub record Catalog : Type 0 where
  pub version : Text
  pub digest : Text

-- `Analyzer`, with its optional capabilities `DownMigrationValidator` and `CatalogVersioner`.
pub record Analyzer : Type 0 where
  pub name : Text
  pub supports : Located → Bool
  pub analyze : List ChangedFile → Run (List Finding)
  pub validate_down_migrations : Option (List ChangedFile → Run (List DownMigrationStatus))
  pub catalog : Option Catalog

-- `snapshot.Set`, as the engine uses it.
pub record ProductionContext : Type 0 where
  pub digest : Text
  pub warnings : List Text
  pub enrich : List Finding → List Finding
