-- ===== src/Postgres/Plug.antt =====
-- The PostgreSQL analyzer as the engine's registry holds it (`Name`, `NewWithParser`,
-- internal/analyzer/postgres/postgres.go).
use reversibility_engine.Prelude.Text.{text}
use reversibility_engine.Prelude.{Option, none, some}
use reversibility_engine.Engine.Interfaces.{Analyzer, returns}
use reversibility_engine.Postgres.Analyze.{Parser, Context, postgres_supports, postgres_analyze}
use reversibility_engine.Postgres.Down.{validate_down_migrations}

-- The analyzer of a parser, each of its two calls under its own context. It has no catalog.
unfoldable pub postgres_analyzer : Option Parser → Context → Context → Analyzer
unfolding postgres_supports postgres_analyze validate_down_migrations text
postgres_analyzer parser ctx ctx' = record {
  name = text "postgres";
  supports = postgres_supports;
  analyze = λ files. returns (postgres_analyze parser ctx files);
  validate_down_migrations = some (λ files. returns (validate_down_migrations parser ctx' files));
  catalog = none;
}
