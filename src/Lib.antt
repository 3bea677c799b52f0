-- ===== src/Lib.antt =====
-- The reversibility engine: it reads a changeset of migrations, classifies every change by how it
-- can be undone, grades the whole from A to F, and decides whether an agent may merge it.
--
-- The parts, from the bottom up, with the files that model them (paths from the root of the
-- repository):
--   Domain: internal/domain. Verdict.antt and Grade.antt are classification.go (verdicts, lock
--     hazards, grades, the merge gate, coverage, outcomes), Finding.antt is finding.go,
--     Located.antt is located.go and change.go, Certificate.antt is certificate.go. A Go string
--     type with named constants is a data type with a constructor `other` for any other string.
--   Policy: internal/policy. Match.antt is match.go, over `path.Match` in Glob.antt; Ignore.antt,
--     Date.antt and Apply.antt are policy.go, and Load.antt is load.go on a decoded file. A nil
--     policy is `none`; times are calendar days.
--   Engine: internal/engine. Candidate.antt, Remedy.antt and Outcome.antt are candidate.go,
--     Score.antt is scorer.go, Undo.antt is undo.go, Digest.antt is digest.go, Interfaces.antt is
--     internal/analyzer/analyzer.go, and Collect.antt, Broken.antt and Certify.antt are
--     engine.go.
--   Postgres: internal/analyzer/postgres, above its interface SQLParser. Statement.antt is
--     parser/parser.go, Complexity.antt is parser/complexity.go, Classification.antt and Rules.antt with its children are rules.go (one
--     definition for each row of the table), Schema.antt and Width.antt are schema.go,
--     Migration.antt is migration.go, Down.antt is down.go, Analyze.antt and Plug.antt are
--     postgres.go, Normal.antt is NormalizeStatement of internal/analyzer/analyzer.go, and
--     Table.antt is the table of docs/RULES.md. The other files there hold proofs.
--   Snapshot: internal/snapshot. Lookup.antt and Canonical.antt are snapshot.go and the lookups of
--     enrich.go, Estimate.antt is estimate.go, Enrich.antt and Apply.antt are the rest of
--     enrich.go, Load.antt and Files.antt are load.go. Float.antt has what they use of `float64`, as a parameter `Floats`, and the
--     wrap-around of `int64`.
--   Cli: internal/delivery/cli. Cli.antt is the gate of check.go and the exit codes of cli.go.
--   Paths.antt and Glob.antt write out the functions of Go's `path` and `strings` packages that
--     these files call; Examples runs the theorems on small inputs; Prelude has the types, tests
--     and lemmas that the parts share.
--
-- How they interact: `certify` stamps the files with their locations, digests them, runs the
-- analyzers (`run_analyzers`), enriches the findings from the production context, applies the
-- policy (`apply`: overrides harden, waivers set aside), asks what could be read at all
-- (`outcome`), scores all the findings and again those that no waiver covers (`score`), and
-- assembles the certificate. An analyzer is a record of functions whose calls return, fail or
-- panic (`Run`); a panic ends the run as the deferred recover of `Certify` does. `apply_gate`
-- turns the certificate into an exit code. SHA-256 is a parameter `hash`. Text is a list of code
-- points; where the code counts or writes the bytes of a text (the digests) or changes its case,
-- the model is that code on ASCII.
--
-- Loops are structural recursion on lists. Fuel stands in three places: a glob is read with its length
-- as fuel, of which each item takes one and at least one character, a numeral `n` is printed with
-- `n + 1`, and the guard on the structure of a text takes one more than the text has characters. Line numbers and counts are native numbers, ranks are integers.
--
-- The PostgreSQL analyzer is given its parser as a function from a text to statements or an error,
-- and its context as what each reading of `ctx.Err()` gives. The tracked schema is an association
-- list of association lists; `Sprintf` is `format`, for the verbs that the messages use.
--
-- Not modelled: the parser of SQL (generated code behind an interface), the analyzers of Terraform
-- plans and Kubernetes manifests (they work on documents decoded by third-party libraries), the YAML
-- decoder, the collection of production snapshots, the providers, the renderers, the HTTP front end, the other
-- commands and the logger.
pub mod Prelude
pub mod Paths
pub mod Glob
pub mod Domain
pub mod Policy
pub mod Postgres
pub mod Snapshot
pub mod Engine
pub mod Cli
pub mod Examples
