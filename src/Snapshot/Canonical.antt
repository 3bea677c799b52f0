-- ===== src/Snapshot/Canonical.antt =====
-- A snapshot file: its checks and its canonical order (`Validate`, `Canonicalize`,
-- internal/snapshot/snapshot.go).
use reversibility_engine.Prelude.Sort.{sort_by}
use reversibility_engine.Prelude.Format.{format}
use reversibility_engine.Prelude.Int.{ℤ}
use reversibility_engine.Prelude.Text.{Text, text, text_eq, text_lt}
use reversibility_engine.Prelude.{
  Bool, true, false, not, ◌||◌, Option, none, some, [], ◌∷◌, is_empty, if◌then◌else◌,
}
use reversibility_engine.Snapshot.Lookup.{
  Table, Index, Column, StorageClass, Claim, Workload, PostgresData, KubernetesData,
}

-- A point of time: nanoseconds since 1970 in UTC, and the day that it prints.
pub record Moment : Type 0 where
  pub unix_nano : ℤ
  pub day : Text

-- `Snapshot`. A zero time is `none`; the kind is a string.
pub record Snapshot (F : Type 0) : Type 0 where
  pub schema_version : Text
  pub kind : Text
  pub environment : Text
  pub collected_at : Option Moment
  pub source_fingerprint : Text
  pub postgres : Option (PostgresData F)
  pub kubernetes : Option KubernetesData

-- `SchemaVersion`.
unfoldable pub snapshot_version : Text
unfolding text
snapshot_version = text "1.0.0"

-- `k.Valid()`.
unfoldable pub kind_is_valid : Text → Bool
unfolding text_eq text
kind_is_valid k = text_eq k (text "postgres") || text_eq k (text "kubernetes")

is_nil {ℓ} : {A : Type ℓ} → Option A → Bool
is_nil none = true
is_nil (some a) = false

-- `less2`.
unfoldable pub less_2 : Text → Text → Text → Text → Bool
unfolding text_eq text_lt
less_2 a1 a2 b1 b2 = if not (text_eq a1 b1) then text_lt a1 b1 else text_lt a2 b2

-- `less3`.
unfoldable pub less_3 : Text → Text → Text → Text → Text → Text → Bool
unfolding text_eq text_lt
less_3 a1 a2 a3 b1 b2 b3 =
    if not (text_eq a1 b1)
    then text_lt a1 b1
    else (if not (text_eq a2 b2) then text_lt a2 b2 else text_lt a3 b3)

-- The storage classes, claims and workloads in order.
unfoldable pub canonical_kubernetes : KubernetesData → KubernetesData
unfolding sort_by less_2 less_3 text_lt
canonical_kubernetes d = record {
  storage_classes = sort_by (λ (a b : StorageClass). text_lt a.name b.name) d.storage_classes;
  claims = sort_by (λ (a b : Claim). less_2 a.namespace a.name b.namespace b.name) d.claims;
  workloads =
      sort_by (λ (a b : Workload). less_3 a.namespace a.kind a.name b.namespace b.kind b.name)
        d.workloads;
}

module _ {F : Type 0} where
  -- The data of the kind is there.
  unfoldable pub data_error : Snapshot F → Option Text
  unfolding text_eq format text is_nil
  data_error s =
      if text_eq s.kind (text "postgres")
      then (if is_nil s.postgres
          then some
              (format (text "kind is %q but no postgres data is present") (text "postgres" ∷ []))
          else none)
      else (if is_nil s.kubernetes
          then some (
              format (text "kind is %q but no kubernetes data is present") (text "kubernetes" ∷ []))
          else none)

  -- The checks, in order.
  unfoldable pub validate_snapshot : Snapshot F → Option Text
  unfolding text_eq format kind_is_valid snapshot_version data_error is_nil text
  validate_snapshot s =
      if not (text_eq s.schema_version snapshot_version)
      then some (
          format (text "schema version %q is not supported; this build reads %q")
            (s.schema_version ∷ snapshot_version ∷ []))
      else (if not (kind_is_valid s.kind)
          then some (
              format (text "kind %q is not a snapshot kind; want %q or %q")
                (s.kind ∷ text "postgres" ∷ text "kubernetes" ∷ []))
          else (if is_empty s.source_fingerprint
              then some (
                  text
                    "sourceFingerprint is empty, so this snapshot cannot be attributed to any source")
              else (if is_nil s.collected_at
                  then some (text "collectedAt is unset, so the snapshot's age cannot be judged")
                  else data_error s)))

  -- `Validate`: the error, if any. A nil snapshot is an error.
  unfoldable pub validate : Option (Snapshot F) → Option Text
  unfolding validate_snapshot text
  validate none = some (text "snapshot is nil")
  validate (some s) = validate_snapshot s

  -- The tables, indexes and columns in order.
  unfoldable pub canonical_postgres : PostgresData F → PostgresData F
  unfolding sort_by less_2 less_3
  canonical_postgres d = record {
    tables = sort_by (λ (a b : Table). less_2 a.schema a.name b.schema b.name) d.tables;
    indexes =
        sort_by (λ (a b : Index). less_3 a.schema a.table a.name b.schema b.table b.name) d.indexes;
    columns =
        sort_by (λ (a b : Column F). less_3 a.schema a.table a.name b.schema b.table b.name)
          d.columns;
  }

  -- `Canonicalize`.
  unfoldable pub canonicalize : Snapshot F → Snapshot F
  unfolding canonical_postgres canonical_kubernetes
  canonicalize s = record s {
    postgres = elim s.postgres [ none ↦ none | some d ↦ some (canonical_postgres d) ];
    kubernetes = elim s.kubernetes [ none ↦ none | some d ↦ some (canonical_kubernetes d) ];
  }
