-- ===== src/Snapshot/Load.antt =====
-- Merging snapshot files into one context (internal/snapshot/load.go). Reading a file and decoding
-- JSON are parameters, as is SHA-256 in hex.
use reversibility_engine.Prelude.Assoc.{lookup, put}
use reversibility_engine.Prelude.Result.{Result, ok, err}
use reversibility_engine.Prelude.Format.{format}
use reversibility_engine.Prelude.Words.{take}
use reversibility_engine.Prelude.Text.{Text, text, text_eq}
use reversibility_engine.Prelude.Int.{ℤ, pos, negsuc, pos_part, neg_part, ltb_ℤ}
use reversibility_engine.Prelude.{
  ℕ, ◌+◌, ◌-◌, ◌/◌, ◌%◌, ◌^◌, Bool, Option, none, some, List, [], ◌∷◌, ◌++◌, is_empty, not, false,
  if◌then◌else◌,
}
use reversibility_engine.Engine.Digest.{big_endian, write_field}
use reversibility_engine.Postgres.Statement.{signed_decimal}
use reversibility_engine.Snapshot.Float.{Floats, minus}
use reversibility_engine.Snapshot.Lookup.{
  Table, Index, Column, StorageClass, Claim, Workload, PostgresData, KubernetesData, qualify,
}
use reversibility_engine.Snapshot.Canonical.{Snapshot, Moment}

-- `source`.
pub record Source : Type 0 where
  pub fingerprint : Text
  pub environment : Text

-- `short`.
unfoldable pub short : Text → Text
unfolding take
short s = take 12 s

-- `source.describe`.
unfoldable pub describe : Source → Text
unfolding format short text
describe s =
    if is_empty s.environment
    then format (text "fingerprint %s") (short s.fingerprint ∷ [])
    else format (text "%q, fingerprint %s") (s.environment ∷ short s.fingerprint ∷ [])

-- `Set`, with what the engine and the certificate read of it.
pub record Loaded (F : Type 0) : Type 0 where
  pub postgres : Option (PostgresData F)
  pub kubernetes : Option KubernetesData
  pub warnings : List Text
  pub digest : Text
  pub sources : List (Text × Source)

-- `writeInt`: the bits of the `int64`.
unfoldable pub write_int : ℤ → List ℕ
unfolding big_endian
write_int (pos n) = big_endian 8 (n % 2 ^ 64)
write_int (negsuc n) = big_endian 8 (2 ^ 64 - 1 - n % 2 ^ 64)

-- What the elements write, one after the other.
unfoldable pub write_all : {A : Type 0} → (A → List ℕ) → List A → List ℕ
write_all write [] = []
write_all write (a ∷ rest) = write a ++ write_all write rest

unfoldable pub invalid_context : Text
unfolding text
invalid_context = text "domain: invalid production context"

-- `opts.StaleAfter` where it is not set: seven days, in nanoseconds.
abbrev pub default_stale_after : ℕ
default_stale_after = 604800000000000

abbrev hour : ℕ
hour = 3600000000000

-- `Age`: `now.Sub(collected)`, which stops at the bounds of an `int64`.
unfoldable pub age : Moment → Moment → ℤ
unfolding minus
age collected now =
    let d =
      minus (pos_part now.unix_nano + neg_part collected.unix_nano)
        (pos_part collected.unix_nano + neg_part now.unix_nano) in
    if ltb_ℤ (pos (2 ^ 63 - 1)) d
    then pos (2 ^ 63 - 1)
    else (if ltb_ℤ d (negsuc (2 ^ 63 - 1)) then negsuc (2 ^ 63 - 1) else d)

unfoldable pub tables_before : {F : Type 0} → Option (PostgresData F) → PostgresData F
tables_before none = record { tables = []; indexes = []; columns = [] }
tables_before (some d) = d

unfoldable pub claims_before : Option KubernetesData → KubernetesData
claims_before none = record { storage_classes = []; claims = []; workloads = [] }
claims_before (some d) = d

module _ {F : Type 0} (fl : Floats F) where
  -- `age.Hours() / 24`, as an `int`.
  days : ℕ → ℤ
  days age = fl.to_int (
      fl.divide
        (fl.plus (fl.of_int (pos (age / hour)))
          (fl.divide (fl.of_int (pos (age % hour))) (fl.of_int (pos hour))))
        (fl.of_int (pos 24)))

  unfoldable stale_note : Text → Moment → ℤ → Text
  unfolding format days signed_decimal text
  stale_note kind collected a =
      format
        (text
          "the %s snapshot is %s days old (collected %s); its numbers describe a system that has since moved on")
        (kind ∷ signed_decimal (days (pos_part a)) ∷ collected.day ∷ [])

  unfoldable staleness : Text → Option Moment → Moment → ℕ → List Text
  unfolding age stale_note
  staleness kind none now stale_after = []
  staleness kind (some collected) now stale_after =
      let a = age collected now in
      if ltb_ℤ (pos stale_after) a then stale_note kind collected a ∷ [] else []

  unfoldable merged_postgres :
      Option (PostgresData F) → Option (PostgresData F) → Option (PostgresData F)
  unfolding tables_before
  merged_postgres old none = old
  merged_postgres old (some d) = some (record {
    tables = (tables_before old).tables ++ d.tables;
    indexes = (tables_before old).indexes ++ d.indexes;
    columns = (tables_before old).columns ++ d.columns;
  })

  unfoldable merged_kubernetes :
      Option KubernetesData → Option KubernetesData → Option KubernetesData
  unfolding claims_before
  merged_kubernetes old none = old
  merged_kubernetes old (some d) = some (record {
    storage_classes = (claims_before old).storage_classes ++ d.storage_classes;
    claims = (claims_before old).claims ++ d.claims;
    workloads = (claims_before old).workloads ++ d.workloads;
  })

  is_other_source : Option Source → Source → Bool
  unfolding text_eq
  is_other_source none current = false
  is_other_source (some previous) current = not (text_eq previous.fingerprint current.fingerprint)

  previous_text : Option Source → Text
  unfolding describe
  previous_text none = []
  previous_text (some previous) = describe previous

  -- `s.merge`, of a snapshot that is valid: its data of its kind is there.
  unfoldable pub merge : Loaded F → Snapshot F → Text → Moment → ℕ → Result (Loaded F)
  unfolding lookup put text_eq format describe is_other_source previous_text staleness
      merged_postgres merged_kubernetes invalid_context text
  merge s snap path now stale_after =
      let current : Source = record {
        fingerprint = snap.source_fingerprint;
        environment = snap.environment;
      } in
      let previous = lookup snap.kind s.sources in
      let why : Text =
        format
          (text
            "%s: %s is a %s snapshot of a different source than the one already loaded (%s; expected %s); snapshots of two environments cannot be merged")
          (invalid_context ∷ path ∷ snap.kind ∷ describe current ∷ previous_text previous ∷ []) in
      let noted : Loaded F = record s {
        sources = put snap.kind current s.sources;
        warnings = s.warnings ++ staleness snap.kind snap.collected_at now stale_after;
      } in
      let added : Loaded F =
        if text_eq snap.kind (text "postgres")
        then record noted { postgres = merged_postgres s.postgres snap.postgres }
        else (if text_eq snap.kind (text "kubernetes")
            then record noted { kubernetes = merged_kubernetes s.kubernetes snap.kubernetes }
            else noted) in
      if is_other_source previous current then err why else ok added

  unfoldable postgres_bytes : Option (PostgresData F) → List ℕ
  unfolding write_field write_int write_all qualify text
  postgres_bytes none = []
  postgres_bytes (some d) =
      write_field (text "postgres")
      ++ (write_all
            (λ (t : Table).
              write_field (qualify t.schema t.name)
              ++ (write_int t.row_estimate
                  ++ (write_int t.size_bytes ++ write_int t.total_size_bytes)))
            d.tables
          ++ (write_all
                (λ (i : Index).
                  write_field (qualify i.schema i.name)
                  ++ (write_field i.table ++ (write_int i.size_bytes ++ write_int i.scans)))
                d.indexes
              ++ write_all
                  (λ (c : Column F).
                    write_field (qualify c.schema c.table)
                    ++ (write_field c.name
                        ++ (write_field (fl.general c.null_fraction) ++ write_int c.average_width)))
                  d.columns))

  unfoldable kubernetes_bytes : Option KubernetesData → List ℕ
  unfolding write_field write_int write_all text
  kubernetes_bytes none = []
  kubernetes_bytes (some d) =
      write_field (text "kubernetes")
      ++ (write_all (λ (c : StorageClass). write_field c.name ++ write_field c.reclaim_policy)
            d.storage_classes
          ++ (write_all
                (λ (c : Claim).
                  write_field c.namespace
                  ++ (write_field c.name
                      ++ (write_field c.phase
                          ++ (write_field c.storage_class ++ write_field c.capacity))))
                d.claims
              ++ write_all
                  (λ (w : Workload).
                    write_field w.namespace
                    ++ (write_field w.kind ++ (write_field w.name ++ write_int w.replicas)))
                  d.workloads))

  -- The bytes that `s.digest` hashes.
  unfoldable pub set_bytes : Loaded F → List ℕ
  unfolding postgres_bytes kubernetes_bytes
  set_bytes s = postgres_bytes s.postgres ++ kubernetes_bytes s.kubernetes
