-- ===== src/Snapshot/Lookup.antt =====
-- The data of a snapshot (internal/snapshot/snapshot.go) and its lookups
-- (internal/snapshot/enrich.go), which say no to an ambiguous match.
use reversibility_engine.Prelude.Text.{Text, text, text_eq, to_lower, trim_space}
use reversibility_engine.Prelude.Int.{ℤ}
use reversibility_engine.Prelude.{
  ℕ, Bool, false, ◌&&◌, ◌||◌, Option, none, some, List, [], ◌∷◌, ◌++◌, is_empty, suc, ◌==◌,
  if◌then◌else◌,
}

pub record Table : Type 0 where
  pub schema : Text
  pub name : Text
  pub row_estimate : ℤ
  pub size_bytes : ℤ
  pub total_size_bytes : ℤ

-- The time of the reset stands as the date that it prints.
pub record Index : Type 0 where
  pub schema : Text
  pub table : Text
  pub name : Text
  pub size_bytes : ℤ
  pub scans : ℤ
  pub stats_reset_at : Option Text

pub record Column (F : Type 0) : Type 0 where
  pub schema : Text
  pub table : Text
  pub name : Text
  pub null_fraction : F
  pub average_width : ℤ

pub record PostgresData (F : Type 0) : Type 0 where
  pub tables : List Table
  pub indexes : List Index
  pub columns : List (Column F)

pub record StorageClass : Type 0 where
  pub name : Text
  pub reclaim_policy : Text

pub record Claim : Type 0 where
  pub namespace : Text
  pub name : Text
  pub phase : Text
  pub storage_class : Text
  pub capacity : Text

pub record Workload : Type 0 where
  pub namespace : Text
  pub kind : Text
  pub name : Text
  pub replicas : ℤ

pub record KubernetesData : Type 0 where
  pub storage_classes : List StorageClass
  pub claims : List Claim
  pub workloads : List Workload

-- `Set`, as far as enrichment reads it.
pub record Set (F : Type 0) : Type 0 where
  pub postgres : Option (PostgresData F)
  pub kubernetes : Option KubernetesData

-- `strings.EqualFold` on ASCII.
unfoldable pub equal_fold : Text → Text → Bool
unfolding text_eq to_lower
equal_fold a b = text_eq (to_lower a) (to_lower b)

-- The text before the last separator and behind it.
split_last : ℕ → Text → Option (Text × Text)
split_last sep [] = none
split_last sep (c ∷ cs) = elim (split_last sep cs) [
  | some p ↦ some (c ∷ p.0, p.1)
  | none ↦ if c == sep then some ([], cs) else none
]

parts : Option (Text × Text) → Text → Text × Text
parts none s = ([], s)
parts (some p) s = p

-- `splitQualified`.
unfoldable pub split_qualified : Text → Text × Text
unfolding parts split_last trim_space
split_qualified s = let t = trim_space s in parts (split_last b'.' t) t

-- `splitNamespaced`.
unfoldable pub split_namespaced : Text → Text × Text
unfolding parts split_last
split_namespaced s = parts (split_last b'/' s) s

-- `qualify`.
unfoldable pub qualify : Text → Text → Text
unfolding text_eq text
qualify schema name =
    if is_empty schema || text_eq schema (text "public") then name else schema ++ (b'.' ∷ name)

-- `sameObject`.
unfoldable pub same_object : Text → Text → Text → Text → Bool
unfolding equal_fold
same_object ref_schema ref_name obj_schema obj_name =
    equal_fold ref_name obj_name && (is_empty ref_schema || equal_fold ref_schema obj_schema)

-- What a lookup returns: the last match, also where it is refused, and whether it is the only one.
-- The zero value that comes back where nothing matches stands as `none`.
pub record Found (A : Type 0) : Type 0 where
  pub item : Option A
  pub is_sole : Bool

-- The answer to an empty name.
abbrev pub nothing : {A : Type 0} → Found A
nothing = record { item = none; is_sole = false }

-- What a caller goes on with that returns where the lookup says no.
unfoldable pub accepted : {A : Type 0} → Found A → Option A
accepted r = if r.is_sole then r.item else none

unfoldable pub only_from : {A : Type 0} → (A → Bool) → List A → Option A → ℕ → Found A
only_from p [] found matches = record { item = found; is_sole = matches == 1 }
only_from p (x ∷ xs) found matches =
    let taken = only_from p xs (some x) (suc matches) in
    let rest = only_from p xs found matches in if p x then taken else rest

-- The loop of every lookup: the last match, and whether the number of them is one.
unfoldable pub only : {A : Type 0} → (A → Bool) → List A → Found A
unfolding only_from
only p xs = only_from p xs none 0

unfoldable pub claims_of : Option KubernetesData → List Claim
claims_of none = []
claims_of (some d) = d.claims

first_policy : Text → List StorageClass → Option Text
unfolding text_eq
first_policy class [] = none
first_policy class (c ∷ cs) =
    let rest = first_policy class cs in
    if text_eq c.name class
    then (if is_empty c.reclaim_policy then none else some c.reclaim_policy)
    else rest

classes_of : Option KubernetesData → List StorageClass
classes_of none = []
classes_of (some d) = d.storage_classes

module _ {F : Type 0} where
  unfoldable pub tables_of : Option (PostgresData F) → List Table
  tables_of none = []
  tables_of (some d) = d.tables

  unfoldable pub indexes_of : Option (PostgresData F) → List Index
  indexes_of none = []
  indexes_of (some d) = d.indexes

  unfoldable pub columns_of : Option (PostgresData F) → List (Column F)
  columns_of none = []
  columns_of (some d) = d.columns

  -- `s.table`.
  unfoldable pub find_table : Set F → Text → Found Table
  unfolding only same_object split_qualified tables_of
  find_table s relation =
      let r = split_qualified relation in
      let found =
        only (λ (t : Table). same_object r.0 r.1 t.schema t.name) (tables_of s.postgres) in
      if is_empty relation then nothing else found

  -- `s.column`.
  unfoldable pub find_column : Set F → Text → Text → Found (Column F)
  unfolding only same_object split_qualified columns_of equal_fold
  find_column s relation column =
      let r = split_qualified relation in
      let found =
        only (λ (c : Column F). same_object r.0 r.1 c.schema c.table && equal_fold c.name column)
          (columns_of s.postgres) in
      if is_empty relation || is_empty column then nothing else found

  -- `s.index`: the table only tells indexes of one name apart.
  unfoldable pub find_index : Set F → Text → Text → Found Index
  unfolding only same_object split_qualified indexes_of equal_fold
  find_index s name relation =
      let r = split_qualified name in
      let table = (split_qualified relation).1 in
      let found =
        only
          (λ (i : Index).
            same_object r.0 r.1 i.schema i.name && (is_empty table || equal_fold table i.table))
          (indexes_of s.postgres) in
      if is_empty name then nothing else found

  -- `s.claim`.
  unfoldable pub find_claim : Set F → Text → Found Claim
  unfolding only split_namespaced claims_of equal_fold
  find_claim s name =
      let r = split_namespaced name in
      let found =
        only (λ (c : Claim). equal_fold c.name r.1 && (is_empty r.0 || equal_fold c.namespace r.0))
          (claims_of s.kubernetes) in
      if is_empty name then nothing else found

  -- `s.reclaimPolicy`: the first class of the name decides.
  unfoldable pub reclaim_policy_of : Set F → Text → Option Text
  unfolding first_policy classes_of
  reclaim_policy_of s class =
      let found = first_policy class (classes_of s.kubernetes) in
      if is_empty class then none else found
