-- ===== src/Snapshot/Enrich.antt =====
-- What production data adds to a finding (internal/snapshot/enrich.go).
use reversibility_engine.Prelude.Format.{format}
use reversibility_engine.Prelude.Text.{Text, text, text_eq, to_lower}
use reversibility_engine.Prelude.Int.{ℤ, pos, pos_part, ltb_ℤ}
use reversibility_engine.Prelude.{
  ◌*◌, not, ◌&&◌, Option, none, some, List, [], ◌∷◌, ◌++◌, is_empty, if◌then◌else◌,
}
use reversibility_engine.Domain.Verdict.{LockHazard}
use reversibility_engine.Domain.Finding.{Finding, FindingContext, LockDurationBand}
use reversibility_engine.Snapshot.Float.{Floats, add_int64, wrap_int64, is_not_positive}
use reversibility_engine.Snapshot.Estimate.{band_for, estimate_for, format_bytes, format_rows}
use reversibility_engine.Snapshot.Lookup.{
  Table, Index, Column, Claim, Set, qualify, equal_fold, columns_of, find_table, find_index,
  find_claim, reclaim_policy_of, accepted,
}

-- A context with a note, and nothing else.
unfoldable pub noted : Text → FindingContext
noted note = record {
  row_estimate = pos 0;
  size_bytes = pos 0;
  estimated_lock_duration = [];
  context_note = note;
  lock_duration_band = LockDurationBand.other [];
}

or_text : Text → Text → Text
or_text s fallback = if is_empty s then fallback else s

-- `qualified`.
unfoldable pub qualified_name : Text → Text → Text
qualified_name relation object = if is_empty relation then object else relation ++ (b'.' ∷ object)

module _ {F : Type 0} (fl : Floats F) where
  width_of : List (Column F) → Text → Text → ℤ → ℤ
  unfolding add_int64 equal_fold
  width_of [] schema name width = width
  width_of (c ∷ cs) schema name width =
      let more = width_of cs schema name (add_int64 width c.average_width) in
      let rest = width_of cs schema name width in
      if equal_fold c.schema schema && equal_fold c.table name then more else rest

  -- `s.rowWidth`.
  unfoldable pub row_width : Set F → Text → Text → ℤ
  unfolding width_of columns_of
  row_width s schema name = width_of (columns_of s.postgres) schema name (pos 0)

  -- `s.tableSize`. The factors of the product are positive, and it wraps around.
  unfoldable pub table_size : Set F → Table → Option ℤ
  unfolding row_width wrap_int64
  table_size s t =
      let width = row_width s t.schema t.name in
      if ltb_ℤ (pos 0) t.size_bytes
      then some t.size_bytes
      else (if is_not_positive t.row_estimate
          then none
          else (if is_not_positive width
              then none
              else some (wrap_int64 (pos (pos_part t.row_estimate * pos_part width)))))

  -- The figures of a table whose size is known, under a note.
  sized_context : Table → ℤ → LockHazard → Text → FindingContext
  unfolding estimate_for band_for
  sized_context t size lock note = record {
    row_estimate = t.row_estimate;
    size_bytes = size;
    estimated_lock_duration = estimate_for fl size lock;
    context_note = note;
    lock_duration_band = band_for fl size lock;
  }

  rewrite_note : Table → ℤ → Text
  unfolding format qualify format_rows format_bytes text
  rewrite_note t size =
      let heap : Text =
        format (text "Rewrites the whole of %s: about %s rows, %s of heap")
          (qualify t.schema t.name ∷ format_rows fl t.row_estimate ∷ format_bytes fl size ∷ []) in
      let indexes : Text =
        format (text " and %s including indexes") (format_bytes fl t.total_size_bytes ∷ []) in
      (heap ++ (if ltb_ℤ size t.total_size_bytes then indexes else [])) ++ text "."

  validation_note : Table → ℤ → Text
  unfolding format qualify format_rows format_bytes text
  validation_note t size =
      format
        (text "Validating this constraint scans about %s rows of %s (%s) while holding a lock.")
        (format_rows fl t.row_estimate ∷ qualify t.schema t.name ∷ format_bytes fl size ∷ [])

  -- The context of a table, where it is found and its size is known.
  unfoldable pub context_of_table :
      (Table → ℤ → Text) → LockHazard → Set F → Option Table → Option FindingContext
  unfolding table_size sized_context
  context_of_table note lock s none = none
  context_of_table note lock s (some t) = elim (table_size s t) [
    | none ↦ none
    | some size ↦ some (sized_context t size lock (note t size))
  ]

  -- `s.typeChangeContext`.
  unfoldable pub type_change_context : Set F → Finding → Option FindingContext
  unfolding context_of_table rewrite_note find_table accepted
  type_change_context s f =
      context_of_table rewrite_note f.lock_hazard s (accepted (find_table s f.subject.relation))

  -- `s.validationContext`.
  unfoldable pub validation_context : Set F → Finding → Option FindingContext
  unfolding context_of_table validation_note find_table accepted
  validation_context s f =
      context_of_table validation_note f.lock_hazard s (accepted (find_table s f.subject.relation))

  reset_note : Option Text → Text
  unfolding format text
  reset_note (some day) = format (text " Statistics have been running since %s.") (day ∷ [])
  reset_note none =
      text
        " The statistics reset time is unknown, so a zero count may only mean the counters are young."

  index_context : Option Index → Option FindingContext
  unfolding noted format reset_note format_bytes format_rows text
  index_context none = none
  index_context (some i) =
      let unused : Text =
        format
          (text
            "The planner has not used index %s once since statistics were last reset, and it occupies %s. Dropping an unused index is cheap; rebuilding it is the cost, and that cost is known.")
          (i.name ∷ format_bytes fl i.size_bytes ∷ []) in
      let used : Text =
        format
          (text
            "Index %s occupies %s and the planner has used it %s times since statistics were last reset, so dropping it will change query plans.")
          (i.name ∷ format_bytes fl i.size_bytes ∷ format_rows fl i.scans ∷ []) in
      let is_unused = not (ltb_ℤ i.scans (pos 0)) && not (ltb_ℤ (pos 0) i.scans) in
      some (record (noted (if is_unused then unused ++ reset_note i.stats_reset_at else used)) {
        size_bytes = i.size_bytes;
      })

  -- `s.dropIndexContext`.
  unfoldable pub drop_index_context : Set F → Finding → Option FindingContext
  unfolding index_context find_index accepted
  drop_index_context s f =
      index_context (accepted (find_index s f.subject.object f.subject.relation))

  claim_note : Claim → Option Text → Text
  unfolding format or_text to_lower text_eq text
  claim_note c none =
      format
        (text
          "The cluster has a claim %s in phase %s, but its StorageClass %q is not in the snapshot, so the reclaim policy is still unknown.")
        (c.name ∷ to_lower c.phase ∷ c.storage_class ∷ [])
  claim_note c (some policy) =
      let retained : Text =
        format
          (text
            "The cluster reports StorageClass %q with reclaimPolicy Retain, so deleting this claim releases the volume rather than erasing it and the data can be recovered by binding a new claim to it. The finding stands: recovery is a manual operation, and no tool should grade it as reversible on your behalf.")
          (c.storage_class ∷ []) in
      let destroyed : Text =
        format
          (text
            "Confirmed against the cluster: StorageClass %q has reclaimPolicy %s, so deleting this claim destroys the volume. The claim is currently %s with a capacity of %s.")
          (c.storage_class
            ∷ policy
            ∷ to_lower c.phase
            ∷ or_text c.capacity (text "an unreported size")
            ∷ []) in
      if text_eq policy (text "Retain") then retained else destroyed

  removal_context : Set F → Option Claim → Option FindingContext
  unfolding noted claim_note reclaim_policy_of
  removal_context s none = none
  removal_context s (some c) = some (noted (claim_note c (reclaim_policy_of s c.storage_class)))

  -- `s.claimRemovalContext`.
  unfoldable pub claim_removal_context : Set F → Finding → Option FindingContext
  unfolding removal_context find_claim accepted
  claim_removal_context s f = removal_context s (accepted (find_claim s f.subject.relation))

  decrease_context : Option Claim → Option FindingContext
  unfolding noted format to_lower text
  decrease_context none = none
  decrease_context (some c) =
      let unbound : Text =
        format
          (text
            "The cluster reports claim %s in phase %s with no bound capacity, so there is nothing to shrink yet.")
          (c.name ∷ to_lower c.phase ∷ []) in
      let bound : Text =
        format
          (text
            "The bound volume behind %s is currently %s, which is what the request has to be measured against — not the previous manifest.")
          (c.name ∷ c.capacity ∷ []) in
      some (noted (if is_empty c.capacity then unbound else bound))

  -- `s.storageDecreaseContext`.
  unfoldable pub storage_decrease_context : Set F → Finding → Option FindingContext
  unfolding decrease_context find_claim accepted
  storage_decrease_context s f = decrease_context (accepted (find_claim s f.subject.relation))
