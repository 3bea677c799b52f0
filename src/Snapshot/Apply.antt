-- ===== src/Snapshot/Apply.antt =====
-- The rules that gain context, and the ratchet around them (`setNotNull`, `enrich` and `Enrich`,
-- internal/snapshot/enrich.go).
use reversibility_engine.Prelude.Format.{format}
use reversibility_engine.Prelude.Text.{Text, text, text_eq}
use reversibility_engine.Prelude.Int.{ℤ, pos, ltb_ℤ}
use reversibility_engine.Prelude.{
  ◌||◌, Option, none, some, List, [], ◌∷◌, ◌++◌, ltb, map, if◌then◌else◌,
}
use reversibility_engine.Domain.Verdict.{will_fail, severity}
use reversibility_engine.Domain.Finding.{Finding, FindingContext}
use reversibility_engine.Snapshot.Float.{Floats}
use reversibility_engine.Snapshot.Estimate.{format_rows, format_percent}
use reversibility_engine.Snapshot.Lookup.{
  Table, Column, Set, Found, accepted, qualify, find_table, find_column,
}
use reversibility_engine.Snapshot.Enrich.{
  noted, qualified_name, context_of_table, type_change_context, validation_context,
  drop_index_context, claim_removal_context, storage_decrease_context,
}

-- The ratchet: a milder verdict is taken back with its rationale, and the lock hazard stays.
unfoldable pub ratchet : Finding → Finding → Finding
unfolding severity
ratchet before after =
    let kept : Finding = record after {
      reversibility = before.reversibility;
      rationale = before.rationale;
      lock_hazard = before.lock_hazard;
    } in
    if ltb (severity after.reversibility) (severity before.reversibility)
    then kept
    else record after { lock_hazard = before.lock_hazard }

-- A context that is known is written over the finding's.
unfoldable pub put_context : Option FindingContext → Finding → Finding
put_context none f = f
put_context (some c) f = record f { context = some c }

-- `t.RowEstimate`, of the zero value too.
unfoldable pub rows_of : Option Table → ℤ
rows_of none = pos 0
rows_of (some t) = t.row_estimate

module _ {F : Type 0} (fl : Floats F) where
  scan_note : Option (Column F) → Finding → Table → Text
  unfolding format format_rows qualify qualified_name text
  scan_note (some c) f t =
      format
        (text
          "Column %s has no nulls in the snapshot, so the constraint should validate — though any null written between the snapshot and the migration will still abort it. The scan covers about %s rows.")
        (qualified_name f.subject.relation c.name ∷ format_rows fl t.row_estimate ∷ [])
  scan_note none f t =
      format
        (text
          "Scans about %s rows of %s under lock. No statistics exist for column %s, so whether it contains nulls is unknown.")
        (format_rows fl t.row_estimate ∷ qualify t.schema t.name ∷ f.subject.object ∷ [])

  -- `setNotNull` where no null is known: the context changes, if the table's size is known.
  unfoldable pub scanned : Set F → Finding → Option Table → Option (Column F) → Finding
  unfolding context_of_table scan_note put_context
  scanned s f t c =
      put_context (context_of_table fl (λ t size. scan_note c f t) f.lock_hazard s t) f

  backfill_note : Option Table → F → Text
  unfolding format format_rows text
  backfill_note none nulls = []
  backfill_note (some t) nulls =
      let note : Text =
        format (text " That is roughly %s rows to backfill before this migration can apply.")
          (format_rows fl (fl.to_int (fl.times nulls (fl.of_int t.row_estimate))) ∷ []) in
      if ltb_ℤ (pos 0) t.row_estimate then note else []

  -- `setNotNull` where the column holds nulls: the statement will fail. The row estimate is that of
  -- the last match, also of a table that the lookup refuses; the note reads an accepted one only.
  unfoldable pub failing : Finding → Found Table → Column F → Finding
  unfolding format format_percent qualified_name backfill_note rows_of accepted noted text
  failing f t c =
      let column = qualified_name f.subject.relation c.name in
      let note : Text =
        format (text "Confirmed against production: about %s of rows in %s are null.")
          (format_percent fl c.null_fraction ∷ column ∷ []) in
      record f {
        reversibility = will_fail;
        rationale =
            format
              (text
                "NULL values exist in %s; SET NOT NULL will fail and roll back the transaction.")
              (column ∷ []);
        context = some (record (noted (note ++ backfill_note (accepted t) c.null_fraction)) {
          row_estimate = rows_of t.item;
        });
      }

  unfoldable pub null_checked : Set F → Finding → Found Table → Option (Column F) → Finding
  unfolding scanned failing accepted
  null_checked s f t none = scanned s f (accepted t) none
  null_checked s f t (some c) =
      if fl.less (fl.of_int (pos 0)) c.null_fraction
      then failing f t c
      else scanned s f (accepted t) (some c)

  -- `s.setNotNull`.
  unfoldable pub set_not_null : Set F → Finding → Finding
  unfolding null_checked find_table find_column accepted
  set_not_null s f =
      null_checked s f (find_table s f.subject.relation)
        (accepted (find_column s f.subject.relation f.subject.object))

  -- `s.enrich`: a rule that is not named gains nothing.
  unfoldable pub enrich : Set F → Finding → Finding
  unfolding set_not_null type_change_context validation_context drop_index_context
      claim_removal_context storage_decrease_context text_eq text
  enrich s f =
      let is = text_eq f.rule_id in
      if is (text "PG006") || is (text "PG007")
      then record f { context = type_change_context fl s f }
      else (if is (text "PG017")
          then set_not_null s f
          else (if is (text "PG014") || is (text "PG015")
              then record f { context = drop_index_context fl s f }
              else (if is (text "PG021")
                  then record f { context = validation_context fl s f }
                  else (if is (text "K8S003")
                      then record f { context = claim_removal_context fl s f }
                      else (if is (text "K8S004")
                          then record f { context = storage_decrease_context fl s f }
                          else f)))))

  -- `Enrich`: no snapshot adds nothing.
  unfoldable pub enrich_all : Option (Set F) → List Finding → List Finding
  unfolding enrich ratchet
  enrich_all none findings = findings
  enrich_all (some s) findings = map (λ (f : Finding). ratchet f (enrich s f)) findings
