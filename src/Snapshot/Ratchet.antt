-- ===== src/Snapshot/Ratchet.antt =====
-- Production data never makes a finding, or a grade, better (`Enrich`,
-- internal/snapshot/enrich.go, with the scorer of internal/engine/scorer.go).
use reversibility_engine.Prelude.Text.{text, text_eq}
use reversibility_engine.Prelude.Int.{ℤ, pos, ◌≤ℤ◌}
use reversibility_engine.Prelude.{
  Bool, true, false, ◌||◌, ◌≡◌, refl, ap, arith, ltb, ◌⊎◌, inl, inr, Option, none, some, List, [],
  ◌∷◌, All, map, if◌then◌else◌,
}
use reversibility_engine.Domain.Verdict.{severity, will_fail}
use reversibility_engine.Domain.Grade.{rank, analyzed}
use reversibility_engine.Domain.Finding.{Finding, FindingContext}
use reversibility_engine.Engine.Score.{ScoreInput, score}
use reversibility_engine.Engine.Score.Order.{
  Worsens, AllWorsen, none_left, worsen, AllWorsen-NoWorse, score_mono,
}
use reversibility_engine.Snapshot.Float.{Floats}
use reversibility_engine.Snapshot.Lookup.{
  Table, Column, Set, Found, accepted, find_table, find_column,
}
use reversibility_engine.Snapshot.Sole.{last_match, find_table-item}
use reversibility_engine.Snapshot.Apply.{
  put_context, rows_of, scanned, failing, null_checked, set_not_null, enrich, ratchet, enrich_all,
}

-- The analyzers give no context.
abbrev pub IsBare : Finding → Type 0
IsBare f = f.context ≡ none

ratchet-Worsens : (f g : Finding) → IsBare f → Worsens f (ratchet f g)
unfolding ratchet
ratchet-Worsens f g h = record {
  verdict = ground arith;
  lock = ground arith;
  outage = λ k. absurd (ground (arith, h, k));
  disruptive = λ k. absurd (ground (arith, h, k));
}

module _ {F : Type 0} (fl : Floats F) where
  map-AllWorsen :
      (s : Set F) (fs : List Finding)
      → All IsBare fs
      → AllWorsen fs (map (λ (f : Finding). ratchet f (enrich fl s f)) fs)
  map-AllWorsen s [] h = none_left
  map-AllWorsen s (f ∷ fs) h =
      worsen (ratchet-Worsens f (enrich fl s f) h.0) (map-AllWorsen s fs h.1)

  -- On an analyzed changeset whose analyzers gave no context, the findings that a snapshot has
  -- enriched are never graded better than the findings without it.
  pub score-enrich_all :
      (s : Set F) (input : ScoreInput)
      → input.outcome ≡ analyzed
      → All IsBare input.findings
      → rank (score (record input { findings = enrich_all fl (some s) input.findings })).grade
        ≤ℤ rank (score input).grade
  unfolding enrich_all
  score-enrich_all s input a h =
      score_mono input _ a (AllWorsen-NoWorse (map-AllWorsen s input.findings h))

  -- The column of the finding is known to hold nulls.
  pub record HasNulls (s : Set F) (f : Finding) : Type 0 where
    pub rule : text_eq f.rule_id (text "PG017") ≡ true
    pub column : Column F
    pub found : accepted (find_column s f.subject.relation f.subject.object) ≡ some column
    pub nulls : fl.less (fl.of_int (pos 0)) column.null_fraction ≡ true

  -- The row estimate of a context, where there is one.
  abbrev rows_reported : Option FindingContext → Option ℤ
  rows_reported none = none
  rows_reported (some c) = some c.row_estimate

  -- The row estimate of a table, and 0 for none.
  abbrev estimate_of : Option Table → ℤ
  estimate_of none = pos 0
  estimate_of (some t) = t.row_estimate

  -- The verdict and the rationale stay, or the change is found to fail, with the row estimate of the
  -- table that was matched last.
  abbrev SameVerdict : Set F → Finding → Finding → Type 0
  SameVerdict s f g =
      ((g.reversibility ≡ f.reversibility) × (g.rationale ≡ f.rationale))
      ⊎ ((g.reversibility ≡ will_fail)
          × (rows_reported g.context ≡ some (estimate_of (last_match s f.subject.relation)))
          × HasNulls s f)

  -- What enrichment leaves of a finding.
  pub record IsEnriched (s : Set F) (f g : Finding) : Type 0 where
    pub rule : g.rule_id ≡ f.rule_id
    pub file : g.file ≡ f.file
    pub line : g.line ≡ f.line
    pub statement : g.statement ≡ f.statement
    pub lock : g.lock_hazard ≡ f.lock_hazard
    pub undo : g.undo_step ≡ f.undo_step
    pub subject : g.subject ≡ f.subject
    pub verdict : SameVerdict s f g

  context-IsEnriched :
      (s : Set F) (f g : Finding) → g ≡ record f { context = g.context } → IsEnriched s f g
  context-IsEnriched s f g h = record {
    rule = ap (λ (x : Finding). x.rule_id) h;
    file = ap (λ (x : Finding). x.file) h;
    line = ap (λ (x : Finding). x.line) h;
    statement = ap (λ (x : Finding). x.statement) h;
    lock = ap (λ (x : Finding). x.lock_hazard) h;
    undo = ap (λ (x : Finding). x.undo_step) h;
    subject = ap (λ (x : Finding). x.subject) h;
    verdict = inl (ap (λ (x : Finding). x.reversibility) h, ap (λ (x : Finding). x.rationale) h);
  }

  put_context-IsEnriched :
      (s : Set F) (f : Finding) (c : Option FindingContext) → IsEnriched s f (put_context c f)
  unfolding put_context
  put_context-IsEnriched s f none = context-IsEnriched s f f refl
  put_context-IsEnriched s f (some c) = context-IsEnriched s f _ refl

  scanned-IsEnriched :
      (s : Set F) (f : Finding) (t : Option Table) (c : Option (Column F))
      → IsEnriched s f (scanned fl s f t c)
  unfolding scanned
  scanned-IsEnriched s f t c = put_context-IsEnriched s f _

  if_IsEnriched :
      (b : Bool) (s : Set F) (f x y : Finding)
      → (b ≡ true → IsEnriched s f x)
      → IsEnriched s f y
      → IsEnriched s f (if b then x else y)
  if_IsEnriched true s f x y h k = h refl
  if_IsEnriched false s f x y h k = k

  estimate_reported :
      (t : Found Table) {m : Option Table}
      → t.item ≡ m
      → ◌≡◌ {A = Option ℤ} (some (rows_of t.item)) (some (estimate_of m))
  unfolding rows_of
  estimate_reported t k = ground (arith, k)

  null_checked-IsEnriched :
      (s : Set F) (f : Finding) (t : Found Table) (c : Option (Column F))
      → text_eq f.rule_id (text "PG017") ≡ true
      → t.item ≡ last_match s f.subject.relation
      → accepted (find_column s f.subject.relation f.subject.object) ≡ c
      → IsEnriched s f (null_checked fl s f t c)
  unfolding null_checked failing rows_of
  null_checked-IsEnriched s f t none r k e = scanned-IsEnriched s f (accepted t) none
  null_checked-IsEnriched s f t (some c) r k e =
      if_IsEnriched (fl.less (fl.of_int (pos 0)) c.null_fraction) s f (failing fl f t c)
        (scanned fl s f (accepted t) (some c))
        (λ n. record {
          rule = refl;
          file = refl;
          line = refl;
          statement = refl;
          lock = refl;
          undo = refl;
          subject = refl;
          verdict =
              inr (
                refl,
                estimate_reported t k,
                record { rule = r; column = c; found = e; nulls = n },
              );
        })
        (scanned-IsEnriched s f (accepted t) (some c))

  enrich-IsEnriched : (s : Set F) (f : Finding) → IsEnriched s f (enrich fl s f)
  unfolding enrich set_not_null
  enrich-IsEnriched s f =
      let is = text_eq f.rule_id in
      let bare = context-IsEnriched s f in
      if_IsEnriched (is (text "PG006") || is (text "PG007")) s f _ _ (λ _. bare _ refl)
        (if_IsEnriched (is (text "PG017")) s f _ _
          (λ r.
            null_checked-IsEnriched s f (find_table s f.subject.relation) _ r
              (find_table-item s f.subject.relation) refl)
          (if_IsEnriched (is (text "PG014") || is (text "PG015")) s f _ _ (λ _. bare _ refl)
            (if_IsEnriched (is (text "PG021")) s f _ _ (λ _. bare _ refl)
              (if_IsEnriched (is (text "K8S003")) s f _ _ (λ _. bare _ refl)
                (if_IsEnriched (is (text "K8S004")) s f _ _ (λ _. bare _ refl) (bare f refl))))))

  -- Enrichment leaves of each finding its rule, place, statement, lock hazard, undo and subject. It
  -- leaves the verdict with its rationale, or says that the change will fail: of a SET NOT NULL
  -- alone, and only where the one column of that name in the snapshot holds nulls. The row estimate
  -- is then that of the last table that matches, also where several match, and 0 where none does.
  pub ratchet-IsEnriched : (s : Set F) (f : Finding) → IsEnriched s f (ratchet f (enrich fl s f))
  unfolding ratchet
  ratchet-IsEnriched s f =
      let e = enrich-IsEnriched s f in
      let g = enrich fl s f in
      if_IsEnriched (ltb (severity g.reversibility) (severity f.reversibility)) s f _ _
        (λ _. record {
          rule = e.rule;
          file = e.file;
          line = e.line;
          statement = e.statement;
          lock = refl;
          undo = e.undo;
          subject = e.subject;
          verdict = inl (refl, refl);
        })
        (record {
          rule = e.rule;
          file = e.file;
          line = e.line;
          statement = e.statement;
          lock = refl;
          undo = e.undo;
          subject = e.subject;
          verdict = e.verdict;
        })
