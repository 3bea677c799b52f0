-- ===== src/Postgres/Complete.antt =====
-- Every statement is classified, and by a row of the printed table (`Analyze`,
-- internal/analyzer/postgres/postgres.go).
use mathlib.Core.List.{Permᴰ}
use mathlib.Core.Logic.{∥∥₁_elim}
use native.Mathlib.Nat.{ℕ_set}
use reversibility_engine.Prelude.Sort.{sort_by-perm, sort_by-All}
use reversibility_engine.Prelude.Result.{Result, ok, err, ok_injective}
use reversibility_engine.Prelude.Text.{text, text_eq}
use reversibility_engine.Prelude.{
  ℕ, suc, ◌+◌, Bool, true, ◌≡◌, refl, sym, ap, ◌∙◌, arith, inl, inr, List, [], ◌∷◌, ◌++◌, length,
  length-append, All, Bool-cases, none, some, if◌then◌else◌,
}
use reversibility_engine.Domain.Verdict.{verdict_text, lock_text}
use reversibility_engine.Domain.Finding.{Finding, sort_findings, finding_less}
use reversibility_engine.Domain.Located.{ChangedFile}
use reversibility_engine.Postgres.Table.{is_documented, rule_table}
use reversibility_engine.Postgres.Sound.{is_documented-classify}
use reversibility_engine.Postgres.Schema.{Schema, new_schema, schema_apply}
use reversibility_engine.Postgres.Statement.{Statement}
use reversibility_engine.Postgres.Analyze.{
  Parser, Context, is_analyzed, analyze_file, analyze_files, postgres_analyze, classify_all,
  ordered, statement_finding, unparsed_finding, file_findings, next_file, next_file-eq-ok, started,
  started-eq-ok,
}

-- One finding for each statement, and one for a text that does not parse.
unfoldable pub count_parsed : Result (List Statement) → ℕ
count_parsed (err why) = 1
count_parsed (ok ss) = length ss

-- The sum over the up migrations.
unfoldable pub finding_count : Parser → List ChangedFile → ℕ
unfolding count_parsed is_analyzed
finding_count parse [] = 0
finding_count parse (f ∷ fs) =
    (if is_analyzed f then count_parsed (parse f.current) else 0) + finding_count parse fs

count-permᴰ :
    (parse : Parser) {fs gs : List ChangedFile}
    → Permᴰ fs gs
    → finding_count parse fs ≡ finding_count parse gs
unfolding finding_count
count-permᴰ parse Permᴰ.nil = refl
count-permᴰ parse (Permᴰ.cons e m) = ground (arith, count-permᴰ parse m)
count-permᴰ parse (Permᴰ.swap e e') = ground arith
count-permᴰ parse (Permᴰ.trans m n) = count-permᴰ parse m ∙ count-permᴰ parse n

length-perm : {fs gs : List Finding} → Permᴰ fs gs → length fs ≡ length gs
length-perm Permᴰ.nil = refl
length-perm (Permᴰ.cons e m) = ground (arith, length-perm m)
length-perm (Permᴰ.swap e e') = ground arith
length-perm (Permᴰ.trans m n) = length-perm m ∙ length-perm n

length-classify_all :
    (f : ChangedFile) (ss : List Statement) (sch : Schema)
    → length (classify_all f ss sch).0 ≡ length ss
unfolding classify_all
length-classify_all f [] sch = refl
length-classify_all f (s ∷ ss) sch = ap suc (length-classify_all f ss (schema_apply sch s))

length-file_findings :
    (f : ChangedFile) (sch : Schema) (r : Result (List Statement))
    → length (file_findings f sch r).0 ≡ count_parsed r
unfolding file_findings count_parsed
length-file_findings f sch (err why) = refl
length-file_findings f sch (ok ss) = length-classify_all f ss sch

files_total :
    (parse : Parser) (ctx : Context) (n : ℕ) (fs : List ChangedFile) (sch : Schema)
    → ((n : ℕ) → ctx n ≡ none)
    → (found : List Finding) × (analyze_files parse ctx n fs sch ≡ ok found)
      × (length found ≡ finding_count parse fs)
unfolding analyze_files finding_count analyze_file next_file
files_total parse ctx n [] sch live = ([], refl, refl)
files_total parse ctx n (f ∷ fs) sch live =
    let here = analyze_file parse f sch in
    elim (Bool-cases (is_analyzed f)) [
      | inl e ↦
          let (rest, k, l) = files_total parse ctx (suc n) fs here.1 live in
          (
            here.0 ++ rest,
            rw (live n, e, k) refl,
            ground (arith, length-append here.0 rest, length-file_findings f sch (parse f.current)),
          )
      | inr e ↦
          let (rest, k, l) = files_total parse ctx (suc n) fs sch live in
          (rest, rw (live n, e, k) refl, ground arith)
    ]

-- Under a context that is never cancelled, and with any parser, `Analyze` returns findings: one for
-- each statement of each up migration, and one for each up migration that does not parse.
pub analyze-total :
    (parse : Parser) (ctx : Context) (files : List ChangedFile)
    → ((n : ℕ) → ctx n ≡ none)
    → (found : List Finding) × (postgres_analyze (some parse) ctx files ≡ ok found)
      × (length found ≡ finding_count parse files)
unfolding postgres_analyze ordered started sort_findings
analyze-total parse ctx files live =
    let (fs, k, l) = files_total parse ctx 1 (ordered files) new_schema live in
    (
      sort_findings fs,
      rw (live 0, k) refl,
      ∥∥₁_elim (sort_by-perm finding_less fs) (ℕ_set _ _) length-perm
          ∙ l
          ∙ ∥∥₁_elim (sort_by-perm _ files) (ℕ_set _ _) (count-permᴰ parse),
    )

-- The finding has the verdict and the hazard that the table prints for its rule.
unfoldable pub documented : Finding → Bool
unfolding is_documented
documented x = is_documented (record {
  rule_id = x.rule_id;
  reversibility = x.reversibility;
  lock = x.lock_hazard;
  rationale = x.rationale;
  undo = x.undo_step;
})

abbrev AllDocumented : List Finding → Type 0
AllDocumented fs = All (λ x. documented x ≡ true) fs

AllDocumented-append :
    (xs ys : List Finding) → AllDocumented xs → AllDocumented ys → AllDocumented (xs ++ ys)
AllDocumented-append [] ys h k = k
AllDocumented-append (x ∷ xs) ys h k = (h.0, AllDocumented-append xs ys h.1 k)

classify_all-AllDocumented :
    (f : ChangedFile) (ss : List Statement) (sch : Schema) → AllDocumented (classify_all f ss sch).0
unfolding classify_all statement_finding documented
classify_all-AllDocumented f [] sch = tt
classify_all-AllDocumented f (s ∷ ss) sch =
    (is_documented-classify s sch, classify_all-AllDocumented f ss (schema_apply sch s))

file_findings-AllDocumented :
    (f : ChangedFile) (sch : Schema) (r : Result (List Statement))
    → AllDocumented (file_findings f sch r).0
unfolding file_findings unparsed_finding documented is_documented rule_table text text_eq
    verdict_text lock_text
file_findings-AllDocumented f sch (err why) = (refl, tt)
file_findings-AllDocumented f sch (ok ss) = classify_all-AllDocumented f ss sch

analyze_files-AllDocumented :
    (parse : Parser) (ctx : Context) (n : ℕ) (fs : List ChangedFile) (sch : Schema)
    (found : List Finding)
    → analyze_files parse ctx n fs sch ≡ ok found
    → AllDocumented found
unfolding analyze_files analyze_file
analyze_files-AllDocumented parse ctx n [] sch found e = rw (sym (ok_injective e)) tt
analyze_files-AllDocumented parse ctx n (f ∷ fs) sch found e =
    let here = analyze_file parse f sch in
    elim (next_file-eq-ok (ctx n) (is_analyzed f) here.0 (analyze_files parse ctx (suc n) fs here.1)
      (analyze_files parse ctx (suc n) fs sch) e) [
        | inl (a, (rest, k, e')) ↦ rw e' (
            AllDocumented-append here.0 rest (file_findings-AllDocumented f sch (parse f.current))
              (analyze_files-AllDocumented parse ctx (suc n) fs here.1 rest k))
        | inr (a, k) ↦ analyze_files-AllDocumented parse ctx (suc n) fs sch found k
      ]

-- Whatever the parser returns, each finding that `Analyze` returns has the verdict and the lock
-- hazard that docs/RULES.md prints for its rule.
pub analyze-AllDocumented :
    (parse : Parser) (ctx : Context) (files : List ChangedFile) (found : List Finding)
    → postgres_analyze (some parse) ctx files ≡ ok found
    → AllDocumented found
unfolding postgres_analyze sort_findings
analyze-AllDocumented parse ctx files found e =
    let (fs, k, e') =
      started-eq-ok (ctx 0) (analyze_files parse ctx 1 (ordered files) new_schema) e in
    rw e' (
      sort_by-All finding_less _ fs
        (analyze_files-AllDocumented parse ctx 1 (ordered files) new_schema fs k))
