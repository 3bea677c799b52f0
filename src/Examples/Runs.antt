-- ===== src/Examples/Runs.antt =====
-- The theorems on whole runs, on a small changeset.
use mathlib.Core.List.{Memᴰ}
use reversibility_engine.Prelude.Text.{Text, text}
use reversibility_engine.Prelude.{
  ◌≤◌, ℕ, arith, Bool, ◌&&◌, ◌≡◌, ◌≢◌, refl, true, false, List, [], ◌∷◌, Option, none, some,
}
use reversibility_engine.Domain.Grade.{gate_pass}
use reversibility_engine.Domain.Located.{Located, ChangedFile, new_locator}
use reversibility_engine.Domain.Certificate.{ReversibilityCertificate}
use reversibility_engine.Engine.Certify.{certify}
use reversibility_engine.Engine.Certify.FailClosed.{IsFailing, certify-IsFailing}
use reversibility_engine.Engine.Certify.Pass.{IsEarned, certify-IsEarned}
use reversibility_engine.Engine.Certify.Effective.{IsLifted, certify-IsLifted}
use reversibility_engine.Engine.Certify.Unread.{IsDenied, certify-unread}
use reversibility_engine.Engine.Collect.{Engine, RunConfig}
use reversibility_engine.Prelude.Int.{pos_part}
use reversibility_engine.Paths.{has_suffix}
use reversibility_engine.Cli.{gated_grade}
use reversibility_engine.Cli.Gate.{IsMet, apply_gate_iff, check_gate_sound}
use reversibility_engine.Domain.Grade.{grade_b, no_candidates, rank}
use reversibility_engine.Engine.Candidate.{in_migration_dir}
use reversibility_engine.Engine.Outcome.{is_read, supports}
use reversibility_engine.Engine.Collect.{located}
use reversibility_engine.Examples.Samples.{
  add_column, add_index, policy, sql_file, engine_of, config_of, input_of,
}
use reversibility_engine.Engine.Certify.{collected, decided}
use reversibility_engine.Engine.Collect.{run_analyzers}
use reversibility_engine.Policy.Apply.{apply}
use reversibility_engine.Domain.Grade.{gate, analyzed}
use reversibility_engine.Domain.Finding.{sort_findings}
use reversibility_engine.Engine.Outcome.{outcome}
use reversibility_engine.Engine.Score.Clean.{IsClean, score-a_iff}
use reversibility_engine.Prelude.Sort.{sort_by}
use reversibility_engine.Domain.Verdict.{lock_severity}

-- A digest that is good enough for a run.
abbrev hash : List ℕ → Text
hash bytes = bytes

unfoldable reads_sql : Located → Bool
unfolding has_suffix
reads_sql at = has_suffix at.path (text ".sql")

abbrev clean_engine : Engine
clean_engine = engine_of reads_sql (add_column ∷ []) none

abbrev files : List ChangedFile
files = sql_file (text "migrations/1.sql") ∷ []

abbrev whole : RunConfig
whole = config_of (text "migrations/1.sql" ∷ [])

-- The same run with a Rails migration beside the file.
abbrev with_ruby : RunConfig
with_ruby = config_of (text "migrations/1.sql" ∷ text "migrations/2.rb" ∷ [])

abbrev passing : ReversibilityCertificate × Option Text
passing = certify hash clean_engine none files whole

whole_read :
    outcome clean_engine.analyzers
      (located files (new_locator []))
      whole.enumerated
      (new_locator [])
    ≡ (analyzed, [])
unfolding outcome located text new_locator reads_sql sort_by
whole_read = refl

column-IsClean : IsClean (input_of (add_column ∷ []))
unfolding lock_severity
column-IsClean = record {
  complete = refl;
  read = refl;
  covered = refl;
  harmless = (record { undoable = refl; brief = omega arith; unbanded = tt }, tt);
  undone = tt;
}

passes : passing.0.ai_gate_status ≡ gate_pass
unfolding sort_findings gate new_locator certify run_analyzers apply text collected decided
passes = rw (whole_read, (score-a_iff (input_of (add_column ∷ []))).1 column-IsClean) refl

certify-IsEarned_example : IsEarned passing.0 passing.1 []
certify-IsEarned_example = certify-IsEarned hash clean_engine none files whole passes

abbrev cancelled : ReversibilityCertificate × Option Text
cancelled = certify hash clean_engine (some (text "context canceled")) files whole

cancelled_fails : cancelled.1 ≢ none
unfolding certify
cancelled_fails h = ground arith

certify-IsFailing_example : IsFailing cancelled.0
certify-IsFailing_example =
    certify-IsFailing hash clean_engine (some (text "context canceled")) files whole cancelled_fails

certify-IsLifted_example :
    IsLifted
      (certify hash
        (engine_of reads_sql (add_column ∷ add_index ∷ []) (some policy))
        none
        files
        whole).0
certify-IsLifted_example =
    certify-IsLifted hash (engine_of reads_sql (add_column ∷ add_index ∷ []) (some policy)) none
      files whole

in_dir : in_migration_dir (new_locator [] (text "migrations/2.rb")) ≡ true
unfolding in_migration_dir new_locator text
in_dir = refl

not_read :
    (is_read (located files (new_locator [])) (text "migrations/2.rb")
      && supports clean_engine.analyzers (new_locator [] (text "migrations/2.rb")))
    ≡ false
unfolding is_read text located
not_read = refl

certify-unread_example : IsDenied (certify hash clean_engine none files with_ruby).0
certify-unread_example =
    certify-unread hash clean_engine none files with_ruby (text "migrations/2.rb")
      (Memᴰ.tail (Memᴰ.head refl)) in_dir not_read

b_above_f : 1 ≤ pos_part (rank grade_b)
unfolding rank
b_above_f = omega arith

-- The certificate of the first run meets a gate at B.
passing_candidates : passing.0.outcome ≢ no_candidates
passing_candidates k =
    let e = certify-IsEarned hash clean_engine none files whole passes in ground (arith, e.outcome)

passing_meets : IsMet passing.0 grade_b
unfolding gated_grade rank
passing_meets =
    let e = certify-IsEarned hash clean_engine none files whole passes in
    let l = (certify-IsLifted hash clean_engine none files whole).no_worse e.outcome in
    record {
      assessed = λ k. ground (arith, e.outcome);
      covered = e.coverage;
      graded = λ u n. ground (arith, e.grade, l);
    }

check_gate_sound_example : passing.1 ≡ none
check_gate_sound_example =
    check_gate_sound hash clean_engine none files whole grade_b b_above_f passing_candidates
      ((apply_gate_iff passing.0 grade_b).1 passing_meets)
