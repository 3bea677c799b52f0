-- ===== src/Cli/Gate.antt =====
-- When `revctl check` exits 0 (internal/delivery/cli/check.go).
use reversibility_engine.Prelude.Text.{Text, text, text_eq, text_eq_sound, to_upper}
use reversibility_engine.Prelude.Int.{◌≤ℤ◌, pos_part}
use reversibility_engine.Prelude.Result.{ok}
use reversibility_engine.Prelude.{
  ℕ, ◌≤◌, ◌≡◌, ◌≢◌, ◌↔◌, ◌⊎◌, refl, inl, inr, true, false, not, ◌||◌, List, Option, none,
  Option-cases, arith, is_empty,
}
use reversibility_engine.Domain.Grade.{
  Grade, grade_a, grade_b, grade_c, grade_f, grade_of, grade_text, is_unset, is_threshold, rank,
  coverage_full, no_candidates, unsupported_content, is_full,
}
use reversibility_engine.Domain.Located.{ChangedFile}
use reversibility_engine.Domain.Certificate.{ReversibilityCertificate}
use reversibility_engine.Policy.Apply.{Policy}
use reversibility_engine.Engine.Collect.{Engine, RunConfig}
use reversibility_engine.Engine.Certify.{certify}
use reversibility_engine.Engine.Certify.FailClosed.{IsFailing, certify-IsFailing}
use reversibility_engine.Cli.{
  CheckFlags, resolve_min_grade, gated_grade, exit_code, apply_gate, apply_threshold,
}

-- What it takes to meet the gate at a grade.
pub record IsMet (c : ReversibilityCertificate) (min_grade : Grade) : Type 0 where
  pub assessed : c.outcome ≢ unsupported_content
  pub covered : c.coverage ≡ coverage_full
  pub graded :
      is_unset min_grade ≡ false
      → c.outcome ≢ no_candidates
      → rank min_grade ≤ℤ rank (gated_grade c)

apply_gate-IsMet :
    (c : ReversibilityCertificate) (min_grade : Grade)
    → exit_code (apply_gate c min_grade).1 ≡ 0
    → IsMet c min_grade
unfolding apply_gate apply_threshold exit_code is_full
apply_gate-IsMet c min_grade h = record {
  assessed = λ e. ground arith;
  covered = ground arith;
  graded = λ u n. ground arith;
}

IsMet-apply_gate :
    (c : ReversibilityCertificate) (min_grade : Grade)
    → IsMet c min_grade
    → exit_code (apply_gate c min_grade).1 ≡ 0
unfolding apply_gate apply_threshold exit_code is_full
IsMet-apply_gate c min_grade h = ground (arith, h.assessed, h.covered, h.graded)

-- `check` exits 0 on a certificate exactly when the run was assessed and covered every file, both
-- also where no minimum grade is set, and, where one is set and the changeset held candidates, the
-- effective grade is no worse than the minimum.
pub apply_gate_iff :
    (c : ReversibilityCertificate) (min_grade : Grade)
    → (exit_code (apply_gate c min_grade).1 ≡ 0) ↔ IsMet c min_grade
apply_gate_iff c min_grade = (apply_gate-IsMet c min_grade, IsMet-apply_gate c min_grade)

-- The grades that can be a minimum.
abbrev IsMeasured : Grade → Type 0
IsMeasured g = (g ≡ grade_a) ⊎ (g ≡ grade_b) ⊎ (g ≡ grade_c) ⊎ (g ≡ grade_f)

-- What a command line asks for that names a minimum grade, or sets the flag.
pub record IsAsked (flags : CheckFlags) (g : Grade) : Type 0 where
  pub measured : IsMeasured g
  pub named : is_empty flags.min_grade ≡ false → grade_text g ≡ to_upper flags.min_grade
  pub flagged : is_empty flags.min_grade ≡ true → g ≡ grade_a

text_grade_of : (s : Text) → grade_text (grade_of s) ≡ s
unfolding grade_of grade_text
text_grade_of s = grind (
  arith,
  text_eq_sound s (text "A"),
  text_eq_sound s (text "B"),
  text_eq_sound s (text "C"),
  text_eq_sound s (text "F"),
  text_eq_sound s (text "N/A"),
)

grade_of_text : (g : Grade) → IsMeasured g → grade_of (grade_text g) ≡ g
unfolding grade_of grade_text text_eq text
grade_of_text g (inl e) = rw e refl
grade_of_text g (inr (inl e)) = rw e refl
grade_of_text g (inr (inr (inl e))) = rw e refl
grade_of_text g (inr (inr (inr e))) = rw e refl

is_threshold-IsMeasured : (g : Grade) → is_threshold g ≡ true → IsMeasured g
unfolding is_threshold
is_threshold-IsMeasured grade_a h = inl refl
is_threshold-IsMeasured grade_b h = inr (inl refl)
is_threshold-IsMeasured grade_c h = inr (inr (inl refl))
is_threshold-IsMeasured grade_f h = inr (inr (inr refl))
is_threshold-IsMeasured g h = absurd (ground arith)

IsMeasured-is_threshold : (g : Grade) → IsMeasured g → is_threshold g ≡ true
unfolding is_threshold
IsMeasured-is_threshold g h = ground (arith, h)

resolve_min_grade-IsAsked :
    (flags : CheckFlags) (policy : Option Policy) (g : Grade)
    → (not (is_empty flags.min_grade) || flags.gate) ≡ true
    → resolve_min_grade flags policy ≡ ok g
    → IsAsked flags g
unfolding resolve_min_grade
resolve_min_grade-IsAsked flags policy g h k = record {
  measured = is_threshold-IsMeasured g (ground (arith, IsMeasured-is_threshold grade_a (inl refl)));
  named = λ e. ground (arith, text_grade_of (to_upper flags.min_grade));
  flagged = λ e. ground arith;
}

IsAsked-resolve_min_grade :
    (flags : CheckFlags) (policy : Option Policy) (g : Grade)
    → (not (is_empty flags.min_grade) || flags.gate) ≡ true
    → IsAsked flags g
    → resolve_min_grade flags policy ≡ ok g
unfolding resolve_min_grade
IsAsked-resolve_min_grade flags policy g h a =
    ground
      (arith, a.named, a.flagged, grade_of_text g a.measured, IsMeasured-is_threshold g a.measured)

-- Where the command line names a minimum grade or sets the flag, the policy has no say: the gate is
-- at a grade exactly when that grade is A, B, C or F and the one named, in upper or lower case, or A
-- where the flag stands alone. A minimum grade of N/A, or of anything else, is refused.
pub resolve_min_grade_iff :
    (flags : CheckFlags) (policy : Option Policy) (g : Grade)
    → (not (is_empty flags.min_grade) || flags.gate) ≡ true
    → (resolve_min_grade flags policy ≡ ok g) ↔ IsAsked flags g
resolve_min_grade_iff flags policy g h =
    (resolve_min_grade-IsAsked flags policy g h, IsAsked-resolve_min_grade flags policy g h)

failing_misses :
    (c : ReversibilityCertificate) (min_grade : Grade)
    → 1 ≤ pos_part (rank min_grade)
    → c.outcome ≢ no_candidates
    → IsFailing c
    → exit_code (apply_gate c min_grade).1 ≢ 0
unfolding rank gated_grade
failing_misses c min_grade h n f e =
    let g = (apply_gate-IsMet c min_grade e).graded (ground arith) n in ground (arith, f.effective)

-- A broken run does not pass a gate at A, B or C: if `check` exits 0 on the certificate of
-- `Certify` and the changeset held candidates, then `Certify` reported no error.
pub check_gate_sound :
    (hash : List ℕ → Text) (e : Engine) (cancelled : Option Text) (files : List ChangedFile)
    (config : RunConfig) (min_grade : Grade)
    → 1 ≤ pos_part (rank min_grade)
    → (certify hash e cancelled files config).0.outcome ≢ no_candidates
    → exit_code (apply_gate (certify hash e cancelled files config).0 min_grade).1 ≡ 0
    → (certify hash e cancelled files config).1 ≡ none
check_gate_sound hash e cancelled files config min_grade h n x =
    elim (Option-cases (certify hash e cancelled files config).1) [
      | inl k ↦ k
      | inr (why, k) ↦ absurd (
          failing_misses _ min_grade h n
            (certify-IsFailing hash e cancelled files config (λ z. ground arith)) x)
    ]
