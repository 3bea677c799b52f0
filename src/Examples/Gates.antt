-- ===== src/Examples/Gates.antt =====
-- The theorems on the gate of `check`, on small certificates.
use reversibility_engine.Prelude.Text.{text, to_upper}
use reversibility_engine.Prelude.Result.{ok}
use reversibility_engine.Prelude.{◌≡◌, ◌↔◌, refl, false, true, not, ◌||◌, is_empty, [], some}
use reversibility_engine.Domain.Grade.{grade_b, grade_c, grade_of}
use reversibility_engine.Engine.Broken.{failed_certificate}
use reversibility_engine.Cli.{CheckFlags, resolve_min_grade, exit_code, apply_gate}
use reversibility_engine.Cli.Gate.{IsMet, apply_gate_iff, resolve_min_grade_iff, IsAsked}
use reversibility_engine.Examples.Samples.{policy}

apply_gate_iff_example :
    (exit_code (apply_gate (failed_certificate [] (text "x")) grade_b).1 ≡ 0)
    ↔ IsMet (failed_certificate [] (text "x")) grade_b
apply_gate_iff_example = apply_gate_iff (failed_certificate [] (text "x")) grade_b

abbrev flags : CheckFlags
flags = record { gate = false; min_grade = text "c" }

asked : (not (is_empty flags.min_grade) || flags.gate) ≡ true
unfolding text
asked = refl

flags_accepted : resolve_min_grade flags (some policy) ≡ ok grade_c
unfolding resolve_min_grade grade_of to_upper text
flags_accepted = refl

resolve_min_grade_iff_example :
    (resolve_min_grade flags (some policy) ≡ ok grade_c) ↔ IsAsked flags grade_c
resolve_min_grade_iff_example = resolve_min_grade_iff flags (some policy) grade_c asked
