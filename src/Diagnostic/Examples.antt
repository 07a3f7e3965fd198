-- ===== src/Diagnostic/Examples.antt =====
-- src/protocol/event-registry/diagnostic.ts: a displaced case.
use odin_sentinel.Base.{◌≡◌, refl, ◌↔◌, true, not, some, [], ◌∷◌, ◌++◌, text, length, ltb, is_empty}
use odin_sentinel.Diagnostic.{DisplacementCase, evaluate_displacement, push_if}
use odin_sentinel.Diagnostic.Fingerprints.{IsDisplaced, shown, evaluate_displacement-IsDisplaced}

abbrev displaced : DisplacementCase
displaced = record {
  required_terminal_outputs_missing = text "release" ∷ [];
  attempt_count = 4;
  governance_growth_without_outcome_movement = true;
  additional_signals = λ fp. some true;
}

evaluate_displacement-IsDisplaced_example :
    (((evaluate_displacement displaced).positive ≡ true) ↔ IsDisplaced displaced)
    × ((evaluate_displacement displaced).matched_fingerprints
        ≡ push_if displaced.governance_growth_without_outcome_movement (text "GD-FP-003") (
            push_if (ltb 3 displaced.attempt_count) (text "GD-FP-002") (
              push_if
                (not (is_empty displaced.required_terminal_outputs_missing))
                (text "GD-FP-001")
                []))
          ++ shown displaced)
    × ((evaluate_displacement displaced).matched_count
        ≡ length ((evaluate_displacement displaced).matched_fingerprints))
evaluate_displacement-IsDisplaced_example = evaluate_displacement-IsDisplaced displaced

all_thirteen : (evaluate_displacement displaced).matched_count ≡ 13
unfolding evaluate_displacement
all_thirteen = refl
