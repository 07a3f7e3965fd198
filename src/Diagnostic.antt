-- ===== src/Diagnostic.antt =====
-- src/protocol/event-registry/diagnostic.ts: the displacement diagnostic GD-DIAG-001.
pub mod Fingerprints
pub mod Examples
use odin_sentinel.Base.{
  ℕ, suc, ◌+◌, Bool, true, false, ◌&&◌, Option, none, some, List, [], ◌∷◌, ◌++◌, Text, text, length,
  is_empty, leb, ltb, not, if◌then◌else◌,
}

-- additional_signals[fp]; `none` is undefined.
pub record DisplacementCase : Type 0 where
  pub required_terminal_outputs_missing : List Text
  pub attempt_count : ℕ
  pub governance_growth_without_outcome_movement : Bool
  pub additional_signals : Text → Option Bool

pub record DisplacementResult : Type 0 where
  pub positive : Bool
  pub matched_fingerprints : List Text
  pub matched_count : ℕ
  pub required_met : Bool
  pub additional_met : Bool

abbrev pub additional_fingerprints : List Text
additional_fingerprints =
    text "GD-FP-004"
    ∷ text "GD-FP-005"
    ∷ text "GD-FP-006"
    ∷ text "GD-FP-007"
    ∷ text "GD-FP-008"
    ∷ text "GD-FP-009"
    ∷ text "GD-FP-010"
    ∷ text "GD-FP-011"
    ∷ text "GD-FP-012"
    ∷ text "GD-FP-013"
    ∷ []

abbrev pub additional_minimum : ℕ
additional_minimum = 2

abbrev pub is_true : Option Bool → Bool
is_true (some true) = true
is_true (some false) = false
is_true none = false

-- for (const fp of ADDITIONAL_FINGERPRINTS): the matched ones, and their number.
unfoldable pub additional : (Text → Option Bool) → List Text → List Text × ℕ → List Text × ℕ
additional signals [] (matched, count) = (matched, count)
additional signals (fp ∷ rest) (matched, count) =
    additional signals rest
      (if is_true (signals fp) then (matched ++ (fp ∷ []), count + 1) else (matched, count))

-- if (met) matched.push(fp)
unfoldable pub push_if : Bool → Text → List Text → List Text
push_if true fp matched = matched ++ (fp ∷ [])
push_if false fp matched = matched

unfoldable pub evaluate_displacement : DisplacementCase → DisplacementResult
unfolding additional push_if
evaluate_displacement input =
    let fp001 = not (is_empty input.required_terminal_outputs_missing) in
    let fp002 = ltb 3 input.attempt_count in
    let fp003 = input.governance_growth_without_outcome_movement in
    let required =
      push_if fp003 (text "GD-FP-003")
        (push_if fp002 (text "GD-FP-002") (push_if fp001 (text "GD-FP-001") [])) in
    let (matched, count) =
      additional input.additional_signals additional_fingerprints (required, 0) in
    record {
      positive = fp001 && fp002 && fp003 && leb additional_minimum count;
      matched_fingerprints = matched;
      matched_count = length matched;
      required_met = fp001 && fp002 && fp003;
      additional_met = leb additional_minimum count;
    }

unfoldable pub is_displacement_positive : DisplacementCase → Bool
unfolding evaluate_displacement
is_displacement_positive input = (evaluate_displacement input).positive
