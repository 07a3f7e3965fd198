-- ===== src/Diagnostic/Fingerprints.antt =====
-- src/protocol/event-registry/diagnostic.ts: the result, against the list of observed fingerprints.
use odin_sentinel.Base.{
  ℕ, ◌+◌, ◌≤◌, ◌<◌, ◌≡◌, refl, ◌↔◌, inl, inr, Bool, true, false, ◌&&◌, Option, List, [], ◌∷◌, ◌++◌,
  Text, text, sym, ◌∙◌, arith, length, filter, is_empty, leb, ltb, not, Bool-cases,
}
use odin_sentinel.Registry.Lines.{append_assoc, append_nil}
use odin_sentinel.Diagnostic.{
  DisplacementCase, additional_fingerprints, is_true, additional, push_if, evaluate_displacement,
}

-- The additional fingerprints that a case shows.
abbrev pub shown : DisplacementCase → List Text
shown input = filter (λ fp. is_true (input.additional_signals fp)) additional_fingerprints

additional-filter :
    (signals : Text → Option Bool) (fps : List Text) (matched : List Text) (count : ℕ)
    → ((additional signals fps (matched, count)).0
        ≡ matched ++ filter (λ fp. is_true (signals fp)) fps)
      × ((additional signals fps (matched, count)).1
          ≡ count + length (filter (λ fp. is_true (signals fp)) fps))
unfolding additional
additional-filter signals [] matched count = (sym (append_nil matched), omega arith)
additional-filter signals (fp ∷ fps) matched count = elim (Bool-cases (is_true (signals fp))) [
  | inl h ↦
      let (a, b) = additional-filter signals fps (matched ++ (fp ∷ [])) (count + 1) in
      simp (additional, h)
        (
          a ∙ append_assoc matched (fp ∷ []) (filter (λ x. is_true (signals x)) fps),
          omega (arith, b),
        )
  | inr h ↦ let (a, b) = additional-filter signals fps matched count in simp (additional, h) (a, b)
]

-- The diagnosis, by what the case shows.
abbrev pub IsDisplaced : DisplacementCase → Type 0
IsDisplaced input =
    (is_empty input.required_terminal_outputs_missing ≡ false)
    × (3 < input.attempt_count)
    × (input.governance_growth_without_outcome_movement ≡ true)
    × (2 ≤ length (shown input))

decided :
    (missing growth : Bool) (attempts count k : ℕ)
    → count ≡ 0 + k
    → (not missing && ltb 3 attempts && growth && leb 2 count ≡ true)
      ↔ ((missing ≡ false) × (3 < attempts) × (growth ≡ true) × (2 ≤ k))
decided missing growth attempts count k h = (
  λ q. (ground arith, ground arith, ground arith, ground arith),
  λ p. ground (arith, p.0, p.1, p.2, p.3),
)

-- The result's matched fingerprints are the required ones that are met and then the additional ones
-- that the case shows, in the order of the lists, and their number is counted; the diagnosis is
-- positive just if all three required ones are met and two additional ones at least are shown.
pub evaluate_displacement-IsDisplaced :
    (input : DisplacementCase)
    → (((evaluate_displacement input).positive ≡ true) ↔ IsDisplaced input)
      × ((evaluate_displacement input).matched_fingerprints
          ≡ push_if input.governance_growth_without_outcome_movement (text "GD-FP-003") (
              push_if (ltb 3 input.attempt_count) (text "GD-FP-002") (
                push_if
                  (not (is_empty input.required_terminal_outputs_missing))
                  (text "GD-FP-001")
                  []))
            ++ shown input)
      × ((evaluate_displacement input).matched_count
          ≡ length ((evaluate_displacement input).matched_fingerprints))
unfolding evaluate_displacement
evaluate_displacement-IsDisplaced input =
    let (a, b) = additional-filter input.additional_signals additional_fingerprints _ 0 in
    (
      decided (is_empty input.required_terminal_outputs_missing)
          input.governance_growth_without_outcome_movement input.attempt_count _
          (length (shown input)) b,
      a,
      refl,
    )
