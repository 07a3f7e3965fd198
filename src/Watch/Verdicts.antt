-- ===== src/Watch/Verdicts.antt =====
-- src/odin-watch/classifier.ts: when the classifier lets ODIN sleep.
use odin_sentinel.Base.{
  ◌≡◌, refl, inl, inr, Bool, true, false, not, ◌&&◌, ◌||◌, none, some, List, Text, is_empty, arith,
  subst, Bool-cases, Option-cases,
}
use odin_sentinel.Watch.Classifier.{
  working, Input, Result, approval_strings, crash_strings, qa_complete_strings,
  dev_complete_strings, blocker_strings, contains_any, numbered_option, works, out_of_scope,
  audit_due, unchanged_past_stale, signal, observation_valid,
}
use odin_sentinel.Watch.Rules.{by_liveness, by_state, by_marker, classify}

-- None of the markers is on the screen.
abbrev pub clean : Text → List Text → Bool
clean screen markers = elim (contains_any screen markers) [ none ↦ true | some m ↦ false ]

unfoldable pub unmarked : Input → Bool
unmarked i =
    clean i.screen crash_strings
    && clean i.screen qa_complete_strings
    && clean i.screen dev_complete_strings
    && clean i.screen blocker_strings

-- A new artifact or a recent payload, or the screen of a working agent that is not stale.
unfoldable pub evidence : Input → Bool
evidence i =
    signal (λ s. s.artifact_advanced) i.liveness
    || signal (λ s. s.recent_attempt_payload) i.liveness
    || (works i.screen && not (unchanged_past_stale i))

unfoldable pub quiet : Input → Bool
unfolding unmarked evidence
quiet i =
    not (audit_due i)
    && clean i.screen approval_strings
    && not (numbered_option i.screen)
    && unmarked i
    && is_empty (out_of_scope i.write_scope i.dirty_paths)
    && observation_valid i.liveness
    && evidence i

-- The answer lets ODIN sleep just if `b`, and says then that the agent works.
pub record Sleeps (b : Bool) (r : Result) : Type 0 where
  pub wake : r.wake ≡ not b
  pub works : b ≡ true → r.verdict ≡ working

by_liveness-Sleeps : (i : Input) (dirty : List Text) → Sleeps (evidence i) (by_liveness i dirty)
unfolding by_liveness evidence
by_liveness-Sleeps i dirty = record { wake = ground arith; works = λ h. ground (arith, h) }

by_state-Sleeps :
    (i : Input) (dirty : List Text)
    → Sleeps (is_empty dirty && observation_valid i.liveness && evidence i) (by_state i dirty)
unfolding by_state
by_state-Sleeps i dirty = elim (Bool-cases (is_empty dirty)) [
  | inr h ↦ simp (by_state, h) (record { wake = refl; works = λ e. ground (arith, e) })
  | inl h ↦ elim (Bool-cases (observation_valid i.liveness)) [
    | inl v ↦ simp (by_state, h, v) (by_liveness-Sleeps i dirty)
    | inr v ↦ simp (by_state, h, v) (record { wake = ground arith; works = λ e. ground arith })
  ]
]

by_marker-Sleeps :
    (i : Input) (dirty : List Text)
    → Sleeps
        (unmarked i && is_empty dirty && observation_valid i.liveness && evidence i)
        (by_marker i dirty)
unfolding by_marker unmarked
by_marker-Sleeps i dirty = elim (Option-cases (contains_any i.screen crash_strings)) [
  | inr (m, h) ↦ simp (by_marker, h) (record { wake = ground arith; works = λ e. ground arith })
  | inl a ↦ elim (Option-cases (contains_any i.screen qa_complete_strings)) [
    | inr (m, h) ↦
        simp (by_marker, a, h) (record { wake = ground arith; works = λ e. ground arith })
    | inl b ↦ elim (Option-cases (contains_any i.screen dev_complete_strings)) [
      | inr (m, h) ↦
          simp (by_marker, a, b, h) (record { wake = ground arith; works = λ e. ground arith })
      | inl c ↦ elim (Option-cases (contains_any i.screen blocker_strings)) [
        | inr (m, h) ↦
            simp (by_marker, a, b, c, h) (record { wake = ground arith; works = λ e. ground arith })
        | inl d ↦
            simp (by_marker, a, b, c, d)
              (subst (λ x. Sleeps x (by_state i dirty)) (ground arith) (by_state-Sleeps i dirty))
      ]
    ]
  ]
]

-- For every snapshot: the classifier does not wake ODIN just if no mandatory audit is due, no marker
-- and no numbered option is on the screen, no dirty path is out of scope, the observation is valid, and
-- there is evidence of work; the verdict is then WORKING.
pub classify-Sleeps : (i : Input) → Sleeps (quiet i) (classify i)
unfolding classify quiet
classify-Sleeps i = elim (Bool-cases (audit_due i)) [
  | inl h ↦ simp (classify, h) (record { wake = ground arith; works = λ e. ground arith })
  | inr a ↦ elim (Option-cases (contains_any i.screen approval_strings)) [
    | inr (m, h) ↦ simp (classify, a, h) (record { wake = ground arith; works = λ e. ground arith })
    | inl b ↦ elim (Bool-cases (numbered_option i.screen)) [
      | inl h ↦ simp (classify, a, b, h) (record { wake = ground arith; works = λ e. ground arith })
      | inr c ↦
          simp (classify, a, b, c)
            (subst (λ x. Sleeps x (by_marker i (out_of_scope i.write_scope i.dirty_paths)))
              (ground arith) (by_marker-Sleeps i (out_of_scope i.write_scope i.dirty_paths)))
    ]
  ]
]
