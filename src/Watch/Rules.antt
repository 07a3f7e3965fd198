-- ===== src/Watch/Rules.antt =====
-- src/odin-watch/classifier.ts: the rules in their order.
use odin_sentinel.Base.{
  true, false, not, ◌&&◌, ◌||◌, none, some, List, [], ◌∷◌, ◌++◌, Text, text, is_empty, map,
  if◌then◌else◌,
}
use odin_sentinel.Watch.Classifier.{
  working, idle, crashed, blocked, waiting_approval, unknown_needs_read, qa_complete,
  dev_complete_qa_pending, silent, compact, diagnostic, forensic, mandatory_audit, approval_marker,
  crash_marker, completion_marker, blocker_marker, invalid_liveness_observation, liveness_mimic,
  runner_alive_no_advancement, artifact_advanced_code, recent_attempt_code, stale_hash,
  runner_not_alive, all_clear, ambiguous, dirty_out_of_scope_at, observed, Input, Result,
  approval_strings, crash_strings, qa_complete_strings, dev_complete_strings, blocker_strings,
  contains_any, numbered_option, works, out_of_scope, audit_due, unchanged_past_stale, signal,
  is_alive, is_dead, codes_if, report, observation_valid, diagnostics,
}

-- Rules 7 to 10 and the remaining case.
unfoldable pub by_liveness : Input → List Text → Result
unfolding unchanged_past_stale works
by_liveness i dirty =
    let advanced = signal (λ s. s.artifact_advanced) i.liveness in
    let attempted = signal (λ s. s.recent_attempt_payload) i.liveness in
    let stale = unchanged_past_stale i in
    if signal (λ s. true) i.liveness && stale && works i.screen && not advanced && not attempted
    then record (report unknown_needs_read true
        (liveness_mimic ∷ codes_if (signal is_alive i.liveness) runner_alive_no_advancement)
        diagnostic dirty none) { mimic = true }
    else if advanced || attempted
    then report working false
        (codes_if advanced artifact_advanced_code ++ codes_if attempted recent_attempt_code) silent
        dirty none
    else if stale
    then report idle true (stale_hash ∷ codes_if (signal is_dead i.liveness) runner_not_alive)
        compact dirty none
    else if works i.screen
    then report working false (all_clear ∷ []) silent dirty none
    else report unknown_needs_read true (ambiguous ∷ []) compact dirty none

-- Rule 6, and observations that are not valid.
unfoldable pub by_state : Input → List Text → Result
unfolding by_liveness
by_state i dirty =
    if not (is_empty dirty)
    then report blocked true (map dirty_out_of_scope_at dirty) diagnostic dirty none
    else if observation_valid i.liveness
    then by_liveness i dirty
    else report unknown_needs_read true
        (invalid_liveness_observation ∷ map observed (diagnostics i.liveness)) diagnostic dirty none

-- Rules 3 to 5.
unfoldable pub by_marker : Input → List Text → Result
unfolding contains_any by_state
by_marker i dirty = elim (contains_any i.screen crash_strings) [
  | some m ↦ report crashed true (crash_marker ∷ []) forensic dirty (some m)
  | none ↦ elim (contains_any i.screen qa_complete_strings) [
    | some m ↦ report qa_complete true (completion_marker ∷ []) compact dirty (some m)
    | none ↦ elim (contains_any i.screen dev_complete_strings) [
      | some m ↦ report dev_complete_qa_pending true (completion_marker ∷ []) compact dirty (some m)
      | none ↦ elim (contains_any i.screen blocker_strings) [
        | some m ↦ report blocked true (blocker_marker ∷ []) diagnostic dirty (some m)
        | none ↦ by_state i dirty
      ]
    ]
  ]
]

-- Rules 1 and 2, then the others.
unfoldable pub classify : Input → Result
unfolding audit_due out_of_scope contains_any numbered_option by_marker
classify i =
    let dirty = out_of_scope i.write_scope i.dirty_paths in
    if audit_due i
    then report (elim i.last_verdict [ none ↦ unknown_needs_read | some v ↦ v ]) true
        (mandatory_audit ∷ []) compact dirty none
    else elim (contains_any i.screen approval_strings) [
      | some m ↦ report waiting_approval true (approval_marker ∷ []) diagnostic dirty (some m)
      | none ↦
          if numbered_option i.screen
          then report waiting_approval true (approval_marker ∷ []) diagnostic dirty
              (some (text "numbered interactive option"))
          else by_marker i dirty
    ]
