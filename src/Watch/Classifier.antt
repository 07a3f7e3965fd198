-- ===== src/Watch/Classifier.antt =====
-- src/odin-watch/classifier.ts: the ordered rules, the first that matches wins. The text of a
-- reason is its constructor; the marker that a rule found is kept.
use odin_sentinel.Base.{
  ℕ, ◌+◌, Bool, true, false, not, ◌&&◌, ◌||◌, Option, none, some, List, [], ◌∷◌, ◌++◌, Text, text,
  same, any, is_empty, filter, starts_with, includes, is_space, ltb, leb, ◌==◌, if◌then◌else◌,
}

pub data WakeVerdict : Type 0 where
  working idle crashed blocked waiting_approval unknown_needs_read : WakeVerdict
  qa_complete dev_complete_qa_pending : WakeVerdict

pub data BudgetClass : Type 0 where
  silent compact diagnostic forensic : BudgetClass

pub data ReasonCode : Type 0 where
  mandatory_audit approval_marker crash_marker completion_marker blocker_marker : ReasonCode
  invalid_liveness_observation liveness_mimic runner_alive_no_advancement : ReasonCode
  artifact_advanced_code recent_attempt_code stale_hash runner_not_alive all_clear ambiguous :
      ReasonCode
  dirty_out_of_scope_at : Text → ReasonCode
  observed : Text → ReasonCode

pub record Signals : Type 0 where
  pub artifact_advanced : Bool
  pub recent_attempt_payload : Bool
  pub runner_alive : Option Bool
  pub observation_valid : Bool
  pub diagnostic_reason_codes : List Text

pub record Input : Type 0 where
  pub screen : Text
  pub hash : Text
  pub prev_hash : Option Text
  pub elapsed_ms : ℕ
  pub now_ms : ℕ
  pub mandatory_audit_interval_ms : ℕ
  pub stale_threshold_ms : ℕ
  pub write_scope : List Text
  pub dirty_paths : List Text
  pub last_verdict : Option WakeVerdict
  pub last_mandatory_audit_ts : Option ℕ
  pub liveness : Option Signals

pub record Result : Type 0 where
  pub verdict : WakeVerdict
  pub wake : Bool
  pub reason_codes : List ReasonCode
  pub prompt_budget_class : BudgetClass
  pub dirty_out_of_scope : List Text
  pub last_marker : Option Text
  pub mimic : Bool

abbrev pub approval_strings : List Text
approval_strings =
    text "Proceed with the proposal"
    ∷ text "Proceed with comment"
    ∷ text "No and explain why"
    ∷ text "Enter Select"
    ∷ []

abbrev pub crash_strings : List Text
crash_strings =
    text "panic"
    ∷ text "stack trace"
    ∷ text "program experienced a panic"
    ∷ text "TUI run error"
    ∷ text "fatal error"
    ∷ []

abbrev pub qa_complete_strings : List Text
qa_complete_strings = text "QA COMPLETE" ∷ text "QA_COMPLETE" ∷ []

abbrev pub dev_complete_strings : List Text
dev_complete_strings =
    text "DEV_COMPLETE_QA_PENDING" ∷ text "implementation complete" ∷ text "ready for QA" ∷ []

abbrev pub blocker_strings : List Text
blocker_strings =
    text "BLOCKED"
    ∷ text "cannot proceed"
    ∷ text "missing"
    ∷ text "permission denied"
    ∷ text "need approval"
    ∷ text "SPEC-AMENDMENT"
    ∷ text "non-fast-forward"
    ∷ []

unfoldable pub contains_any : Text → List Text → Option Text
unfolding includes
contains_any t [] = none
contains_any t (marker ∷ markers) =
    let rest = contains_any t markers in if includes t marker then some marker else rest

is_digit : ℕ → Bool
is_digit c = leb b'0' c && leb c b'9'

starts_blank : Text → Bool
unfolding is_space
starts_blank [] = false
starts_blank (c ∷ cs) = is_space c

-- The rest of the digits, a full stop and a white-space character.
numbered_rest : Text → Bool
unfolding is_digit starts_blank
numbered_rest [] = false
numbered_rest (c ∷ cs) =
    let rest = numbered_rest cs in if c == 46 then starts_blank cs else is_digit c && rest

numbered_here : Text → Bool
unfolding is_digit numbered_rest
numbered_here [] = false
numbered_here (c ∷ cs) = is_digit c && numbered_rest cs

is_line_end : ℕ → Bool
is_line_end c = any (λ e. e == c) (10 ∷ 13 ∷ 0x2028 ∷ 0x2029 ∷ [])

numbered_after : Text → Bool
unfolding numbered_here is_line_end
numbered_after [] = false
numbered_after (c ∷ cs) = (is_line_end c && numbered_here cs) || numbered_after cs

-- NUMBERED_OPTION_RE.test(text)
unfoldable pub numbered_option : Text → Bool
unfolding numbered_here numbered_after
numbered_option t = numbered_here t || numbered_after t

abbrev spinner : List ℕ
spinner =
    0x280B ∷ 0x2819 ∷ 0x2839 ∷ 0x2838 ∷ 0x283C ∷ 0x2834 ∷ 0x2826 ∷ 0x2827 ∷ 0x2807 ∷ 0x280F ∷ []

abbrev working_strings : List Text
working_strings =
    text "..."
    ∷ text "Running"
    ∷ text "Generating"
    ∷ text "Compiling"
    ∷ text "Building"
    ∷ text "Installing"
    ∷ text "Fetching"
    ∷ text "Downloading"
    ∷ text "Uploading"
    ∷ text "Processing"
    ∷ text "Streaming"
    ∷ text "Writing"
    ∷ text "Thinking"
    ∷ []

-- WORKING_RE.test(text)
unfoldable pub works : Text → Bool
unfolding includes
works t = any (λ c. any (λ d. d == c) spinner) t || any (includes t) working_strings

-- rawScope.replace(/\/+$/, "")
unfoldable pub without_slashes : Text → Text
without_slashes [] = []
without_slashes (c ∷ cs) =
    let rest = without_slashes cs in if is_empty rest && (c == 47) then [] else c ∷ rest

unfoldable pub in_scope : Text → Text → Bool
unfolding without_slashes same starts_with
in_scope path raw =
    let scope = without_slashes raw in
    not (is_empty scope) && (same path scope || starts_with path (scope ++ (47 ∷ [])))

unfoldable pub out_of_scope : List Text → List Text → List Text
unfolding in_scope
out_of_scope [] dirty = []
out_of_scope (scope ∷ scopes) dirty =
    filter (λ path. not (any (in_scope path) (scope ∷ scopes))) dirty

-- Rule 1: now - last >= interval, which is false if the clock went back.
unfoldable pub audit_due : Input → Bool
audit_due i = elim i.last_mandatory_audit_ts [
  | none ↦ leb i.mandatory_audit_interval_ms i.elapsed_ms
  | some last ↦ leb (last + i.mandatory_audit_interval_ms) i.now_ms
]

unfoldable pub unchanged_past_stale : Input → Bool
unfolding same
unchanged_past_stale i = elim i.prev_hash [
  | none ↦ false
  | some h ↦ same h i.hash && ltb i.stale_threshold_ms i.elapsed_ms
]

-- A signal, where there are signals.
abbrev pub signal : (Signals → Bool) → Option Signals → Bool
signal f none = false
signal f (some s) = f s

abbrev pub is_alive : Signals → Bool
is_alive s = elim s.runner_alive [ some true ↦ true | _ ↦ false ]

abbrev pub is_dead : Signals → Bool
is_dead s = elim s.runner_alive [ some false ↦ true | _ ↦ false ]

-- liveness?.observation_valid !== false
unfoldable pub observation_valid : Option Signals → Bool
observation_valid none = true
observation_valid (some s) = s.observation_valid

unfoldable pub diagnostics : Option Signals → List Text
diagnostics none = []
diagnostics (some s) = s.diagnostic_reason_codes

abbrev pub codes_if : Bool → ReasonCode → List ReasonCode
codes_if true c = c ∷ []
codes_if false c = []

abbrev pub report :
    WakeVerdict → Bool → List ReasonCode → BudgetClass → List Text → Option Text → Result
report verdict wake codes budget dirty marker = record {
  verdict = verdict;
  wake = wake;
  reason_codes = codes;
  prompt_budget_class = budget;
  dirty_out_of_scope = dirty;
  last_marker = marker;
  mimic = false;
}
