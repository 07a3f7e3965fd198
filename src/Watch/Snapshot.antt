-- ===== src/Watch/Snapshot.antt =====
-- src/odin-watch/snapshot.ts: the liveness signals, from what the probes observed. A number is an
-- integer or not finite.
use odin_sentinel.Base.{
  ℕ, ◌+◌, ◌-◌, ◌*◌, Bool, true, false, not, ◌&&◌, ◌||◌, Option, none, some, List, [], ◌∷◌, ◌++◌,
  Text, text, same, trim, split, length, all, any, is_empty, leb, ltb, ◌==◌, if◌then◌else◌, ℤ, pos,
  negsuc,
}
use odin_sentinel.Registry.Lines.{byte_length}
use odin_sentinel.Watch.Classifier.{Signals}

pub data Value : Type 0 where
  at_ms : ℤ → Value
  not_finite : Value

pub record PgrepResult : Type 0 where
  pub valid : Bool
  pub alive : Bool
  pub pid_count : ℕ
  pub reason_code : Option Text

pub record SnapshotInput : Type 0 where
  pub previous_artifact_revision : Option Text
  pub current_artifact_revision : Option Text
  pub attempt_payload_mtimes_ms : List Value
  pub now_ms : Value
  pub recent_payload_window_ms : Value
  pub runner_pgrep_output : Text

abbrev pub max_pid : ℕ
max_pid = 2147483647

abbrev pub max_pgrep_output_bytes : ℕ
max_pgrep_output_bytes = 4096

abbrev pub max_pgrep_pid_count : ℕ
max_pgrep_pid_count = 256

abbrev pub max_freshness_timestamp_ms : ℕ
max_freshness_timestamp_ms = 8640000000000000

abbrev pub max_freshness_window_ms : ℕ
max_freshness_window_ms = 86400000

abbrev pub max_artifact_revision_length : ℕ
max_artifact_revision_length = 256

unfoldable pub is_digit : ℕ → Bool
is_digit c = leb 48 c && leb c 57

-- /^[1-9]\d*$/.test(line)
unfoldable pub is_pid_line : Text → Bool
unfolding is_digit
is_pid_line [] = false
is_pid_line (c ∷ cs) = leb 49 c && leb c 57 && all is_digit cs

-- Number(line), of decimal digits.
unfoldable pub number_of : ℕ → Text → ℕ
number_of n [] = n
number_of n (c ∷ cs) = number_of (10 * n + (c - 48)) cs

-- A safe integer is one up to 2^53 - 1.
unfoldable pub is_bad_line : Text → Bool
unfolding is_pid_line number_of
is_bad_line line =
    if is_pid_line line
    then ltb 9007199254740991 (number_of 0 line) || ltb max_pid (number_of 0 line)
    else true

-- if (output.endsWith("\n")) output = output.slice(0, -1)
unfoldable pub without_newline : Text → Text
without_newline [] = []
without_newline (c ∷ []) = if c == 10 then [] else c ∷ []
without_newline (c ∷ d ∷ rest) = c ∷ without_newline (d ∷ rest)

abbrev pub invalid_pgrep : Text → PgrepResult
invalid_pgrep code = record { valid = false; alive = false; pid_count = 0; reason_code = some code }

unfoldable pub parse_pids : List Text → PgrepResult
unfolding is_bad_line
parse_pids lines =
    if ltb max_pgrep_pid_count (length lines)
    then invalid_pgrep (text "PGREP_PID_COUNT_EXCEEDED")
    else if any is_bad_line lines
    then invalid_pgrep (text "PGREP_OUTPUT_INVALID")
    else record {
      valid = true;
      alive = ltb 0 (length lines);
      pid_count = length lines;
      reason_code = none;
    }

unfoldable pub parse_runner_pgrep : Text → PgrepResult
unfolding parse_pids byte_length without_newline split
parse_runner_pgrep output =
    if ltb max_pgrep_output_bytes (byte_length output)
    then invalid_pgrep (text "PGREP_OUTPUT_TOO_LARGE")
    else if is_empty output
    then record { valid = true; alive = false; pid_count = 0; reason_code = none }
    else parse_pids (split 10 (without_newline output))

unfoldable pub is_upto : ℕ → Value → Bool
is_upto top not_finite = false
is_upto top (at_ms (negsuc n)) = false
is_upto top (at_ms (pos n)) = leb n top

unfoldable pub valid_timestamp : Value → Bool
unfolding is_upto
valid_timestamp v = is_upto max_freshness_timestamp_ms v

unfoldable pub valid_window : Value → Bool
unfolding is_upto
valid_window v = is_upto max_freshness_window_ms v

unfoldable pub valid_revision : Option Text → Bool
unfolding trim same
valid_revision none = true
valid_revision (some r) =
    ltb 0 (length r) && leb (length r) max_artifact_revision_length && same (trim r) r

-- The milliseconds of a value that has passed its test.
unfoldable pub amount : Value → ℕ
amount (at_ms (pos n)) = n
amount v = 0

unfoldable pub timestamps_valid : SnapshotInput → Bool
unfolding valid_timestamp valid_window amount
timestamps_valid i =
    valid_timestamp i.now_ms
    && valid_window i.recent_payload_window_ms
    && all (λ m. valid_timestamp m && leb (amount m) (amount i.now_ms)) i.attempt_payload_mtimes_ms

unfoldable pub same_revision : Option Text → Option Text → Bool
unfolding same
same_revision none none = true
same_revision none (some b) = false
same_revision (some a) none = false
same_revision (some a) (some b) = same a b

unfoldable pub is_given_revision : Option Text → Bool
is_given_revision none = false
is_given_revision (some r) = true

abbrev pub code_unless : Bool → Text → List Text
code_unless true code = []
code_unless false code = code ∷ []

-- reason_code ?? "PGREP_OUTPUT_INVALID"
unfoldable pub pgrep_code : Option Text → Text
pgrep_code none = text "PGREP_OUTPUT_INVALID"
pgrep_code (some code) = code

unfoldable pub diagnostic_codes : SnapshotInput → List Text
unfolding parse_runner_pgrep timestamps_valid valid_revision pgrep_code
diagnostic_codes i =
    code_unless ((parse_runner_pgrep i.runner_pgrep_output).valid)
      (pgrep_code ((parse_runner_pgrep i.runner_pgrep_output).reason_code))
    ++ (code_unless (timestamps_valid i) (text "FRESHNESS_OBSERVATION_INVALID")
        ++ code_unless
            (valid_revision i.previous_artifact_revision
              && valid_revision i.current_artifact_revision)
            (text "ARTIFACT_REVISION_INVALID"))

unfoldable pub recent_payload : SnapshotInput → Bool
unfolding amount
recent_payload i =
    any (λ m. leb (amount i.now_ms - amount m) (amount i.recent_payload_window_ms))
      i.attempt_payload_mtimes_ms

unfoldable pub create_liveness_snapshot : SnapshotInput → Signals
unfolding diagnostic_codes parse_runner_pgrep timestamps_valid valid_revision same_revision
    is_given_revision recent_payload
create_liveness_snapshot i = record {
  artifact_advanced =
      valid_revision i.previous_artifact_revision
      && valid_revision i.current_artifact_revision
      && is_given_revision i.current_artifact_revision
      && not (same_revision i.current_artifact_revision i.previous_artifact_revision);
  recent_attempt_payload = timestamps_valid i && recent_payload i;
  runner_alive =
      if (parse_runner_pgrep i.runner_pgrep_output).valid
      then some ((parse_runner_pgrep i.runner_pgrep_output).alive)
      else none;
  observation_valid = is_empty (diagnostic_codes i);
  diagnostic_reason_codes = diagnostic_codes i;
}
