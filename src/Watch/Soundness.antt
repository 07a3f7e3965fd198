-- ===== src/Watch/Soundness.antt =====
-- src/odin-watch/snapshot.ts: the observations that a snapshot is made of, and what the classifier does
-- where they cannot be used.
use odin_sentinel.Base.{
  ℕ, ◌≤◌, ◌<◌, ◌≡◌, refl, inl, inr, Bool, true, false, not, ◌&&◌, Option, none, some, List, [], ◌∷◌,
  ◌++◌, Text, text, ap, ◌∙◌, arith, ltb, leb, not_ltb→le, Bool-cases, length, split, is_empty, All,
  trim, same, same_iff, pos, negsuc, all,
}
use odin_sentinel.Registry.Lines.{byte_length}
use odin_sentinel.Watch.Classifier.{Input, observation_valid}
use odin_sentinel.Watch.Rules.{classify}
use odin_sentinel.Watch.Verdicts.{quiet, classify-Sleeps}
use odin_sentinel.Watch.Snapshot.{
  Value, at_ms, not_finite, SnapshotInput, max_pgrep_output_bytes, without_newline,
  parse_runner_pgrep, is_upto, valid_timestamp, valid_window, valid_revision, amount,
  timestamps_valid, code_unless, pgrep_code, diagnostic_codes, create_liveness_snapshot,
}
use odin_sentinel.Watch.Probes.{IsPid, parse_pids-valid}

-- The output of the runner's probe: nothing, or up to 256 lines of process ids.
pub record IsPidList (output : Text) : Type 0 where
  pub short : byte_length output ≤ 4096
  pub lines :
      is_empty output ≡ false
      → (length (split 10 (without_newline output)) ≤ 256)
        × All IsPid (split 10 (without_newline output))

-- An instant or a length of time, in whole milliseconds, up to a bound.
abbrev pub IsWithin : ℕ → Value → Type 0
IsWithin top v = (n : ℕ) × (v ≡ at_ms (pos n)) × (n ≤ top)

abbrev pub IsRevision : Option Text → Type 0
IsRevision none = Unit
IsRevision (some r) = (0 < length r) × (length r ≤ 256) × (trim r ≡ r)

-- Observations that can be used: a list of process ids, instants of JavaScript's range with no payload
-- later than now, a window of a day at most, and trimmed revisions.
pub record IsSound (s : SnapshotInput) : Type 0 where
  pub probe : IsPidList s.runner_pgrep_output
  pub now : IsWithin 8640000000000000 s.now_ms
  pub window : IsWithin 86400000 s.recent_payload_window_ms
  pub payloads : All (IsWithin now.0) s.attempt_payload_mtimes_ms
  pub previous : IsRevision s.previous_artifact_revision
  pub current : IsRevision s.current_artifact_revision

and_parts : (a b : Bool) → (a && b) ≡ true → (a ≡ true) × (b ≡ true)
and_parts true b h = (refl, h)
and_parts false b h = ground arith

parse_runner_pgrep-IsPidList :
    (output : Text) → (parse_runner_pgrep output).valid ≡ true → IsPidList output
unfolding parse_runner_pgrep
parse_runner_pgrep-IsPidList output h =
    elim (Bool-cases (ltb max_pgrep_output_bytes (byte_length output))) [
      | inl c ↦ ground (arith, simp (parse_runner_pgrep, c) at h)
      | inr c ↦ record {
        short = not_ltb→le _ _ c;
        lines = λ e.
            let (few, count, alive, pids) =
              parse_pids-valid (split 10 (without_newline output))
                (simp (parse_runner_pgrep, c, e) at h) in
            (few, pids);
      }
    ]

is_upto-IsWithin : (top : ℕ) (v : Value) → is_upto top v ≡ true → IsWithin top v
unfolding is_upto
is_upto-IsWithin top (at_ms (pos n)) h = (n, refl, ground (arith, h))
is_upto-IsWithin top (at_ms (negsuc n)) h = ground arith
is_upto-IsWithin top not_finite h = ground arith

amount-le : (m : Value) (k n : ℕ) → IsWithin k m → leb (amount m) n ≡ true → IsWithin n m
unfolding amount
amount-le (at_ms (pos a)) k n w h = (a, refl, ground (arith, h))
amount-le (at_ms (negsuc a)) k n (b, q, _) h = (b, q, ground (arith, q))
amount-le not_finite k n (b, q, _) h = (b, q, ground (arith, q))

payloads-IsWithin :
    (now : ℕ) (l : List Value)
    → all (λ m. valid_timestamp m && leb (amount m) now) l ≡ true
    → All (IsWithin now) l
unfolding valid_timestamp
payloads-IsWithin now [] h = tt
payloads-IsWithin now (m ∷ l) h =
    let (one, rest) = and_parts (valid_timestamp m && leb (amount m) now) _ h in
    let (valid, early) = and_parts (valid_timestamp m) (leb (amount m) now) one in
    (
      amount-le m 8640000000000000 now (is_upto-IsWithin 8640000000000000 m valid) early,
      payloads-IsWithin now l rest,
    )

valid_revision-IsRevision : (r : Option Text) → valid_revision r ≡ true → IsRevision r
unfolding valid_revision
valid_revision-IsRevision none h = tt
valid_revision-IsRevision (some r) h =
    let (sized, trimmed) = and_parts (ltb 0 (length r) && leb (length r) 256) (same (trim r) r) h in
    (ground (arith, sized), ground (arith, sized), (same_iff (trim r) r).0 trimmed)

-- No diagnostic: each of the three tests has passed.
codes_none :
    (a b c : Bool) (x y z : Text)
    → is_empty (code_unless a x ++ (code_unless b y ++ code_unless c z)) ≡ true
    → (a ≡ true) × (b ≡ true) × (c ≡ true)
codes_none true true true x y z h = (refl, refl, refl)
codes_none false b c x y z h = ground arith
codes_none true false c x y z h = ground arith
codes_none true true false x y z h = ground arith

module _ (s : SnapshotInput) where
  diagnostic_codes-tests :
      is_empty (diagnostic_codes s) ≡ true
      → ((parse_runner_pgrep s.runner_pgrep_output).valid ≡ true)
        × (timestamps_valid s ≡ true)
        × ((valid_revision s.previous_artifact_revision
              && valid_revision s.current_artifact_revision)
            ≡ true)
  unfolding diagnostic_codes
  diagnostic_codes-tests h =
      codes_none ((parse_runner_pgrep s.runner_pgrep_output).valid) (timestamps_valid s)
        (valid_revision s.previous_artifact_revision && valid_revision s.current_artifact_revision)
        (pgrep_code ((parse_runner_pgrep s.runner_pgrep_output).reason_code))
        (text "FRESHNESS_OBSERVATION_INVALID") (text "ARTIFACT_REVISION_INVALID") h

  diagnostic_codes-IsSound : is_empty (diagnostic_codes s) ≡ true → IsSound s
  unfolding timestamps_valid valid_timestamp valid_window amount
  diagnostic_codes-IsSound h =
      let (alive, times, revisions) = diagnostic_codes-tests h in
      let (clock, payloads) =
        and_parts (valid_timestamp s.now_ms && valid_window s.recent_payload_window_ms) _ times in
      let (now, window) =
        and_parts (valid_timestamp s.now_ms) (valid_window s.recent_payload_window_ms) clock in
      let (previous, current) = and_parts _ _ revisions in
      let (n, q, top) = is_upto-IsWithin 8640000000000000 s.now_ms now in
      record {
        probe = parse_runner_pgrep-IsPidList s.runner_pgrep_output alive;
        now = (n, q, top);
        window = is_upto-IsWithin 86400000 s.recent_payload_window_ms window;
        payloads = payloads-IsWithin n s.attempt_payload_mtimes_ms (rw q at payloads);
        previous = valid_revision-IsRevision s.previous_artifact_revision previous;
        current = valid_revision-IsRevision s.current_artifact_revision current;
      }

unusable : (i : Input) → observation_valid i.liveness ≡ false → quiet i ≡ false
unfolding quiet
unusable i o = ground (arith, o)

-- A snapshot of observations that cannot be used wakes ODIN, whatever else is observed: of a probe that
-- is too long, has too many lines or a line that is no process id, of an instant, a payload's time or a
-- window that is no whole number of milliseconds or out of its bounds, or of an artifact revision that
-- is empty, too long or not trimmed.
pub create_liveness_snapshot-wake :
    (i : Input) (s : SnapshotInput)
    → i.liveness ≡ some (create_liveness_snapshot s)
    → (IsSound s → ⊥)
    → (classify i).wake ≡ true
unfolding create_liveness_snapshot observation_valid
create_liveness_snapshot-wake i s h broken = elim (Bool-cases (is_empty (diagnostic_codes s))) [
  | inl c ↦ absurd (broken (diagnostic_codes-IsSound s c))
  | inr c ↦
      let o : observation_valid i.liveness ≡ false = ap observation_valid h ∙ c in
      (classify-Sleeps i).wake ∙ ap not (unusable i o)
]
