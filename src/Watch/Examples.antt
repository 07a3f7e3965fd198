-- ===== src/Watch/Examples.antt =====
-- src/odin-watch/classifier.ts: a snapshot of a working agent.
use odin_sentinel.Base.{true, Text, pos, ◌++◌, false, none, some, [], ◌∷◌, text, ◌≡◌, refl, arith}
use odin_sentinel.Watch.Snapshot.{
  SnapshotInput, at_ms, parse_runner_pgrep, create_liveness_snapshot,
}
use odin_sentinel.Watch.Probes.{IsProbe, parse_runner_pgrep-IsProbe}
use odin_sentinel.Watch.Soundness.{IsSound, create_liveness_snapshot-wake}
use odin_sentinel.Watch.Classifier.{Input, in_scope}
use odin_sentinel.Watch.Rules.{classify}
use odin_sentinel.Watch.Verdicts.{Sleeps, quiet, classify-Sleeps}

abbrev at_work : Input
at_work = record {
  screen = text "Compiling the crate";
  hash = text "b";
  prev_hash = some (text "a");
  elapsed_ms = 100;
  now_ms = 1000;
  mandatory_audit_interval_ms = 500;
  stale_threshold_ms = 50;
  write_scope = text "src/a/" ∷ [];
  dirty_paths = text "src/a/x.ts" ∷ [];
  last_verdict = none;
  last_mandatory_audit_ts = some 900;
  liveness = none;
}

classify-Sleeps_example : Sleeps (quiet at_work) (classify at_work)
classify-Sleeps_example = classify-Sleeps at_work

sibling_prefix : in_scope (text "src/a-evil/x.ts") (text "src/a/") ≡ false
unfolding in_scope
sibling_prefix = refl

-- Observations with an empty revision, and a probe that found two processes.
abbrev probe : SnapshotInput
probe = record {
  previous_artifact_revision = some (text "r1");
  current_artifact_revision = some [];
  attempt_payload_mtimes_ms = [];
  now_ms = at_ms (pos 1000);
  recent_payload_window_ms = at_ms (pos 500);
  runner_pgrep_output = text "41";
}

abbrev two_pids : Text
two_pids = text "41" ++ (10 ∷ (text "1207" ++ (10 ∷ [])))

parse_runner_pgrep-IsProbe_example : IsProbe two_pids (parse_runner_pgrep two_pids)
unfolding parse_runner_pgrep
parse_runner_pgrep-IsProbe_example = parse_runner_pgrep-IsProbe two_pids refl

abbrev unusable : Input
unusable = record {
  screen = text "Compiling the crate";
  hash = text "b";
  prev_hash = some (text "a");
  elapsed_ms = 100;
  now_ms = 1000;
  mandatory_audit_interval_ms = 500;
  stale_threshold_ms = 50;
  write_scope = text "src/a/" ∷ [];
  dirty_paths = text "src/a/x.ts" ∷ [];
  last_verdict = none;
  last_mandatory_audit_ts = some 900;
  liveness = some (create_liveness_snapshot probe);
}

probe_broken : IsSound probe → ⊥
probe_broken x = omega (arith, x.current.0)

create_liveness_snapshot-wake_example : (classify unusable).wake ≡ true
create_liveness_snapshot-wake_example =
    create_liveness_snapshot-wake unusable probe refl probe_broken
