-- ===== src/Registry/Compact/Run.antt =====
-- src/protocol/event-registry/compact.ts: a run of the compaction, and its report.
use odin_sentinel.Base.{
  ℕ, ◌+◌, Bool, true, false, not, Option, none, some, List, [], ◌∷◌, Text, text, same, length,
  is_empty, if◌then◌else◌,
}
use odin_sentinel.Registry.Lock.{
  Options, World, Acquisition, acquired, raised, acquire_registry_lock,
}
use odin_sentinel.Registry.Schema.{GovdispEvent}
use odin_sentinel.Registry.Event.{class_of}
use odin_sentinel.Registry.Rejections.{
  EventRejection, Result, done, rejected, Library, is_safe_registry_scope,
}
use odin_sentinel.Registry.Storage.{Files, put}
use odin_sentinel.Registry.Compact.{
  Clock, Ttl, ParsedLine, Plan, store_rejection, validate_ttl_policy, plan_compaction,
}

-- What the call of a run meets: the lock's world, what other writers do to the logs before the lock is
-- held (none writes while it is), and faults of the directory's mkdir, of the write or the rename, and
-- of the lock's removal.
pub record Env : Type 0 where
  pub world : World
  pub meanwhile : Files → Files
  pub mkdir_fails : Bool
  pub write_fails : Bool
  pub rmdir_fails : Bool

-- The options, with the instant of the evaluation (given, or the current time).
pub record CompactOptions : Type 0 where
  pub now : Text
  pub ttl : Ttl
  pub dry_run : Bool
  pub lock : Options

pub record Report : Type 0 where
  pub dry_run : Bool
  pub compacted : Bool
  pub removed_count : ℕ
  pub kept_count : ℕ
  pub removed_per_class : List (Text × ℕ)
  pub bytes_before : ℕ
  pub bytes_after : ℕ
  pub summary : Option GovdispEvent

pub data Outcome : Type 0 where
  answered : Result Report → Outcome
  threw : Outcome
  stuck : Outcome

unfoldable pub count_class : Text → List (Text × ℕ) → List (Text × ℕ)
unfolding same
count_class class [] = (class, 1) ∷ []
count_class class ((k, n) ∷ rest) =
    let others = count_class class rest in
    if same k class then (k, n + 1) ∷ rest else (k, n) ∷ others

unfoldable pub per_class : List ParsedLine → List (Text × ℕ) → List (Text × ℕ)
unfolding count_class class_of
per_class [] counts = counts
per_class (p ∷ rest) counts = per_class rest (count_class (class_of p.event.detail) counts)

unfoldable pub build_report : Bool → Plan → Report
unfolding per_class
build_report dry plan = record {
  dry_run = dry;
  compacted = not (is_empty plan.removed);
  removed_count = length plan.removed;
  kept_count = length plan.kept_lines;
  removed_per_class = per_class plan.removed [];
  bytes_before = plan.bytes_before;
  bytes_after = plan.bytes_after;
  summary = plan.summary;
}

abbrev pub empty_plan : Plan
empty_plan = record {
  kept_lines = [];
  removed = [];
  summary = none;
  new_text = none;
  bytes_before = 0;
  bytes_after = 0;
}

unfoldable pub reported : Bool → Result Plan → Result Report
unfolding build_report
reported dry (done plan) = done (build_report dry plan)
reported dry (rejected r) = rejected r

module _ (lib : Library) (clock : Clock) where
  -- The plan for a log; a missing log has nothing to compact.
  unfoldable pub planned : Text → Option Text → Text → ℕ → Ttl → Result Plan
  unfolding plan_compaction
  planned scope none now now_ms ttl = done empty_plan
  planned scope (some t) now now_ms ttl = plan_compaction lib clock scope t now now_ms ttl

  -- The lock is removed whatever happened before; its removal may throw.
  unfoldable pub released : Env → Files × Outcome → Files × Outcome
  released env (files, outcome) = (files, if env.rmdir_fails then threw else outcome)

  -- The write to the temporary file and its rename to the log.
  unfoldable pub replaced : Files → Env → Text → Plan → Option Text → Files × Outcome
  unfolding put build_report
  replaced files env scope plan none = (files, answered (done (build_report false plan)))
  replaced files env scope plan (some t) =
      if env.write_fails
      then (files, threw)
      else (put scope t files, answered (done (build_report false plan)))

  unfoldable pub carried_out : Files → Env → Text → Result Plan → Files × Outcome
  unfolding replaced
  carried_out files env scope (rejected r) = (files, answered (rejected r))
  carried_out files env scope (done plan) = replaced files env scope plan plan.new_text

  unfoldable pub locked_run :
      Files → Env → Text → CompactOptions → ℕ → Option Acquisition → Files × Outcome
  unfolding planned carried_out released store_rejection
  locked_run files env scope o now_ms none = (files, stuck)
  locked_run files env scope o now_ms (some raised) = (files, threw)
  locked_run files env scope o now_ms (some (acquired false attempts elapsed)) = (
    files,
    answered (rejected (store_rejection (text "events.lock") (text "lock_unavailable") ∷ [])),
  )
  locked_run files env scope o now_ms (some (acquired true attempts elapsed)) =
      released env (carried_out files env scope (planned scope (files scope) o.now now_ms o.ttl))

  -- A run with a valid instant and policy: a dry one only reads, and any other reads under the lock.
  unfoldable pub run : Files → Env → Text → CompactOptions → ℕ → Files × Outcome
  unfolding reported planned locked_run acquire_registry_lock
  run files env scope o now_ms =
      if o.dry_run
      then (files, answered (reported true (planned scope (files scope) o.now now_ms o.ttl)))
      else if env.mkdir_fails
      then (files, threw)
      else locked_run (env.meanwhile files) env scope o now_ms
          (acquire_registry_lock env.world o.lock)

  unfoldable pub valid_run :
      Files → Env → Text → CompactOptions → ℕ → List EventRejection → Files × Outcome
  unfolding run
  valid_run files env scope o now_ms [] = run files env scope o now_ms
  valid_run files env scope o now_ms (r ∷ rest) = (files, answered (rejected (r ∷ rest)))

  unfoldable pub compact_registry_events : Files → Env → Text → CompactOptions → Files × Outcome
  unfolding valid_run validate_ttl_policy is_safe_registry_scope store_rejection
  compact_registry_events files env scope o =
      if is_safe_registry_scope scope
      then elim (clock.date_parse o.now) [
        | none ↦
            (files, answered (rejected (store_rejection (text "now") (text "invalid_now") ∷ [])))
        | some now_ms ↦ valid_run files env scope o now_ms (validate_ttl_policy o.ttl)
      ]
      else (files, answered (rejected (store_rejection (text "scope") (text "unsafe_scope") ∷ [])))
