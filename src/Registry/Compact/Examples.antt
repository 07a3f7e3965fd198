-- ===== src/Registry/Compact/Examples.antt =====
-- src/protocol/event-registry/compact.ts: a log with an old and a recent event, compacted.
use odin_sentinel.Base.{
  ℕ, ◌≡◌, refl, false, not, none, some, List, [], ◌∷◌, ◌++◌, map, Text, text, same, filter, All,
  if◌then◌else◌, Json,
}
use odin_sentinel.Registry.Schema.{GovdispEvent}
use odin_sentinel.Registry.Event.{event_fields}
use odin_sentinel.Registry.Lines.{split_log_lines, byte_length}
use odin_sentinel.Registry.Rejections.{done}
use odin_sentinel.Registry.Storage.{Files, put, read_text}
use odin_sentinel.Registry.Compact.{
  Clock, ParsedLine, Plan, default_ttl, is_compacted, summary_event, compacted_text,
  plan_compaction,
}
use odin_sentinel.Registry.Compact.Run.{Env, CompactOptions}
use odin_sentinel.Registry.Compact.Keeping.{Parses}
use odin_sentinel.Registry.Compact.Rewriting.{IsClock, plan_compaction-rereads}
use odin_sentinel.Registry.Compact.Effect.{IsOld, plan_compaction-IsOld}
use odin_sentinel.Registry.Examples.{demo, demo-IsLibrary, tried, found, world}
use odin_sentinel.Registry.Examples.Codec.{json_text}

-- The first event is 31 days and 6 hours old, the second 14 hours.
date_of : Text → ℕ
unfolding same
date_of t =
    if same t (text "2026-01-01T00:00:00Z")
    then 0
    else if same t (text "2026-01-02T00:00:00Z")
    then 2_649_600_000
    else 2_700_000_000

abbrev clock : Clock
clock = record { date_parse = λ t. some (date_of t); sha256 = λ t. text "5e" }

clock-IsClock : IsClock clock
clock-IsClock = record { digest = λ t. refl }

abbrev old_line : Text
old_line = json_text (Json.object (event_fields tried))

abbrev new_line : Text
new_line = json_text (Json.object (event_fields found))

abbrev log : Text
log = old_line ++ (10 ∷ (new_line ++ (10 ∷ [])))

abbrev old : ParsedLine
old = record { line = old_line; event = tried; event_ms = 0 }

abbrev summary : GovdispEvent
summary = summary_event demo clock (text "main") (text "now") (old ∷ [])

abbrev plan : Plan
plan = record {
  kept_lines = new_line ∷ [];
  removed = old ∷ [];
  summary = some summary;
  new_text = some (compacted_text demo clock (new_line ∷ []) summary);
  bytes_before = byte_length log;
  bytes_after = byte_length (compacted_text demo clock (new_line ∷ []) summary);
}

planned_log :
    plan_compaction demo clock (text "main") log (text "now") 2_700_000_000 default_ttl ≡ done plan
unfolding date_of plan_compaction json_text odin_sentinel.Registry.Examples.Codec.json_parse
    odin_sentinel.Registry.Event.parse_event odin_sentinel.Registry.Schema.when
planned_log = refl

plan_compaction-IsOld_example : All (IsOld default_ttl 2_700_000_000) (old ∷ [])
plan_compaction-IsOld_example =
    plan_compaction-IsOld demo demo-IsLibrary clock (text "main") log (text "now") 2_700_000_000
      default_ttl plan planned_log

plan_compaction-rereads_example :
    (parsed : List ParsedLine) × Parses demo demo-IsLibrary clock 1 (split_log_lines log) parsed
    × ((s : GovdispEvent) × (some summary ≡ some s)
        × (read_text demo (compacted_text demo clock (new_line ∷ []) summary)
            ≡ done (
                map
                  (λ p. p.event)
                  (filter (λ p. not (is_compacted default_ttl 2_700_000_000 p)) parsed)
                ++ (s ∷ []))))
plan_compaction-rereads_example =
    plan_compaction-rereads demo demo-IsLibrary clock clock-IsClock (text "main") log (text "now")
      2_700_000_000 default_ttl plan (compacted_text demo clock (new_line ∷ []) summary) refl refl
      planned_log refl

-- Another writer appends an event before the lock is held.
abbrev appended_to : Files → Files
appended_to files = put (text "main") (log ++ new_line ++ (10 ∷ [])) files

abbrev calm : Env
calm = record {
  world = world;
  meanwhile = appended_to;
  mkdir_fails = false;
  write_fails = false;
  rmdir_fails = false;
}

abbrev options : CompactOptions
options = record {
  now = text "now";
  ttl = default_ttl;
  dry_run = false;
  lock = record { max_lock_attempts = none; lock_retry_ms = none; lock_budget_ms = none };
}

abbrev logs : Files
logs = λ scope. some log
