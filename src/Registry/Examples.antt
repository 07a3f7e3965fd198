-- ===== src/Registry/Examples.antt =====
-- src/protocol/event-registry: a library on which the theorems on the registry are applied, and runs.
pub mod Codec
use odin_sentinel.Base.{
  ℕ, ◌+◌, ◌≡◌, ◌≤◌, ◌*◌, length, ◌↔◌, filter, refl, inl, inr, true, false, Option, none, some, List,
  [], ◌∷◌, ◌++◌, Text, text, Json, Fields, All, arith, end, entry, member,
}
use odin_sentinel.Registry.Lock.{Options, World, IsWorld, made, AreFinite}
use odin_sentinel.Registry.Schema.{GovdispEvent, Head, attempt, finding, terminal, ContentHash}
use odin_sentinel.Registry.Event.{parse_event, event_fields, class_of, type_of}
use odin_sentinel.Registry.Event.WellFormed.{IsParsed, parse_event-IsParsed}
use odin_sentinel.Registry.Event.RoundTrip.{parse_event-event_fields}
use odin_sentinel.Registry.Lines.{split_log_lines, byte_length}
use odin_sentinel.Registry.Rejections.{Library, Links, Result, done, rejected}
use odin_sentinel.Registry.Storage.{
  Files, Env, AppendOptions, answered, read_text, read_registry_events, append_registry_event,
  text_of, event_line, put,
}
use odin_sentinel.Registry.Query.Selection.{AreFilters, Selection, query_registry_events-done}
use odin_sentinel.Registry.Query.{
  query_registry_events, validate_registry_event_query, selects, fields_of,
}
use odin_sentinel.Registry.Appending.{IsLibrary, append_registry_event-Leaves, Leaves}
use odin_sentinel.Registry.Reading.{Reads}
use odin_sentinel.Registry.Log.{
  Call, Extends, after_appends, after_appends-Extends, read_text-Reads, read_registry_events-append,
}
use odin_sentinel.Registry.Size.{after_appends-bytes}
use odin_sentinel.Registry.Answers.{IsQuiet, IsAnswer, append_registry_event-IsAnswer}
use odin_sentinel.Registry.Store.{Registry, file_store, file_store-IsLog}
use odin_sentinel.Governance.Events.{IsLog}
use odin_sentinel.Registry.Examples.Codec.{
  json_text, json_parse, json_parse-json_text, json_text-IsOneLine,
}

abbrev pub demo : Library
demo = record {
  json_parse = json_parse;
  json_text = json_text;
  safe_parse = parse_event;
  issues = λ f. record { path = text "event_id" ∷ []; code = text "invalid_type"; keys = [] } ∷ [];
}

pub demo-IsLibrary : IsLibrary demo
demo-IsLibrary = record {
  round = λ e valid. json_parse-json_text (Json.object (event_fields e));
  one_line = λ e valid. json_text-IsOneLine (Json.object (event_fields e));
  schema = λ f. refl;
  reports = λ f h. refl;
}

-- The third attempt of a role, and the finding that it leads to.
abbrev pub tried : GovdispEvent
tried = record {
  head = record {
    event_id = text "e1";
    ts = text "2026-01-01T00:00:00Z";
    stable_objective_id = text "o1";
    actor_role = some (text "dev");
  };
  detail = attempt (text "ATTEMPT_STARTED") (some 3) (some (text "cure"));
}

abbrev pub found : GovdispEvent
found = record {
  head = record {
    event_id = text "e2";
    ts = text "2026-01-02T00:00:00Z";
    stable_objective_id = text "o1";
    actor_role = none;
  };
  detail = finding (text "FINDING_OPENED") (text "f1") none;
}

parse_event-event_fields_example : parse_event (event_fields tried) ≡ some tried
unfolding odin_sentinel.Registry.Schema.one_of
parse_event-event_fields_example =
    parse_event-event_fields tried ((refl, refl, refl, refl), (refl, refl, refl))

parse_event-IsParsed_example : IsParsed (event_fields found) found
unfolding parse_event odin_sentinel.Registry.Schema.◌>>?◌ event_fields
    odin_sentinel.Registry.Schema.when
parse_event-IsParsed_example = parse_event-IsParsed (event_fields found) found refl

abbrev pub world : World
world = record {
  mkdir = λ k. made;
  random = λ k. 0;
  wake = λ k elapsed ms. elapsed + ms;
  patience = 0;
}

abbrev clear : Links
clear = record { directory = false; log = false }

abbrev calm : Env
calm = record {
  links = clear;
  raced = clear;
  world = world;
  mkdir_fails = false;
  torn = none;
  rmdir_fails = false;
}

calm-IsQuiet : IsQuiet calm
calm-IsQuiet = record {
  waits = record { waits = λ k elapsed ms. omega arith; bounded = λ k. omega arith };
  makes = λ k. inl refl;
  directory = refl;
  whole = refl;
  removes = refl;
}

abbrev defaults : AppendOptions
defaults = record {
  lock = record { max_lock_attempts = none; lock_retry_ms = none; lock_budget_ms = none };
  max_event_bytes = none;
}

defaults-AreFinite : AreFinite defaults.lock
defaults-AreFinite = record { attempts = tt; retry = tt; budget = tt }

abbrev call : GovdispEvent → Call
call e = record {
  env = calm;
  scope = text "main";
  event = Json.object (event_fields e);
  options = defaults;
}

abbrev empty : Files
empty = λ scope. none

append_registry_event-Leaves_example :
    Leaves demo empty calm (text "main") (Json.object (event_fields tried)) defaults (
      append_registry_event demo empty calm
        (text "main")
        (Json.object (event_fields tried))
        defaults)
append_registry_event-Leaves_example =
    append_registry_event-Leaves demo empty calm (text "main") (Json.object (event_fields tried))
      defaults

append_registry_event-IsAnswer_example : IsAnswer (
    (append_registry_event demo empty calm
      (text "main")
      (Json.object (event_fields tried))
      defaults).1)
append_registry_event-IsAnswer_example =
    append_registry_event-IsAnswer demo empty calm (text "main") calm-IsQuiet
      (Json.object (event_fields tried)) defaults defaults-AreFinite

after_appends-Extends_example :
    Extends demo demo-IsLibrary
      (empty (text "main"))
      (after_appends demo demo-IsLibrary (call tried ∷ call found ∷ []) empty (text "main"))
unfolding text_of
after_appends-Extends_example =
    after_appends-Extends demo demo-IsLibrary (call tried ∷ call found ∷ []) empty
      (refl, (refl, tt)) (λ scope. inl refl) (text "main")

-- The log after the first append.
abbrev one_event : Text
one_event = event_line demo tried

read_text-Reads_example :
    (read_text demo one_event ≡ done (tried ∷ []))
    ↔ Reads demo demo-IsLibrary 1 (split_log_lines one_event) (tried ∷ [])
read_text-Reads_example = read_text-Reads demo demo-IsLibrary one_event (tried ∷ [])

abbrev grown : Files
grown = put (text "main") (text_of (empty (text "main")) ++ event_line demo tried) empty

read_registry_events-append_example :
    read_registry_events demo grown clear (text "main") ≡ done ([] ++ (tried ∷ []))
unfolding text_of read_registry_events append_registry_event odin_sentinel.Registry.Schema.◌>>?◌
    odin_sentinel.Registry.Schema.when json_text parse_event
read_registry_events-append_example =
    read_registry_events-append demo demo-IsLibrary empty grown (call tried) clear [] tried
      (λ scope. inl refl) refl refl

abbrev attempts : Json
attempts = Json.object (entry (text "event_class") (Json.string (text "ATTEMPT")) end)

query_registry_events-done_example :
    AreFilters (fields_of (some attempts))
    × ((all_events : List GovdispEvent) × (read_registry_events demo grown clear (text "main")
          ≡ done all_events)
        × Selection (fields_of (some attempts)) all_events (tried ∷ []))
unfolding query_registry_events put text_of event_line json_text json_parse
    odin_sentinel.Registry.Schema.when parse_event
query_registry_events-done_example =
    query_registry_events-done demo grown clear (text "main") (some attempts) (tried ∷ []) refl

after_appends-bytes_example :
    byte_length (
      text_of
        (after_appends demo demo-IsLibrary (call tried ∷ call found ∷ []) empty (text "main")))
    ≤ byte_length (text_of (empty (text "main"))) + 65536 * length (call tried ∷ call found ∷ [])
after_appends-bytes_example =
    after_appends-bytes demo demo-IsLibrary (call tried ∷ call found ∷ []) empty
      ((refl, refl), ((refl, refl), tt)) (text "main")

file_store-IsLog_example : IsLog Registry (
    file_store demo demo-IsLibrary
      (λ files scope. clear)
      (λ files scope j. calm)
      (λ files scope j. calm-IsQuiet)
      defaults)
file_store-IsLog_example =
    file_store-IsLog demo demo-IsLibrary (λ files scope. clear) (λ files scope j. calm)
      (λ files scope j. calm-IsQuiet) defaults defaults-AreFinite
