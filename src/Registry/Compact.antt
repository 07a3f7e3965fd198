-- ===== src/Registry/Compact.antt =====
-- src/protocol/event-registry/compact.ts: the compaction of a scope's log. Instants are milliseconds
-- after 1970, and a TTL is a whole number of days or no finite number.
pub mod Run
pub mod Keeping
pub mod Rewriting
pub mod Effect
pub mod Examples
use odin_sentinel.Base.{
  ℕ, suc, ◌+◌, ◌*◌, Bool, true, false, not, ◌&&◌, Option, none, some, List, [], ◌∷◌, ◌++◌, map,
  take, Text, text, same, ltb, length, is_empty, if◌then◌else◌, Json, ℤ, pos, negsuc,
}
use odin_sentinel.Registry.Lock.{
  Options, World, Acquisition, acquired, raised, acquire_registry_lock,
}
use odin_sentinel.Registry.Schema.{GovdispEvent, ContentHash, terminal, one_of}
use odin_sentinel.Registry.Event.{class_of, event_fields, event_classes}
use odin_sentinel.Registry.Lines.{byte_length, split_log_lines}
use odin_sentinel.Registry.Rejections.{
  at_field, at_line, in_line, EventRejection, Result, done, rejected, Library, rejection, join,
  is_safe_registry_scope, validate_govdisp_event,
}
use odin_sentinel.Registry.Storage.{Files, put, numbered}
use odin_sentinel.Registry.Query.{unless_rejected}

-- What the module takes from JavaScript besides: Date.parse, with none for NaN, and the sha256 of a
-- text in hexadecimal digits.
pub record Clock : Type 0 where
  pub date_parse : Text → Option ℕ
  pub sha256 : Text → Text

pub data Days : Type 0 where
  days : ℤ → Days
  not_finite : Days

-- The default TTL and the overrides by class.
pub record Ttl : Type 0 where
  pub default : Days
  pub by_class : List (Text × Days)

pub record ParsedLine : Type 0 where
  pub line : Text
  pub event : GovdispEvent
  pub event_ms : ℕ

pub record Plan : Type 0 where
  pub kept_lines : List Text
  pub removed : List ParsedLine
  pub summary : Option GovdispEvent
  pub new_text : Option Text
  pub bytes_before : ℕ
  pub bytes_after : ℕ

abbrev pub day_ms : ℕ
day_ms = 86400000

abbrev pub default_ttl : Ttl
default_ttl = record { default = days (pos 30); by_class = [] }

unfoldable pub store_rejection : Text → Text → EventRejection
store_rejection field code = rejection field (text "<store>") code

-- Number.isFinite(days) && days > 0
unfoldable pub is_ttl : Days → Bool
is_ttl not_finite = false
is_ttl (days (negsuc n)) = false
is_ttl (days (pos n)) = ltb 0 n

unfoldable pub ttl_rejections : Text → Days → List EventRejection
unfolding is_ttl store_rejection
ttl_rejections field d = if is_ttl d then [] else store_rejection field (text "invalid_ttl") ∷ []

unfoldable pub override_rejections : List (Text × Days) → List EventRejection
unfolding ttl_rejections one_of store_rejection
override_rejections [] = []
override_rejections ((class, d) ∷ rest) =
    let others = override_rejections rest in
    let field = text "ttl_days_by_class." ++ class in
    if one_of event_classes class
    then ttl_rejections field d ++ others
    else store_rejection field (text "invalid_ttl") ∷ others

unfoldable pub validate_ttl_policy : Ttl → List EventRejection
unfolding ttl_rejections override_rejections
validate_ttl_policy ttl =
    ttl_rejections (text "ttl_days") ttl.default ++ override_rejections ttl.by_class

-- overrides[class] ?? ttlDays
unfoldable pub ttl_of : List (Text × Days) → Days → Text → Days
unfolding same
ttl_of [] default class = default
ttl_of ((k, d) ∷ rest) default class = if same k class then d else ttl_of rest default class

-- A TTL that has passed the validation, in milliseconds.
unfoldable pub milliseconds : Days → ℕ
milliseconds (days (pos n)) = n * day_ms
milliseconds d = 0

-- Strictly older than the cutoff, now - ttl, and not of class TERMINAL.
unfoldable pub is_compacted : Ttl → ℕ → ParsedLine → Bool
unfolding same class_of ttl_of milliseconds
is_compacted ttl now p =
    not (same (class_of p.event.detail) (text "TERMINAL"))
    && ltb (p.event_ms + milliseconds (ttl_of ttl.by_class ttl.default (class_of p.event.detail)))
        now

-- for (const entry of parsed): the kept and the removed.
unfoldable pub parted : (ParsedLine → Bool) → List ParsedLine → List ParsedLine × List ParsedLine
parted old [] = ([], [])
parted old (p ∷ rest) =
    let (kept, removed) = parted old rest in
    if old p then (kept, p ∷ removed) else (p ∷ kept, removed)

module _ (lib : Library) (clock : Clock) where
  -- The age of a valid event.
  unfoldable pub timed : ℕ → Text → Result GovdispEvent → Result ParsedLine
  timed n line (rejected r) = rejected r
  timed n line (done e) = elim (clock.date_parse e.head.ts) [
    | some ms ↦ done (record { line = line; event = e; event_ms = ms })
    | none ↦ rejected (
        record {
          field = in_line n (at_field (text "ts"));
          event_class = text "<store>";
          code = text "unparseable_ts";
        }
        ∷ [])
  ]

  unfoldable pub parse_line : ℕ → Text → Result ParsedLine
  unfolding timed numbered validate_govdisp_event
  parse_line n line = elim (lib.json_parse line) [
    | some v ↦ timed n line (numbered lib n (validate_govdisp_event lib v))
    | none ↦ rejected (
        record { field = at_line n; event_class = text "<store>"; code = text "corrupt_line" } ∷ [])
  ]

  unfoldable pub add_parsed :
      Result ParsedLine
      → List ParsedLine × List EventRejection
      → List ParsedLine × List EventRejection
  add_parsed (done p) (parsed, rejections) = (p ∷ parsed, rejections)
  add_parsed (rejected r) (parsed, rejections) = (parsed, r ++ rejections)

  unfoldable pub parse_lines : ℕ → List Text → List ParsedLine × List EventRejection
  unfolding parse_line add_parsed
  parse_lines n [] = ([], [])
  parse_lines n (line ∷ rest) = add_parsed (parse_line n line) (parse_lines (suc n) rest)

  unfoldable pub content_hashes_of : List ParsedLine → List ContentHash
  content_hashes_of removed =
      map (λ p. record { path = p.event.head.event_id; sha256 = clock.sha256 p.line }) removed

  unfoldable pub chain_digest : List ContentHash → Text
  unfolding join
  chain_digest hashes =
      clock.sha256 (join (10 ∷ []) (map (λ h. h.path ++ (text ":" ++ h.sha256)) hashes))

  unfoldable pub summary_event : Text → Text → List ParsedLine → GovdispEvent
  unfolding content_hashes_of chain_digest
  summary_event scope now removed = record {
    head = record {
      event_id = text "evt-compaction-" ++ take 24 (chain_digest (content_hashes_of removed));
      ts = now;
      stable_objective_id = scope;
      actor_role = none;
    };
    detail = terminal (text "TERMINAL_COMPLETED") (content_hashes_of removed);
  }

  unfoldable pub compacted_text : List Text → GovdispEvent → Text
  unfolding join event_fields
  compacted_text kept summary =
      join (10 ∷ []) (kept ++ (lib.json_text (Json.object (event_fields summary)) ∷ []))
      ++ (10 ∷ [])

  -- The plan with a summary that the schema accepts.
  unfoldable pub summarized :
      Text → List Text → List ParsedLine → GovdispEvent → Result GovdispEvent → Result Plan
  unfolding compacted_text byte_length
  summarized t kept removed summary (rejected r) = rejected r
  summarized t kept removed summary (done e) = done (record {
    kept_lines = kept;
    removed = removed;
    summary = some summary;
    new_text = some (compacted_text kept summary);
    bytes_before = byte_length t;
    bytes_after = byte_length (compacted_text kept summary);
  })

  unfoldable pub plan_of : Text → Text → Text → List ParsedLine × List ParsedLine → Result Plan
  unfolding summarized summary_event validate_govdisp_event event_fields byte_length
  plan_of scope t now (kept, []) = done (record {
    kept_lines = map (λ p. p.line) kept;
    removed = [];
    summary = none;
    new_text = none;
    bytes_before = byte_length t;
    bytes_after = byte_length t;
  })
  plan_of scope t now (kept, r ∷ rest) =
      summarized t (map (λ p. p.line) kept) (r ∷ rest) (summary_event scope now (r ∷ rest)) (
        validate_govdisp_event lib
          (Json.object (event_fields (summary_event scope now (r ∷ rest)))))

  unfoldable pub plan_compaction : Text → Text → Text → ℕ → Ttl → Result Plan
  unfolding unless_rejected plan_of parted is_compacted parse_lines split_log_lines
  plan_compaction scope t now now_ms ttl = unless_rejected ((parse_lines 1 (split_log_lines t)).1) (
      plan_of scope t now
        (parted (is_compacted ttl now_ms) ((parse_lines 1 (split_log_lines t)).0)))
