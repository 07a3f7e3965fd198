-- ===== src/Registry/Event.antt =====
-- src/protocol/schemas.ts: the event schemas themselves, and the object that an event is.
pub mod Parsing
pub mod Origins
pub mod WellFormed
pub mod RoundTrip
use odin_sentinel.Base.{
  ℕ, Bool, true, false, Option, none, some, List, [], ◌∷◌, Text, text, same, is_empty, pos, int,
  Json, Items, Fields, end, entry, nil, cons, member, if◌then◌else◌,
}
use odin_sentinel.Governance.Events.{AuditTarget, ordinary_work, audit, Event}
use odin_sentinel.Registry.Schema.{
  ◌>>?◌, when, ContentHash, Head, Detail, attempt, finding, break_glass, budget, terminal, audits,
  GovdispEvent, event_schema_version, attempt_types, finding_types, break_glass_types, budget_types,
  terminal_types, audit_types, budget_kinds, attempt_triggers, one_of, non_empty, optional_text,
  enumerated, optional_enum, optional_index, only_keys, content_hashes, audit_target, head_keys,
  head_of,
}

abbrev pub event_classes : List Text
event_classes =
    text "ATTEMPT"
    ∷ text "FINDING"
    ∷ text "BREAK_GLASS"
    ∷ text "BUDGET"
    ∷ text "TERMINAL"
    ∷ text "AUDIT"
    ∷ []

-- The strict objects of the union, after their common fields.
unfoldable pub attempt_event : Fields → Option Detail
unfolding enumerated optional_index optional_enum only_keys member
attempt_event f = enumerated attempt_types (member (text "event_type") f) >>? λ type.
    optional_index (member (text "attempt_index") f) >>? λ index.
    optional_enum attempt_triggers (member (text "trigger") f) >>? λ trigger.
    when (only_keys (head_keys (text "attempt_index" ∷ text "trigger" ∷ [])) f)
      (attempt type index trigger)

unfoldable pub finding_event : Fields → Option Detail
unfolding enumerated non_empty optional_text only_keys member
finding_event f = enumerated finding_types (member (text "event_type") f) >>? λ type.
    non_empty (member (text "finding_id") f) >>? λ finding_id.
    optional_text (member (text "owner_role") f) >>? λ owner.
    when (only_keys (head_keys (text "finding_id" ∷ text "owner_role" ∷ [])) f)
      (finding type finding_id owner)

unfoldable pub break_glass_event : Fields → Option Detail
unfolding enumerated non_empty only_keys member
break_glass_event f = enumerated break_glass_types (member (text "event_type") f) >>? λ type.
    non_empty (member (text "authorizing_human") f) >>? λ human.
    non_empty (member (text "contradiction_ref") f) >>? λ contradiction.
    when (only_keys (head_keys (text "authorizing_human" ∷ text "contradiction_ref" ∷ [])) f)
      (break_glass type human contradiction)

unfoldable pub budget_event : Fields → Option Detail
unfolding enumerated only_keys member
budget_event f = enumerated budget_types (member (text "event_type") f) >>? λ type.
    enumerated budget_kinds (member (text "budget_kind") f) >>? λ kind.
    when (only_keys (head_keys (text "budget_kind" ∷ [])) f) (budget type kind)

unfoldable pub terminal_event : Fields → Option Detail
unfolding enumerated content_hashes only_keys member
terminal_event f = enumerated terminal_types (member (text "event_type") f) >>? λ type.
    content_hashes (member (text "content_hashes") f) >>? λ hashes.
    when (only_keys (head_keys (text "content_hashes" ∷ [])) f) (terminal type hashes)

unfoldable pub audit_event : Fields → Option Detail
unfolding enumerated audit_target only_keys member
audit_event f = enumerated audit_types (member (text "event_type") f) >>? λ type.
    audit_target (member (text "target") f) >>? λ target.
    when (only_keys (head_keys (text "target" ∷ [])) f) (audits type target)

unfoldable pub class_of : Detail → Text
class_of (attempt type index trigger) = text "ATTEMPT"
class_of (finding type finding_id owner) = text "FINDING"
class_of (break_glass type human contradiction) = text "BREAK_GLASS"
class_of (budget type kind) = text "BUDGET"
class_of (terminal type hashes) = text "TERMINAL"
class_of (audits type target) = text "AUDIT"

unfoldable pub type_of : Detail → Text
type_of (attempt type index trigger) = type
type_of (finding type finding_id owner) = type
type_of (break_glass type human contradiction) = type
type_of (budget type kind) = type
type_of (terminal type hashes) = type
type_of (audits type target) = type

-- The discriminated union: the class chooses the member.
unfoldable pub detail_of : Text → Fields → Option Detail
unfolding attempt_event finding_event break_glass_event budget_event terminal_event audit_event same
detail_of class f =
    if same class (text "ATTEMPT")
    then attempt_event f
    else if same class (text "FINDING")
    then finding_event f
    else if same class (text "BREAK_GLASS")
    then break_glass_event f
    else if same class (text "BUDGET")
    then budget_event f
    else if same class (text "TERMINAL")
    then terminal_event f
    else if same class (text "AUDIT")
    then audit_event f
    else none

-- govdispEventSchema, on an object.
unfoldable pub parse_event : Fields → Option GovdispEvent
unfolding enumerated head_of detail_of member
parse_event f = enumerated event_classes (member (text "event_class") f) >>? λ class.
    head_of f >>? λ head.
    detail_of class f >>? λ detail. some (record { head = head; detail = detail })

unfoldable pub with_text : Text → Option Text → Fields → Fields
with_text k none rest = rest
with_text k (some t) rest = entry k (Json.string t) rest

unfoldable pub with_index : Option ℕ → Fields → Fields
with_index none rest = rest
with_index (some n) rest = entry (text "attempt_index") (Json.number (int (pos n))) rest

unfoldable pub hash_items : List ContentHash → Items
hash_items [] = nil
hash_items (h ∷ hs) =
    cons
      (Json.object (
        entry (text "path") (Json.string h.path)
          (entry (text "sha256") (Json.string h.sha256) end)))
      (hash_items hs)

unfoldable pub target_fields : AuditTarget → Fields
target_fields ordinary_work = entry (text "kind") (Json.string (text "ordinary_work")) end
target_fields (audit id) =
    entry (text "kind") (Json.string (text "audit"))
      (entry (text "target_event_id") (Json.string id) end)

unfoldable pub own_fields : Detail → Fields
unfolding with_text with_index hash_items target_fields
own_fields (attempt type index trigger) = with_index index (with_text (text "trigger") trigger end)
own_fields (finding type finding_id owner) =
    entry (text "finding_id") (Json.string finding_id) (with_text (text "owner_role") owner end)
own_fields (break_glass type human contradiction) =
    entry (text "authorizing_human") (Json.string human)
      (entry (text "contradiction_ref") (Json.string contradiction) end)
own_fields (budget type kind) = entry (text "budget_kind") (Json.string kind) end
own_fields (terminal type hashes) =
    entry (text "content_hashes") (Json.array (hash_items hashes)) end
own_fields (audits type target) = entry (text "target") (Json.object (target_fields target)) end

-- The parsed object, in the order of the schema's keys.
unfoldable pub event_fields : GovdispEvent → Fields
unfolding with_text class_of type_of own_fields
event_fields e = entry (text "schema_version") (Json.string event_schema_version) (
    entry (text "event_id") (Json.string e.head.event_id) (
      entry (text "ts") (Json.string e.head.ts) (
        entry (text "stable_objective_id") (Json.string e.head.stable_objective_id) (
          with_text (text "actor_role") e.head.actor_role (
            entry (text "event_class") (Json.string (class_of e.detail)) (
              entry (text "event_type") (Json.string (type_of e.detail)) (own_fields e.detail)))))))

unfoldable pub finding_id_of : Detail → Option Text
finding_id_of (finding type finding_id owner) = some finding_id
finding_id_of d = none

unfoldable pub owner_of : Detail → Option Text
owner_of (finding type finding_id owner) = owner
owner_of d = none

unfoldable pub trigger_of : Detail → Option Text
trigger_of (attempt type index trigger) = trigger
trigger_of d = none

unfoldable pub target_of : Detail → Option AuditTarget
target_of (audits type target) = some target
target_of d = none

-- The event as src/protocol/governance.ts reads it.
unfoldable pub view : GovdispEvent → Event
unfolding class_of type_of finding_id_of owner_of trigger_of target_of
view e = record {
  event_id = e.head.event_id;
  ts = e.head.ts;
  stable_objective_id = e.head.stable_objective_id;
  event_class = class_of e.detail;
  event_type = type_of e.detail;
  actor_role = e.head.actor_role;
  trigger = trigger_of e.detail;
  finding_id = finding_id_of e.detail;
  owner_role = owner_of e.detail;
  target = target_of e.detail;
}
