-- ===== src/Registry/Schema.antt =====
-- src/protocol/schemas.ts: the schemas of governance events, over the enumerations in
-- src/protocol/event-registry/types.ts. A strict object has no field but its own; a field that is
-- not optional is there.
use odin_sentinel.Base.{
  ℕ, Bool, true, false, ◌&&◌, Option, none, some, List, [], ◌∷◌, Text, text, same, any, leb,
  if◌then◌else◌, pos, int, Json, Items, Fields, end, entry, nil, cons, member,
}
use odin_sentinel.Governance.Events.{AuditTarget, ordinary_work, audit}

-- One step of a schema after another, and its last test.
infixl 5 ◌>>?◌
unfoldable pub ◌>>?◌ {ℓ κ} : {A : Type ℓ} {B : Type κ} → Option A → (A → Option B) → Option B
none >>? f = none
some a >>? f = f a

unfoldable pub when {ℓ} : {A : Type ℓ} → Bool → A → Option A
when true a = some a
when false a = none

pub record ContentHash : Type 0 where
  pub path : Text
  pub sha256 : Text

pub record Head : Type 0 where
  pub event_id : Text
  pub ts : Text
  pub stable_objective_id : Text
  pub actor_role : Option Text

-- The six members of the union, with their own fields. The first is the event type.
pub data Detail : Type 0 where
  attempt : Text → Option ℕ → Option Text → Detail
  finding : Text → Text → Option Text → Detail
  break_glass : Text → Text → Text → Detail
  budget : Text → Text → Detail
  terminal : Text → List ContentHash → Detail
  audits : Text → AuditTarget → Detail

pub record GovdispEvent : Type 0 where
  pub head : Head
  pub detail : Detail

abbrev pub event_schema_version : Text
event_schema_version = text "govdisp.event.v1"

abbrev pub attempt_types : List Text
attempt_types = text "ATTEMPT_STARTED" ∷ text "ATTEMPT_COUNTED" ∷ text "ATTEMPT_REFUSED" ∷ []

abbrev pub finding_types : List Text
finding_types =
    text "FINDING_OPENED"
    ∷ text "FINDING_OWNED"
    ∷ text "FINDING_DELIVERED"
    ∷ text "FINDING_CLOSED"
    ∷ []

abbrev pub break_glass_types : List Text
break_glass_types = text "BREAK_GLASS_RECORDED" ∷ []

abbrev pub budget_types : List Text
budget_types = text "BUDGET_CROSSED" ∷ text "BUDGET_EXHAUSTED" ∷ []

abbrev pub terminal_types : List Text
terminal_types = text "TERMINAL_BLOCKED" ∷ text "TERMINAL_COMPLETED" ∷ []

abbrev pub audit_types : List Text
audit_types = text "AUDIT_OPENED" ∷ text "AUDIT_COMPLETED" ∷ []

abbrev pub budget_kinds : List Text
budget_kinds = text "tokens" ∷ text "time" ∷ text "artifacts" ∷ text "roles" ∷ []

abbrev pub attempt_triggers : List Text
attempt_triggers =
    text "start" ∷ text "reset" ∷ text "restaff" ∷ text "rename" ∷ text "cure" ∷ text "rerun" ∷ []

unfoldable pub one_of : List Text → Text → Bool
unfolding same
one_of values t = any (same t) values

-- z.string().min(1)
unfoldable pub non_empty : Option Json → Option Text
non_empty (some (Json.string (c ∷ cs))) = some (c ∷ cs)
non_empty v = none

-- z.string().min(1).optional(); the outer `none` is a failure.
unfoldable pub optional_text : Option Json → Option (Option Text)
unfolding non_empty
optional_text none = some none
optional_text (some v) = non_empty (some v) >>? λ t. some (some t)

-- z.enum(values)
unfoldable pub enumerated : List Text → Option Json → Option Text
unfolding one_of
enumerated values (some (Json.string t)) = when (one_of values t) t
enumerated values v = none

unfoldable pub optional_enum : List Text → Option Json → Option (Option Text)
unfolding enumerated
optional_enum values none = some none
optional_enum values (some v) = enumerated values (some v) >>? λ t. some (some t)

-- z.number().int().min(1).optional(); an integer is a safe one.
unfoldable pub optional_index : Option Json → Option (Option ℕ)
optional_index none = some none
optional_index (some (Json.number (int (pos n)))) =
    when (leb 1 n && leb n 9007199254740991) (some n)
optional_index (some v) = none

-- strict(): every key is one of these.
unfoldable pub only_keys : List Text → Fields → Bool
unfolding one_of
only_keys allowed end = true
only_keys allowed (entry k v rest) = one_of allowed k && only_keys allowed rest

unfoldable pub content_hash : Json → Option ContentHash
unfolding non_empty only_keys member
content_hash (Json.object f) = non_empty (member (text "path") f) >>? λ path.
    non_empty (member (text "sha256") f) >>? λ sha256.
    when (only_keys (text "path" ∷ text "sha256" ∷ []) f) (record { path = path; sha256 = sha256 })
content_hash v = none

unfoldable pub content_hash_items : Items → Option (List ContentHash)
unfolding content_hash
content_hash_items nil = some []
content_hash_items (cons v rest) =
    content_hash v >>? λ h. content_hash_items rest >>? λ hs. some (h ∷ hs)

-- z.array(govdispContentHashSchema).min(1)
unfoldable pub content_hashes : Option Json → Option (List ContentHash)
unfolding content_hash_items
content_hashes (some (Json.array (cons v rest))) = content_hash_items (cons v rest)
content_hashes v = none

-- auditTargetSchema
unfoldable pub audit_target : Option Json → Option AuditTarget
unfolding enumerated non_empty only_keys member same
audit_target (some (Json.object f)) =
    enumerated (text "ordinary_work" ∷ text "audit" ∷ []) (member (text "kind") f) >>? λ kind.
    if same kind (text "audit")
    then non_empty (member (text "target_event_id") f)
      >>? (λ id. when (only_keys (text "kind" ∷ text "target_event_id" ∷ []) f) (audit id))
    else when (only_keys (text "kind" ∷ []) f) ordinary_work
audit_target v = none

abbrev pub head_keys : List Text → List Text
head_keys own =
    text "schema_version"
    ∷ text "event_id"
    ∷ text "ts"
    ∷ text "stable_objective_id"
    ∷ text "actor_role"
    ∷ text "event_class"
    ∷ text "event_type"
    ∷ own

-- govdispEventBaseShape
unfoldable pub head_of : Fields → Option Head
unfolding enumerated non_empty optional_text member
head_of f = enumerated (event_schema_version ∷ []) (member (text "schema_version") f) >>? λ version.
    non_empty (member (text "event_id") f) >>? λ event_id.
    non_empty (member (text "ts") f) >>? λ ts.
    non_empty (member (text "stable_objective_id") f) >>? λ objective.
    optional_text (member (text "actor_role") f) >>? λ actor.
    some
      (record { event_id = event_id; ts = ts; stable_objective_id = objective; actor_role = actor })
