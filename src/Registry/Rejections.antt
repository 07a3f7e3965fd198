-- ===== src/Registry/Rejections.antt =====
-- src/protocol/event-registry/storage.ts: rejections, and the validation that every write and every
-- line that is read goes through.
use odin_sentinel.Base.{
  ℕ, Bool, Option, none, some, List, [], ◌∷◌, ◌++◌, map, Text, text, is_blank, is_segment, length,
  leb, ◌&&◌, Json, Fields, member, if◌then◌else◌,
}
use odin_sentinel.Registry.Schema.{GovdispEvent}

-- The field that a rejection names: by itself, a line of the log, or a field of a line.
pub data Place : Type 0 where
  at_field : Text → Place
  at_line : ℕ → Place
  in_line : ℕ → Place → Place

-- A named rejection, without its message.
pub record EventRejection : Type 0 where
  pub field : Place
  pub event_class : Text
  pub code : Text

pub data Result {ℓ} (A : Type ℓ) : Type ℓ where
  done : A → Result A
  rejected : List EventRejection → Result A

-- One issue of safeParse: its path, its code, and the keys of an unrecognized_keys issue.
pub record Issue : Type 0 where
  pub path : List Text
  pub code : Text
  pub keys : List Text

-- What the module takes from JavaScript and from zod: JSON as text, the event that safeParse makes
-- of an object by govdispEventSchema, and the issues of an object that it refuses.
pub record Library : Type 0 where
  pub json_parse : Text → Option Json
  pub json_text : Json → Text
  pub safe_parse : Fields → Option GovdispEvent
  pub issues : Fields → List Issue

-- path.join(separator)
unfoldable pub join : Text → List Text → Text
join separator [] = []
join separator (t ∷ []) = t
join separator (t ∷ u ∷ rest) = t ++ (separator ++ join separator (u ∷ rest))

-- A value, unless it is the empty string.
unfoldable pub or_else : Text → Text → Text
or_else [] fallback = fallback
or_else (c ∷ cs) fallback = c ∷ cs

unfoldable pub named_keys : List Text → Text
unfolding join
named_keys [] = text "<root>"
named_keys (k ∷ keys) = join (text ",") (k ∷ keys)

-- The declared event class, or "<unknown>".
unfoldable pub declared_event_class : Fields → Text
unfolding member is_blank
declared_event_class f = elim (member (text "event_class") f) [
  | some (Json.string class) ↦ if is_blank class then text "<unknown>" else class
  | _ ↦ text "<unknown>"
]

unfoldable pub map_schema_issue : Text → Issue → EventRejection
unfolding join or_else named_keys
map_schema_issue class issue = record {
  field = at_field (or_else (join (text ".") issue.path) (named_keys issue.keys));
  event_class = class;
  code = issue.code;
}

abbrev pub rejection : Text → Text → Text → EventRejection
rejection field class code = record { field = at_field field; event_class = class; code = code }

unfoldable pub is_safe_registry_scope : Text → Bool
unfolding is_segment
is_safe_registry_scope scope = leb (length scope) 128 && is_segment scope

unfoldable pub unsafe_scope_rejection : EventRejection
unsafe_scope_rejection = rejection (text "scope") (text "<store>") (text "unsafe_scope")

-- Whether the scope's directory, or else the log, is a symbolic link.
pub record Links : Type 0 where
  pub directory : Bool
  pub log : Bool

unfoldable pub registry_symlink_rejection : Links → Text → Option EventRejection
registry_symlink_rejection links class =
    if links.directory
    then some (rejection (text "scope") class (text "symlink_refused"))
    else if links.log
    then some (rejection (text "events.jsonl") class (text "symlink_refused"))
    else none

module _ (lib : Library) where
  -- What an object comes to, by what the schema makes of it.
  unfoldable pub validated : Fields → Option GovdispEvent → Result GovdispEvent
  unfolding declared_event_class map_schema_issue
  validated f (some e) = done e
  validated f none =
      rejected (map (λ i. map_schema_issue (declared_event_class f) i) (lib.issues f))

  unfoldable pub validate_govdisp_event : Json → Result GovdispEvent
  unfolding validated
  validate_govdisp_event (Json.object f) = validated f (lib.safe_parse f)
  validate_govdisp_event v =
      rejected (rejection (text "<root>") (text "<unknown>") (text "invalid_event_shape") ∷ [])
