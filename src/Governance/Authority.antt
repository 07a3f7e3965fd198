-- ===== src/Governance/Authority.antt =====
-- src/protocol/governance.ts: the registry-mode flag, and registry events as the authority of a
-- receipt.
use odin_sentinel.Base.{
  ℕ, ◌+◌, Bool, true, not, ◌&&◌, Option, none, some, List, [], ◌∷◌, Text, text, same, trim,
  is_blank, is_empty, leb, if◌then◌else◌, map, Json, Fields, member,
}
use odin_sentinel.Governance.Events.{Event, ok, refused, Store, string_field}
use odin_sentinel.Governance.Attempts.{listed}

abbrev truthy : List Text
truthy = text "1" ∷ text "true" ∷ text "yes" ∷ text "on" ∷ []

-- toLowerCase(), as far as it decides whether the text is one of the ASCII words above.
lower : ℕ → ℕ
lower c = if leb b'A' c && leb c b'Z' then c + 32 else c

pub data FlagSource : Type 0 where
  env default_on : FlagSource

unfoldable pub resolve_mode : Text → Bool × FlagSource
unfolding listed
resolve_mode normalized =
    if is_empty normalized then (true, default_on) else (listed truthy normalized, env)

-- The environment's value of the flag; `none` is unset.
unfoldable pub read_govdisp_registry_mode : Option Text → Bool × FlagSource
unfolding resolve_mode lower trim
read_govdisp_registry_mode none = (true, default_on)
read_govdisp_registry_mode (some raw) = resolve_mode (map lower (trim raw))

unfoldable pub non_blank : Option Text → Option Text
unfolding is_blank
non_blank none = none
non_blank (some t) = if is_blank t then none else some t

unfoldable pub event_by_id : Text → List Event → Option Event
unfolding same
event_by_id id [] = none
event_by_id id (e ∷ es) =
    let later = event_by_id id es in if same e.event_id id then some e else later

unfoldable pub is_receipt_authority : Event → Bool
unfolding same
is_receipt_authority e = same e.event_class (text "TERMINAL")

pub data Fault : Type 0 where
  no_object no_scope no_event_id no_store query_failed no_such_event wrong_class : Fault

-- The resolution of a reference: the event with its scope, or the fault.
pub data Resolution : Type 0 where
  resolved : Text → Event → Resolution
  unresolved : Fault → Resolution

unfoldable pub among : Text → Text → List Event → Resolution
unfolding event_by_id is_receipt_authority
among scope id events = elim (event_by_id id events) [
  | none ↦ unresolved no_such_event
  | some e ↦ if is_receipt_authority e then resolved scope e else unresolved wrong_class
]

-- What a receipt's validator returns of it: `baseline` is the prose result with nothing added.
pub data Adjudication : Type 0 where
  baseline prose_transport : Adjudication
  registry : Text → Event → Adjudication
  registry_authority_unresolved : Fault → Adjudication

module _ {S : Type 0} (store : Store S) where
  unfoldable pub resolve_registry_authority : S → Json → Resolution
  unfolding among string_field non_blank
  resolve_registry_authority s (Json.object reference) =
      elim (non_blank (string_field (text "scope") reference)) [
        | none ↦ unresolved no_scope
        | some scope ↦ elim (non_blank (string_field (text "event_id") reference)) [
          | none ↦ unresolved no_event_id
          | some id ↦ elim store.query [
            | none ↦ unresolved no_store
            | some f ↦ elim (f s scope (record { objective = none; class = none })) [
              | refused r ↦ unresolved query_failed
              | ok events ↦ among scope id events
            ]
          ]
        ]
      ]
  resolve_registry_authority s j = unresolved no_object

  adjudicated : Resolution → Adjudication
  adjudicated (resolved scope e) = registry scope e
  adjudicated (unresolved f) = registry_authority_unresolved f

  -- `none` is null: the caller runs the prose validation and adds the advisory.
  unfoldable pub adjudicate_registry_authority : S → Option Text → Fields → Option Adjudication
  unfolding resolve_registry_authority adjudicated read_govdisp_registry_mode member
  adjudicate_registry_authority s flag payload =
      if not ((read_govdisp_registry_mode flag).0)
      then none
      else elim (member (text "registry_authority") payload) [
        | none ↦ none
        | some Json.null ↦ none
        | some reference ↦ some (adjudicated (resolve_registry_authority s reference))
      ]

  unfoldable pub with_prose_transport_advisory : Option Text → Adjudication
  unfolding read_govdisp_registry_mode
  with_prose_transport_advisory flag =
      if (read_govdisp_registry_mode flag).0 then prose_transport else baseline

  -- The two branches as the validators of receipts compose them.
  unfoldable pub authority : S → Option Text → Fields → Adjudication
  unfolding adjudicate_registry_authority with_prose_transport_advisory
  authority s flag payload = elim (adjudicate_registry_authority s flag payload) [
    | none ↦ with_prose_transport_advisory flag
    | some a ↦ a
  ]
