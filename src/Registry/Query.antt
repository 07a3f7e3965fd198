-- ===== src/Registry/Query.antt =====
-- src/protocol/event-registry/storage.ts: the filters of a query, and the query over the log.
pub mod Selection
use odin_sentinel.Base.{
  ◌≡◌, refl, sym, Bool, true, not, ◌&&◌, Option, none, some, List, [], ◌∷◌, ◌++◌, Text, text, same,
  text_lt, is_blank, filter, Json, Fields, end, entry, member, if◌then◌else◌,
}
use odin_sentinel.Governance.Events.{string_field}
use odin_sentinel.Registry.Schema.{
  GovdispEvent, one_of, attempt_types, finding_types, break_glass_types, budget_types,
  terminal_types, audit_types,
}
use odin_sentinel.Registry.Event.{class_of, type_of, event_classes}
use odin_sentinel.Registry.Rejections.{
  EventRejection, Result, done, rejected, Library, rejection, Links,
}
use odin_sentinel.Registry.Storage.{Files, read_registry_events}
use odin_sentinel.Registry.Appending.{done-injective, rejected-ne-done}

abbrev pub query_fields : List Text
query_fields =
    text "stable_objective_id"
    ∷ text "event_class"
    ∷ text "event_type"
    ∷ text "from_ts"
    ∷ text "to_ts"
    ∷ []

-- The known event types.
abbrev pub govdisp_event_types : List Text
govdisp_event_types =
    attempt_types ++ finding_types ++ break_glass_types ++ budget_types ++ terminal_types
    ++ audit_types

unfoldable pub invalid_query : Text → EventRejection
invalid_query field = rejection field (text "<query>") (text "invalid_query")

unfoldable pub unknown_filters : Fields → List EventRejection
unfolding one_of invalid_query
unknown_filters end = []
unknown_filters (entry k v rest) =
    let others = unknown_filters rest in
    if one_of query_fields k then others else invalid_query k ∷ others

-- A filter that is there has to be a string that passes.
unfoldable pub filter_rejection : Text → (Text → Bool) → Option Json → List EventRejection
unfolding invalid_query
filter_rejection field passes none = []
filter_rejection field passes (some (Json.string t)) =
    if passes t then [] else invalid_query field ∷ []
filter_rejection field passes (some v) = invalid_query field ∷ []

unfoldable pub is_stated : Text → Bool
unfolding is_blank
is_stated t = not (is_blank t)

unfoldable pub query_rejections : Fields → List EventRejection
unfolding unknown_filters filter_rejection is_stated one_of member
query_rejections f =
    unknown_filters f
    ++ (filter_rejection (text "stable_objective_id") is_stated
          (member (text "stable_objective_id") f)
        ++ (filter_rejection (text "event_class") (one_of event_classes)
              (member (text "event_class") f)
            ++ (filter_rejection (text "event_type") (one_of govdisp_event_types)
                  (member (text "event_type") f)
                ++ (filter_rejection (text "from_ts") is_stated (member (text "from_ts") f)
                    ++ filter_rejection (text "to_ts") is_stated (member (text "to_ts") f)))))

-- `none` is an undefined query.
unfoldable pub validate_registry_event_query : Option Json → List EventRejection
unfolding query_rejections invalid_query
validate_registry_event_query none = []
validate_registry_event_query (some (Json.object f)) = query_rejections f
validate_registry_event_query (some v) = invalid_query (text "<query>") ∷ []

-- A filter that is not there, or that the value passes.
unfoldable pub allows : Option Text → (Text → Bool) → Bool
allows none passes = true
allows (some t) passes = passes t

unfoldable pub selects : Fields → GovdispEvent → Bool
unfolding allows string_field same text_lt class_of type_of
selects f e =
    allows (string_field (text "stable_objective_id") f) (λ t. same e.head.stable_objective_id t)
    && allows (string_field (text "event_class") f) (λ t. same (class_of e.detail) t)
    && allows (string_field (text "event_type") f) (λ t. same (type_of e.detail) t)
    && allows (string_field (text "from_ts") f) (λ t. not (text_lt e.head.ts t))
    && allows (string_field (text "to_ts") f) (λ t. not (text_lt t e.head.ts))

-- The fields of the query; the default is the empty object.
unfoldable pub fields_of : Option Json → Fields
fields_of (some (Json.object f)) = f
fields_of v = end

unfoldable pub selected : Fields → Result (List GovdispEvent) → Result (List GovdispEvent)
unfolding selects
selected f (rejected r) = rejected r
selected f (done events) = done (filter (selects f) events)

-- if (rejections.length > 0) return { ok: false, rejections }
unfoldable pub unless_rejected {ℓ} : {A : Type ℓ} → List EventRejection → Result A → Result A
unless_rejected [] answer = answer
unless_rejected (r ∷ rest) answer = rejected (r ∷ rest)

module _ (lib : Library) where
  unfoldable pub query_registry_events :
      Files → Links → Text → Option Json → Result (List GovdispEvent)
  unfolding unless_rejected validate_registry_event_query selected fields_of read_registry_events
  query_registry_events files links scope query =
      unless_rejected (validate_registry_event_query query)
        (selected (fields_of query) (read_registry_events lib files links scope))

  pub unless_rejected-done {ℓ} :
      {A : Type ℓ} (r : List EventRejection) (a : Result A) (x : A)
      → unless_rejected r a ≡ done x
      → (r ≡ []) × (a ≡ done x)
  unfolding unless_rejected
  unless_rejected-done [] a x h = (refl, h)
  unless_rejected-done (r ∷ rest) a x h = rejected-ne-done _ x h

  selected-done :
      (f : Fields) (a : Result (List GovdispEvent)) (events : List GovdispEvent)
      → selected f a ≡ done events
      → (found : List GovdispEvent) × (a ≡ done found) × (events ≡ filter (selects f) found)
  unfolding selected
  selected-done f (done found) events h = (found, refl, sym (done-injective _ events h))
  selected-done f (rejected r) events h = rejected-ne-done r events h

  -- An answered query has passed the validation, and filters what a read gives.
  pub query_registry_events-read :
      (files : Files) (links : Links) (scope : Text) (query : Option Json)
      (events : List GovdispEvent)
      → query_registry_events files links scope query ≡ done events
      → (validate_registry_event_query query ≡ [])
        × ((found : List GovdispEvent) × (read_registry_events lib files links scope ≡ done found)
            × (events ≡ filter (selects (fields_of query)) found))
  unfolding query_registry_events
  query_registry_events-read files links scope query events h =
      let (valid, chosen) = unless_rejected-done (validate_registry_event_query query) _ events h in
      (
        valid,
        selected-done (fields_of query) (read_registry_events lib files links scope) events chosen,
      )
