-- ===== src/Registry/Query/Selection.antt =====
-- src/protocol/event-registry/storage.ts: which events a query selects.
use odin_sentinel.Base.{
  ◌≡◌, refl, ◌⊎◌, inl, inr, Bool, true, false, Option, none, some, List, [], ◌∷◌, ◌++◌, Text, text,
  same, same_iff, text_lt, is_blank, not, ◌&&◌, filter, Json, Fields, end, entry, member, arith,
  Option-cases, Bool-cases, ap, ◌∙◌, subst, sym,
}
use mathlib.Core.Option.{some-injective}
use odin_sentinel.Governance.Events.{string_field}
use odin_sentinel.Registry.Schema.{GovdispEvent, one_of}
use odin_sentinel.Registry.Event.{class_of, type_of, event_classes}
use odin_sentinel.Registry.Event.Origins.{Holds}
use odin_sentinel.Registry.Rejections.{EventRejection, done, Library, Links}
use odin_sentinel.Registry.Storage.{Files, read_registry_events}
use odin_sentinel.Registry.Query.{
  query_fields, govdisp_event_types, unknown_filters, filter_rejection, is_stated, query_rejections,
  validate_registry_event_query, allows, selects, fields_of, query_registry_events,
  query_registry_events-read,
}

-- What the filters that are there ask of an event: equal fields, and a time within the bounds.
pub record Passes (f : Fields) (e : GovdispEvent) : Type 0 where
  pub objective :
      (t : Text) → Holds f (text "stable_objective_id") t → e.head.stable_objective_id ≡ t
  pub class : (t : Text) → Holds f (text "event_class") t → class_of e.detail ≡ t
  pub type : (t : Text) → Holds f (text "event_type") t → type_of e.detail ≡ t
  pub from : (t : Text) → Holds f (text "from_ts") t → text_lt e.head.ts t ≡ false
  pub to : (t : Text) → Holds f (text "to_ts") t → text_lt t e.head.ts ≡ false

-- The second list has the members of the first that pass, once each and in their order.
pub data Selection (f : Fields) : List GovdispEvent → List GovdispEvent → Type 0 where
  over : Selection f [] []
  kept :
      {e : GovdispEvent} {found events : List GovdispEvent}
      → Passes f e
      → Selection f found events
      → Selection f (e ∷ found) (e ∷ events)
  left :
      {e : GovdispEvent} {found events : List GovdispEvent}
      → (Passes f e → ⊥)
      → Selection f found events
      → Selection f (e ∷ found) events

-- A filter that is not there, or is a text of the right kind.
abbrev pub IsFilter : Option Json → (Text → Type 0) → Type 0
IsFilter v P = (v ≡ none) ⊎ ((t : Text) × (v ≡ some (Json.string t)) × P t)

abbrev pub AreKnown : Fields → Type 0
AreKnown end = Unit
AreKnown (entry k v rest) = (one_of query_fields k ≡ true) × AreKnown rest

pub record AreFilters (f : Fields) : Type 0 where
  pub known : AreKnown f
  pub objective : IsFilter (member (text "stable_objective_id") f) (λ t. is_blank t ≡ false)
  pub class : IsFilter (member (text "event_class") f) (λ t. one_of event_classes t ≡ true)
  pub type : IsFilter (member (text "event_type") f) (λ t. one_of govdisp_event_types t ≡ true)
  pub from : IsFilter (member (text "from_ts") f) (λ t. is_blank t ≡ false)
  pub to : IsFilter (member (text "to_ts") f) (λ t. is_blank t ≡ false)

string_field-of : (k : Text) (f : Fields) (t : Text) → Holds f k t → string_field k f ≡ some t
unfolding string_field
string_field-of k f t h = simp (string_field, h) refl

string_at :
    (k : Text) (f : Fields) (t : Text) (v : Json)
    → member k f ≡ some v
    → string_field k f ≡ some t
    → Holds f k t
unfolding string_field
string_at k f t (Json.string s) q h =
    q ∙ ap (λ x. some (Json.string x)) (some-injective _ _ (simp (string_field, q) at h))
string_at k f t Json.null q h = ground (arith, simp (string_field, q) at h)
string_at k f t (Json.bool b) q h = ground (arith, simp (string_field, q) at h)
string_at k f t (Json.number n) q h = ground (arith, simp (string_field, q) at h)
string_at k f t (Json.array a) q h = ground (arith, simp (string_field, q) at h)
string_at k f t (Json.object o) q h = ground (arith, simp (string_field, q) at h)

string_field-Holds : (k : Text) (f : Fields) (t : Text) → string_field k f ≡ some t → Holds f k t
unfolding string_field
string_field-Holds k f t h = elim (Option-cases (member k f)) [
  | inl q ↦ ground (arith, simp (string_field, q) at h)
  | inr (v, q) ↦ string_at k f t v q h
]

allows-asks :
    (k : Text) (f : Fields) (test : Text → Bool)
    → allows (string_field k f) test ≡ true
    → (t : Text) → Holds f k t
    → test t ≡ true
unfolding allows
allows-asks k f test h t q = simp (string_field-of k f t q, allows) at h

allows-of :
    (k : Text) (f : Fields) (test : Text → Bool)
    → ((t : Text) → Holds f k t → test t ≡ true)
    → allows (string_field k f) test ≡ true
unfolding allows
allows-of k f test h = elim (Option-cases (string_field k f)) [
  | inl q ↦ simp (q, allows) refl
  | inr (t, q) ↦ simp (q, allows) (h t (string_field-Holds k f t q))
]

and_parts : (a b : Bool) → (a && b) ≡ true → (a ≡ true) × (b ≡ true)
and_parts true b h = (refl, h)
and_parts false b h = ground arith

not_parts : (a : Bool) → not a ≡ true → a ≡ false
not_parts true h = ground arith
not_parts false h = refl

-- The test of each filter.
module _ (e : GovdispEvent) where
  abbrev has_objective : Text → Bool
  has_objective t = same e.head.stable_objective_id t

  abbrev has_class : Text → Bool
  has_class t = same (class_of e.detail) t

  abbrev has_type : Text → Bool
  has_type t = same (type_of e.detail) t

  abbrev is_from : Text → Bool
  is_from t = not (text_lt e.head.ts t)

  abbrev is_to : Text → Bool
  is_to t = not (text_lt t e.head.ts)

module _ (f : Fields) (e : GovdispEvent) where
  abbrev passed : Text → (Text → Bool) → Bool
  passed k test = allows (string_field k f) test

  selects-Passes : selects f e ≡ true → Passes f e
  unfolding selects
  selects-Passes h =
      let (h4, to) =
        and_parts
          (passed (text "stable_objective_id") (has_objective e)
            && passed (text "event_class") (has_class e)
            && passed (text "event_type") (has_type e)
            && passed (text "from_ts") (is_from e))
          (passed (text "to_ts") (is_to e)) h in
      let (h3, from) =
        and_parts
          (passed (text "stable_objective_id") (has_objective e)
            && passed (text "event_class") (has_class e)
            && passed (text "event_type") (has_type e))
          (passed (text "from_ts") (is_from e)) h4 in
      let (h2, type) =
        and_parts
          (passed (text "stable_objective_id") (has_objective e)
            && passed (text "event_class") (has_class e))
          (passed (text "event_type") (has_type e)) h3 in
      let (objective, class) =
        and_parts (passed (text "stable_objective_id") (has_objective e))
          (passed (text "event_class") (has_class e)) h2 in
      record {
        objective = λ t q. (same_iff _ t).0 (allows-asks _ f (has_objective e) objective t q);
        class = λ t q. (same_iff _ t).0 (allows-asks _ f (has_class e) class t q);
        type = λ t q. (same_iff _ t).0 (allows-asks _ f (has_type e) type t q);
        from = λ t q. not_parts _ (allows-asks _ f (is_from e) from t q);
        to = λ t q. not_parts _ (allows-asks _ f (is_to e) to t q);
      }

  Passes-selects : Passes f e → selects f e ≡ true
  unfolding selects
  Passes-selects p = simp (
    selects,
    allows-of (text "stable_objective_id") f (has_objective e)
        (λ t q. (same_iff _ t).1 (p.objective t q)),
    allows-of (text "event_class") f (has_class e) (λ t q. (same_iff _ t).1 (p.class t q)),
    allows-of (text "event_type") f (has_type e) (λ t q. (same_iff _ t).1 (p.type t q)),
    allows-of (text "from_ts") f (is_from e) (λ t q. ap not (p.from t q)),
    allows-of (text "to_ts") f (is_to e) (λ t q. ap not (p.to t q)),
  )

filter-Selection :
    (f : Fields) (found : List GovdispEvent) → Selection f found (filter (selects f) found)
filter-Selection f [] = Selection.over
filter-Selection f (e ∷ found) = elim (Bool-cases (selects f e)) [
  | inl c ↦ simp c (Selection.kept (selects-Passes f e c) (filter-Selection f found))
  | inr c ↦ simp c (
      Selection.left (λ p. let q = Passes-selects f e p in ground (arith, q, c))
        (filter-Selection f found))
]

append_nil : (xs ys : List EventRejection) → xs ++ ys ≡ [] → (xs ≡ []) × (ys ≡ [])
append_nil [] ys h = (refl, h)
append_nil (x ∷ xs) ys h = ground arith

filter_rejection-IsFilter :
    (k : Text) (passes : Text → Bool) (v : Option Json)
    → filter_rejection k passes v ≡ []
    → IsFilter v (λ t. passes t ≡ true)
unfolding filter_rejection
filter_rejection-IsFilter k passes none h = inl refl
filter_rejection-IsFilter k passes (some (Json.string t)) h = elim (Bool-cases (passes t)) [
  | inl c ↦ inr (t, refl, c)
  | inr c ↦ ground (arith, simp c at h)
]
filter_rejection-IsFilter k passes (some Json.null) h = ground arith
filter_rejection-IsFilter k passes (some (Json.bool b)) h = ground arith
filter_rejection-IsFilter k passes (some (Json.number n)) h = ground arith
filter_rejection-IsFilter k passes (some (Json.array a)) h = ground arith
filter_rejection-IsFilter k passes (some (Json.object o)) h = ground arith

stated_filter :
    (k : Text) (v : Option Json)
    → filter_rejection k is_stated v ≡ []
    → IsFilter v (λ t. is_blank t ≡ false)
unfolding is_stated
stated_filter k v h = elim (filter_rejection-IsFilter k is_stated v h) [
  | inl q ↦ inl q
  | inr (t, q, c) ↦ inr (t, q, not_parts _ c)
]

unknown_filters-AreKnown : (f : Fields) → unknown_filters f ≡ [] → AreKnown f
unfolding unknown_filters
unknown_filters-AreKnown end h = tt
unknown_filters-AreKnown (entry k v rest) h = elim (Bool-cases (one_of query_fields k)) [
  | inl c ↦ (c, unknown_filters-AreKnown rest (simp c at h))
  | inr c ↦ ground (arith, simp c at h)
]

query_rejections-AreFilters : (f : Fields) → query_rejections f ≡ [] → AreFilters f
unfolding query_rejections
query_rejections-AreFilters f h =
    let (a, h1) = append_nil _ _ h in
    let (b, h2) = append_nil _ _ h1 in
    let (c, h3) = append_nil _ _ h2 in
    let (d, h4) = append_nil _ _ h3 in
    let (from, to) = append_nil _ _ h4 in
    record {
      known = unknown_filters-AreKnown f a;
      objective = stated_filter _ _ b;
      class = filter_rejection-IsFilter _ _ _ c;
      type = filter_rejection-IsFilter _ _ _ d;
      from = stated_filter _ _ from;
      to = stated_filter _ _ to;
    }

validate-AreFilters :
    (query : Option Json) → validate_registry_event_query query ≡ [] → AreFilters (fields_of query)
unfolding validate_registry_event_query fields_of
validate-AreFilters none h = record {
  known = tt;
  objective = inl refl;
  class = inl refl;
  type = inl refl;
  from = inl refl;
  to = inl refl;
}
validate-AreFilters (some (Json.object f)) h = query_rejections-AreFilters f h
validate-AreFilters (some (Json.string t)) h = ground arith
validate-AreFilters (some Json.null) h = ground arith
validate-AreFilters (some (Json.bool b)) h = ground arith
validate-AreFilters (some (Json.number n)) h = ground arith
validate-AreFilters (some (Json.array a)) h = ground arith

-- A query that is answered has known filters only, each of them a text of its kind, and its answer has
-- exactly those events of the whole log, as a read gives them, whose objective, class and type are
-- those that the filters name and whose time is within the bounds that they set, in their order.
pub query_registry_events-done :
    (lib : Library) (files : Files) (links : Links) (scope : Text) (query : Option Json)
    (events : List GovdispEvent)
    → query_registry_events lib files links scope query ≡ done events
    → AreFilters (fields_of query)
      × ((found : List GovdispEvent) × (read_registry_events lib files links scope ≡ done found)
          × Selection (fields_of query) found events)
query_registry_events-done lib files links scope query events h =
    let (valid, (found, read, q)) =
      query_registry_events-read lib files links scope query events h in
    (
      validate-AreFilters query valid,
      (
        found,
        read,
        subst (Selection (fields_of query) found) (sym q)
            (filter-Selection (fields_of query) found),
      ),
    )
