-- ===== src/Registry/Store.antt =====
-- src/protocol/governance.ts and src/protocol/event-registry/storage.ts: the registry's files as the
-- store that the evaluators are given.
use odin_sentinel.Base.{
  member, ◌≡◌, refl, inl, inr, Bool, false, Option, none, some, List, [], ◌∷◌, ◌++◌, map, Text,
  text, ap, sym, ◌∙◌, arith, Json, Fields, end, Bool-cases, same, same_comm, filter,
}
use mathlib.Core.Option.{some-injective}
use odin_sentinel.Governance.Events.{
  Event, Answer, ok, refused, Store, Query, IsLog, matches, agrees, from_store, Rejection, field,
  string_field,
}
use odin_sentinel.Governance.Log.{ok-injective, refused-ne-ok}
use odin_sentinel.Registry.Lock.{AreFinite}
use odin_sentinel.Registry.Schema.{GovdispEvent}
use odin_sentinel.Registry.Event.{class_of, with_text, view}
use odin_sentinel.Registry.Event.Origins.{Holds}
use odin_sentinel.Registry.Event.WellFormed.{IsEvent, parse_event-IsParsed}
use odin_sentinel.Registry.Rejections.{EventRejection, Result, done, rejected, Library, Links}
use odin_sentinel.Registry.Storage.{
  Files, put, text_of, Env, AppendOptions, Outcome, answered, threw, stuck, append_registry_event,
  event_line,
}
use odin_sentinel.Registry.Query.{
  query_registry_events, query_registry_events-read, selects, allows, fields_of,
}
use odin_sentinel.Registry.Appending.{IsLibrary, Accepts, Leaves, append_registry_event-Leaves}
use odin_sentinel.Registry.Log.{
  AreTerminated, events_in, append_registry_event-Extends, read_registry_events-done, one_more,
  put_same, put_other,
}
use odin_sentinel.Registry.Answers.{IsQuiet, IsAnswer, append_registry_event-IsAnswer}

-- The registry's logs, all of them terminated.
pub record Registry : Type 0 where
  pub files : Files
  pub terminated : AreTerminated files

-- { stable_objective_id, event_class }, as the evaluators ask.
unfoldable pub query_fields : Query → Fields
unfolding with_text
query_fields q =
    with_text (text "stable_objective_id") q.objective (with_text (text "event_class") q.class end)

unfoldable pub codes : List EventRejection → List Rejection
codes r = map (λ x. from_store x.code) r

unfoldable pub viewed : Result (List GovdispEvent) → Answer (List Event)
unfolding codes view
viewed (done events) = ok (map view events)
viewed (rejected r) = refused (codes r)

-- A call without a fault answers, so the last two clauses are not met.
unfoldable pub answer_of : Outcome → Answer Event
unfolding codes view
answer_of (answered (done e)) = ok (view e)
answer_of (answered (rejected r)) = refused (codes r)
answer_of threw = refused []
answer_of stuck = refused []

-- The filters of the evaluators are those of the registry.
selects-matches :
    (objective class : Option Text) (e : GovdispEvent)
    → selects (query_fields (record { objective = objective; class = class })) e
      ≡ matches (record { objective = objective; class = class }) (view e)
unfolding selects matches query_fields with_text allows string_field member same agrees view
selects-matches none none e = refl
selects-matches (some o) none e = ground (arith, same_comm e.head.stable_objective_id o)
selects-matches none (some c) e = ground (arith, same_comm (class_of e.detail) c)
selects-matches (some o) (some c) e =
    ground (arith, same_comm e.head.stable_objective_id o, same_comm (class_of e.detail) c)

-- The links and the environment that each call meets, and the options that it is given.
module _ (lib : Library) (laws : IsLibrary lib) (links : Files → Text → Links)
    (weather : Files → Text → Json → Env)
    (quiet : (files : Files) (scope : Text) (j : Json) → IsQuiet (weather files scope j))
    (options : AppendOptions) where
  abbrev pub appended : Registry → Text → Json → Files × Outcome
  appended s scope j = append_registry_event lib s.files (weather s.files scope j) scope j options

  unfoldable pub append_to : Registry → Text → Json → Registry × Answer Event
  unfolding append_registry_event answer_of
  append_to s scope j = (
    record {
      files = (appended s scope j).0;
      terminated = λ other.
          (append_registry_event-Extends lib laws s.files
            (record { env = weather s.files scope j; scope = scope; event = j; options = options })
            ((quiet s.files scope j).whole) s.terminated other).terminated;
    },
    answer_of ((appended s scope j).1),
  )

  unfoldable pub query_of : Registry → Text → Query → Answer (List Event)
  unfolding viewed query_registry_events query_fields
  query_of s scope q = viewed (
      query_registry_events lib s.files (links s.files scope) scope
        (some (Json.object (query_fields q))))

  abbrev pub file_store : Store Registry
  file_store = record { append = some append_to; query = some query_of }

  log_of : Registry → Text → List Event
  unfolding view
  log_of s scope = map view (events_in lib laws (s.files scope))

  filter-map :
      (p : Event → Bool) (r : GovdispEvent → Bool)
      → ((e : GovdispEvent) → r e ≡ p (view e))
      → (xs : List GovdispEvent) → map view (filter r xs) ≡ filter p (map view xs)
  filter-map p r h [] = refl
  filter-map p r h (x ∷ xs) = elim (Bool-cases (r x)) [
    | inl c ↦ simp (c, sym (h x) ∙ c) (ap (λ t. view x ∷ t) (filter-map p r h xs))
    | inr c ↦ simp (c, sym (h x) ∙ c) (filter-map p r h xs)
  ]

  view-query :
      (q : Query) (events : List GovdispEvent)
      → map view (filter (selects (query_fields q)) events) ≡ filter (matches q) (map view events)
  view-query q events =
      filter-map (matches q) (selects (query_fields q)) (selects-matches q.objective q.class) events

  viewed-ok :
      (r : Result (List GovdispEvent)) (events : List Event)
      → viewed r ≡ ok events
      → (found : List GovdispEvent) × (r ≡ done found) × (events ≡ map view found)
  unfolding viewed
  viewed-ok (done found) events h = (found, refl, sym (ok-injective _ events h))
  viewed-ok (rejected r) events h = refused-ne-ok _ events h

  queried_files :
      (s : Registry) (scope : Text) (q : Query) (events : List Event)
      → query_of s scope q ≡ ok events
      → events ≡ filter (matches q) (log_of s scope)
  unfolding query_of log_of fields_of
  queried_files s scope q events h =
      let (chosen, asked, shown) = viewed-ok _ events h in
      let (valid, (found, read, selection)) =
        query_registry_events-read lib s.files (links s.files scope) scope
          (some (Json.object (query_fields q))) chosen asked in
      let (safe, clear, all, sound) =
        (read_registry_events-done lib laws s.files (links s.files scope) scope found).0 read in
      shown
      ∙ ap (map view) selection
      ∙ view-query q found
      ∙ ap (λ x. filter (matches q) (map view x)) (sym all)

  -- What an append that is accepted does, and what a refused one does.
  accepted :
      (s : Registry) (scope : Text) (j : Json) (e : Event) (p : Files × Outcome)
      → Leaves lib s.files (weather s.files scope j) scope j options p
      → answer_of p.1 ≡ ok e
      → (g : GovdispEvent) × Accepts lib scope j options g
        × (p.0 ≡ put scope (text_of (s.files scope) ++ event_line lib g) s.files)
        × (view g ≡ e)
  unfolding answer_of
  accepted s scope j e (left, answered (done g)) (a, q, t) h = (g, a, q, ok-injective _ _ h)
  accepted s scope j e (left, answered (rejected r)) q h = refused-ne-ok _ e h
  accepted s scope j e (left, threw) q h = refused-ne-ok _ e h
  accepted s scope j e (left, stuck) q h = refused-ne-ok _ e h

  unaccepted :
      (s : Registry) (scope : Text) (j : Json) (r : List Rejection) (p : Files × Outcome)
      → Leaves lib s.files (weather s.files scope j) scope j options p
      → IsAnswer p.1
      → answer_of p.1 ≡ refused r
      → p.0 ≡ s.files
  unfolding answer_of
  unaccepted s scope j r (left, answered (done g)) l a h = refused-ne-ok r _ (sym h)
  unaccepted s scope j r (left, answered (rejected x)) q a h = q
  unaccepted s scope j r (left, threw) q a h = ground arith
  unaccepted s scope j r (left, stuck) q a h = q

  leaves :
      (s : Registry) (scope : Text) (j : Json)
      → Leaves lib s.files (weather s.files scope j) scope j options (appended s scope j)
  leaves s scope j =
      append_registry_event-Leaves lib s.files (weather s.files scope j) scope j options

  answers :
      AreFinite options.lock
      → (s : Registry) (scope : Text) (j : Json) → IsAnswer ((appended s scope j).1)
  answers finite s scope j =
      append_registry_event-IsAnswer lib s.files (weather s.files scope j) scope
        (quiet s.files scope j) j options finite

  map-append :
      (xs : List GovdispEvent) (g : GovdispEvent)
      → map view (xs ++ (g ∷ [])) ≡ map view xs ++ (view g ∷ [])
  map-append [] g = refl
  map-append (x ∷ xs) g = ap (λ t. view x ∷ t) (map-append xs g)

  Holds-field : (k : Text) (f : Fields) (t : Text) → Holds f k t → field k (Json.object f) ≡ some t
  unfolding field string_field
  Holds-field k f t h = simp (string_field, h) refl

  module _ (f : Registry → Text → Json → Registry × Answer Event) (has : some append_to ≡ some f)
      (s s' : Registry) (scope : Text) (j : Json) (a : Answer Event)
      (h : f s scope j ≡ (s', a)) where
    ran : append_to s scope j ≡ (s', a)
    ran = ap (λ g. g s scope j) (some-injective _ _ has) ∙ h

    ran-files : (appended s scope j).0 ≡ s'.files
    unfolding append_to
    ran-files = ap (λ x. x.0.files) ran

    ran-answer : answer_of ((appended s scope j).1) ≡ a
    unfolding append_to
    ran-answer = ap (λ x. x.1) ran

  -- One accepted append, seen in the log of any scope.
  log-here :
      (s s' : Registry) (scope : Text) (g : GovdispEvent)
      → s'.files ≡ put scope (text_of (s.files scope) ++ event_line lib g) s.files
      → IsEvent g
      → log_of s' scope ≡ log_of s scope ++ (view g ∷ [])
  unfolding log_of text_of
  log-here s s' scope g q valid =
      let now = ap (λ x. x scope) q ∙ put_same scope _ s.files in
      let (more, faults, ends) =
        one_more lib laws (text_of (s.files scope)) g (s.terminated scope) valid in
      ap (λ x. map view (events_in lib laws x)) now
      ∙ ap (map view) more
      ∙ map-append (events_in lib laws (s.files scope)) g

  log-elsewhere :
      (s s' : Registry) (scope other : Text) (t : Text)
      → s'.files ≡ put scope t s.files
      → same scope other ≡ false
      → log_of s' other ≡ log_of s other
  unfolding log_of
  log-elsewhere s s' scope other t q miss =
      ap (λ x. map view (events_in lib laws (x other))) q
      ∙ ap (λ x. map view (events_in lib laws x))
          (put_other scope other t s.files (same_comm other scope ∙ miss))

  -- With lock options that are not given or whole numbers, the registry's files implement the store
  -- that the evaluators rely on.
  pub file_store-IsLog : AreFinite options.lock → IsLog Registry file_store
  unfolding view log_of
  file_store-IsLog finite = record {
    log = log_of;
    queried = λ f has s scope q events e.
        queried_files s scope q events (ap (λ g. g s scope q) (some-injective _ _ has) ∙ e);
    appended = λ f has s s' scope j e h.
        let (g, a, left, shown) =
          accepted s scope j e (appended s scope j) (leaves s scope j)
            (ran-answer f has s s' scope j (ok e) h) in
        let q = sym (ran-files f has s s' scope j (ok e) h) ∙ left in
        let parsed = parse_event-IsParsed a.fields g (sym (laws.schema a.fields) ∙ a.parsed) in
        (
          log-here s s' scope g q parsed.allowed ∙ ap (λ x. log_of s scope ++ (x ∷ [])) shown,
          ap (field (text "stable_objective_id")) a.object
              ∙ Holds-field _ _ _ parsed.objective
              ∙ ap (λ x. some x.stable_objective_id) shown,
          ap (field (text "event_class")) a.object
              ∙ Holds-field _ _ _ parsed.class
              ∙ ap (λ x. some x.event_class) shown,
          ap (field (text "event_type")) a.object
              ∙ Holds-field _ _ _ parsed.type
              ∙ ap (λ x. some x.event_type) shown,
        );
    elsewhere = λ f has s s' scope other j e h miss.
        let (g, a, left, shown) =
          accepted s scope j e (appended s scope j) (leaves s scope j)
            (ran-answer f has s s' scope j (ok e) h) in
        log-elsewhere s s' scope other _ (sym (ran-files f has s s' scope j (ok e) h) ∙ left) miss;
    rejected = λ f has s s' scope j r h other.
        let kept =
          unaccepted s scope j r (appended s scope j) (leaves s scope j) (answers finite s scope j)
            (ran-answer f has s s' scope j (refused r) h) in
        ap (λ x. map view (events_in lib laws (x other)))
          (sym (ran-files f has s s' scope j (refused r) h) ∙ kept);
  }
