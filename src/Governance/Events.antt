-- ===== src/Governance/Events.antt =====
-- src/protocol/governance.ts: registry events, the injected store, and the argument checks that
-- every evaluator makes before it asks the store.
use odin_sentinel.Base.{
  ◌≡◌, Bool, true, false, not, ◌&&◌, Option, none, some, List, [], ◌∷◌, ◌++◌, Text, text, same,
  is_blank, filter, Json, Fields, member, if◌then◌else◌,
}

-- The target of an audit.
pub data AuditTarget : Type 0 where
  ordinary_work : AuditTarget
  audit : Text → AuditTarget

-- The fields of a registry event that the evaluators read; `none` where the class has no such field.
pub record Event : Type 0 where
  pub event_id : Text
  pub ts : Text
  pub stable_objective_id : Text
  pub event_class : Text
  pub event_type : Text
  pub actor_role : Option Text
  pub trigger : Option Text
  pub finding_id : Option Text
  pub owner_role : Option Text
  pub target : Option AuditTarget

-- The codes of the rejections; `from_store` carries one of the store's own.
pub data Rejection : Type 0 where
  store_unavailable invalid_scope invalid_objective invalid_finding_id invalid_target : Rejection
  from_store : Text → Rejection

-- { ok: true, ... } or { ok: false, rejections }.
pub data Answer {ℓ} (A : Type ℓ) : Type ℓ where
  ok : A → Answer A
  refused : List Rejection → Answer A

-- The filters that the evaluators use.
pub record Query : Type 0 where
  pub objective : Option Text
  pub class : Option Text

unfoldable pub agrees : Option Text → Text → Bool
unfolding same
agrees none actual = true
agrees (some wanted) actual = same wanted actual

unfoldable pub matches : Query → Event → Bool
unfolding agrees
matches q e = agrees q.objective e.stable_objective_id && agrees q.class e.event_class

-- The injected store, bound to its base path; a method that is missing is `none`.
pub record Store (S : Type 0) : Type 0 where
  pub append : Option (S → Text → Json → S × Answer Event)
  pub query : Option (S → Text → Query → Answer (List Event))

-- fields[k], where it is a string.
unfoldable pub string_field : Text → Fields → Option Text
unfolding member
string_field k fields = elim (member k fields) [ some (Json.string s) ↦ some s | _ ↦ none ]

unfoldable pub field : Text → Json → Option Text
unfolding string_field
field k (Json.object fields) = string_field k fields
field k j = none

unfoldable pub then_ask {ℓ κ} : {A : Type ℓ} {B : Type κ} → Answer A → (A → Answer B) → Answer B
then_ask (ok a) f = f a
then_ask (refused r) f = refused r

-- A check of an argument, and what is done when it passes.
unfoldable pub checked {ℓ} : {A : Type ℓ} → Bool → Rejection → Answer A → Answer A
checked true r a = a
checked false r a = refused (r ∷ [])

unfoldable pub require_scope : Text → Bool
unfolding is_blank
require_scope scope = not (is_blank scope)

-- The store's method, or the rejection store_unavailable.
unfoldable pub required {ℓ κ} : {M : Type ℓ} {A : Type κ} → Option M → (M → Answer A) → Answer A
required none k = refused (store_unavailable ∷ [])
required (some m) k = k m

module _ {S : Type 0} (store : Store S) where
  -- The checks in their order, then the query.
  unfoldable pub ask : S → Text → Bool → Rejection → Query → Answer (List Event)
  unfolding required checked require_scope
  ask s scope valid r q =
      required store.query
        (λ f. checked (require_scope scope) invalid_scope (checked valid r (f s scope q)))

  unfoldable pub append_govdisp_event : S → Text → Json → S × Answer Event
  unfolding require_scope
  append_govdisp_event s scope event = elim store.append [
    | none ↦ (s, refused (store_unavailable ∷ []))
    | some f ↦ if require_scope scope then f s scope event else (s, refused (invalid_scope ∷ []))
  ]

  unfoldable pub query_govdisp_events : S → Text → Query → Answer (List Event)
  unfolding required checked require_scope
  query_govdisp_events s scope q =
      required store.query (λ f. checked (require_scope scope) invalid_scope (f s scope q))

-- What the evaluators rely on: the store keeps a log for each scope, a query that succeeds returns
-- the events of the log that match, in their order, and an append that succeeds puts the event it
-- returns, whose fields are the payload's, at the end of the scope's log; a refused one changes none.
pub record IsLog (S : Type 0) (store : Store S) : Type 1 where
  pub log : S → Text → List Event
  pub queried :
      (f : S → Text → Query → Answer (List Event))
      → store.query ≡ some f
      → (s : S) (scope : Text) (q : Query) (events : List Event) → f s scope q ≡ ok events
      → events ≡ filter (matches q) (log s scope)
  pub appended :
      (f : S → Text → Json → S × Answer Event)
      → store.append ≡ some f
      → (s s' : S) (scope : Text) (j : Json) (e : Event) → f s scope j ≡ (s', ok e)
      → (log s' scope ≡ log s scope ++ (e ∷ []))
        × (field (text "stable_objective_id") j ≡ some e.stable_objective_id)
        × (field (text "event_class") j ≡ some e.event_class)
        × (field (text "event_type") j ≡ some e.event_type)
  pub elsewhere :
      (f : S → Text → Json → S × Answer Event)
      → store.append ≡ some f
      → (s s' : S) (scope other : Text) (j : Json) (e : Event) → f s scope j ≡ (s', ok e)
      → same scope other ≡ false
      → log s' other ≡ log s other
  pub rejected :
      (f : S → Text → Json → S × Answer Event)
      → store.append ≡ some f
      → (s s' : S) (scope : Text) (j : Json) (r : List Rejection) → f s scope j ≡ (s', refused r)
      → (other : Text) → log s' other ≡ log s other
