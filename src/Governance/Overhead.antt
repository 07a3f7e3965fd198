-- ===== src/Governance/Overhead.antt =====
-- src/protocol/governance.ts: the governance-overhead budget, the guard that records one
-- TERMINAL_BLOCKED event, and the guard of the appends that follow it.
use odin_sentinel.Base.{
  ℕ, ◌+◌, ◌-◌, Bool, not, ◌&&◌, Option, none, some, List, [], ◌∷◌, Text, text, same, is_blank, ltb,
  if◌then◌else◌, Json, Fields, end, entry,
}
use odin_sentinel.Governance.Events.{
  Event, Answer, ok, refused, Store, then_ask, ask, require_scope, field, invalid_objective,
  invalid_scope, store_unavailable,
}
use odin_sentinel.Governance.Attempts.{listed, bump}

abbrev pub governance_overhead_budget : ℕ
governance_overhead_budget = 25

abbrev countable_classes : List Text
countable_classes = text "ATTEMPT" ∷ text "FINDING" ∷ text "BREAK_GLASS" ∷ text "AUDIT" ∷ []

unfoldable pub is_countable : Text → Bool
unfolding listed
is_countable class = listed countable_classes class

unfoldable pub is_overhead : Event → Bool
unfolding is_countable
is_overhead e = is_countable e.event_class

unfoldable pub is_terminal_blocked : Event → Bool
unfolding same
is_terminal_blocked e =
    same e.event_class (text "TERMINAL") && same e.event_type (text "TERMINAL_BLOCKED")

pub record Overhead : Type 0 where
  pub count : ℕ
  pub per_class : List (Text × ℕ)
  pub terminal_blocked_event_ids : List Text

-- The loop over the events; the ids of the terminal events are collected in order.
unfoldable pub overhead : List Event → ℕ → List (Text × ℕ) → Overhead
unfolding is_overhead is_terminal_blocked bump
overhead [] count per_class = record {
  count = count;
  per_class = per_class;
  terminal_blocked_event_ids = [];
}
overhead (e ∷ es) count per_class =
    let counted = overhead es (count + 1) (bump e.event_class per_class) in
    let skipped = overhead es count per_class in
    let rest = (if is_overhead e then counted else skipped) in
    if is_terminal_blocked e
    then record {
      count = rest.count;
      per_class = rest.per_class;
      terminal_blocked_event_ids = e.event_id ∷ rest.terminal_blocked_event_ids;
    }
    else rest

unfoldable pub remaining : Overhead → ℕ
remaining o = governance_overhead_budget - o.count

pub record TerminalInput : Type 0 where
  pub event_id : Text
  pub ts : Text
  pub actor_role : Option Text
  pub content_hashes : Json

-- { ...(typeof actor_role === "string" ? { actor_role } : {}), ... }
unfoldable pub with_actor : Option Text → Fields → Fields
with_actor none rest = rest
with_actor (some role) rest = entry (text "actor_role") (Json.string role) rest

unfoldable pub terminal_event : Text → TerminalInput → Fields
unfolding with_actor
terminal_event objective i = entry (text "schema_version") (Json.string (text "govdisp.event.v1")) (
    entry (text "event_id") (Json.string i.event_id) (
      entry (text "ts") (Json.string i.ts) (
        entry (text "stable_objective_id") (Json.string objective) (
          with_actor i.actor_role (
            entry (text "event_class") (Json.string (text "TERMINAL")) (
              entry (text "event_type") (Json.string (text "TERMINAL_BLOCKED"))
                (entry (text "content_hashes") i.content_hashes end)))))))

-- What the guards return besides rejections.
pub data Guarded : Type 0 where
  appended : Event → Guarded
  terminal_already_recorded : Text → Guarded
  budget_not_exhausted : Guarded
  objective_terminally_blocked : Text → Guarded

unfoldable pub stored : {S : Type 0} → S × Answer Event → S × Answer Guarded
unfolding then_ask
stored (s, a) = (s, then_ask a (λ e. ok (appended e)))

-- typeof candidate?.[k] === "string" ? candidate[k] : ""
unfoldable pub candidate_field : Text → Json → Text
unfolding field
candidate_field k event = elim (field k event) [ none ↦ [] | some t ↦ t ]

unfoldable pub governed_overhead : Json → Bool
unfolding candidate_field is_countable is_blank
governed_overhead event =
    not (is_blank (candidate_field (text "stable_objective_id") event))
    && is_countable (candidate_field (text "event_class") event)

module _ {S : Type 0} (store : Store S) where
  unfoldable pub derive_overhead_accounting : S → Text → Text → Answer Overhead
  unfolding overhead ask then_ask is_blank
  derive_overhead_accounting s scope objective =
      then_ask
        (ask store s scope (not (is_blank objective)) invalid_objective
          (record { objective = some objective; class = none }))
        (λ events. ok (overhead events 0 []))

  -- Whether the budget permits one more event.
  unfoldable pub evaluate_overhead_budget : S → Text → Text → Answer (Bool × Overhead)
  unfolding derive_overhead_accounting then_ask
  evaluate_overhead_budget s scope objective =
      then_ask (derive_overhead_accounting s scope objective)
        (λ o. ok (ltb o.count governance_overhead_budget, o))

  unfoldable pub record_budget_exhaustion : S → Text → Text → TerminalInput → S × Answer Guarded
  unfolding derive_overhead_accounting terminal_event stored
  record_budget_exhaustion s scope objective input =
      elim (derive_overhead_accounting s scope objective) [
        | refused r ↦ (s, refused r)
        | ok o ↦ elim o.terminal_blocked_event_ids [
          | id ∷ more ↦ (s, ok (terminal_already_recorded id))
          | [] ↦
              if ltb o.count governance_overhead_budget
              then (s, ok budget_not_exhausted)
              else elim store.append [
                | none ↦ (s, refused (store_unavailable ∷ []))
                | some f ↦ stored (f s scope (Json.object (terminal_event objective input)))
              ]
        ]
      ]

  -- What the append would return, unless the objective is blocked.
  unfoldable pub unless_blocked : S → Text → Text → S × Answer Guarded → S × Answer Guarded
  unfolding derive_overhead_accounting
  unless_blocked s scope objective result = elim (derive_overhead_accounting s scope objective) [
    | refused r ↦ (s, refused r)
    | ok o ↦ elim o.terminal_blocked_event_ids [
      | id ∷ more ↦ (s, ok (objective_terminally_blocked id))
      | [] ↦ result
    ]
  ]

  unfoldable pub append_governance_overhead_event : S → Text → Json → S × Answer Guarded
  unfolding unless_blocked governed_overhead stored require_scope
  append_governance_overhead_event s scope event = elim store.query [
    | none ↦ (s, refused (store_unavailable ∷ []))
    | some query ↦ elim store.append [
      | none ↦ (s, refused (store_unavailable ∷ []))
      | some f ↦
          if not (require_scope scope)
          then (s, refused (invalid_scope ∷ []))
          else if governed_overhead event
          then unless_blocked s scope (candidate_field (text "stable_objective_id") event)
              (stored (f s scope event))
          else stored (f s scope event)
    ]
  ]
