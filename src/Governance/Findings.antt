-- ===== src/Governance/Findings.antt =====
-- src/protocol/governance.ts: the lifecycle of findings, the closure check and the count of the
-- active ones.
use odin_sentinel.Base.{
  ℕ, ◌+◌, Bool, false, not, ◌&&◌, none, some, List, [], ◌∷◌, ◌++◌, Text, text, same, is_blank,
  is_empty, length, if◌then◌else◌,
}
use odin_sentinel.Governance.Events.{
  Event, Answer, ok, Store, Query, then_ask, ask, query_govdisp_events, invalid_finding_id,
}

unfoldable pub is_finding : Event → Bool
unfolding same
is_finding e = same e.event_class (text "FINDING")

-- event.finding_id === id
unfoldable pub about : Text → Event → Bool
unfolding same
about id e = elim e.finding_id [ none ↦ false | some f ↦ same f id ]

-- The ids of the events of one type, and the roles of the owners.
pub record Lifecycle : Type 0 where
  pub opened : List Text
  pub owned : List Text
  pub delivered : List Text
  pub closed : List Text
  pub owner_roles : List Text

abbrev pub no_events : Lifecycle
no_events = record { opened = []; owned = []; delivered = []; closed = []; owner_roles = [] }

unfoldable pub push_if : Bool → Text → List Text → List Text
push_if b id ids = if b then ids ++ (id ∷ []) else ids

unfoldable pub owner_of : Event → List Text → List Text
unfolding is_blank
owner_of e roles = elim e.owner_role [
  | none ↦ roles
  | some role ↦ if is_blank role then roles else roles ++ (role ∷ [])
]

-- One round of the loop, for an event of the finding.
unfoldable pub note : Event → Lifecycle → Lifecycle
unfolding push_if owner_of same
note e l =
    let is_owned : Bool = same e.event_type (text "FINDING_OWNED") in
    record {
      opened = push_if (same e.event_type (text "FINDING_OPENED")) e.event_id l.opened;
      owned = push_if is_owned e.event_id l.owned;
      delivered = push_if (same e.event_type (text "FINDING_DELIVERED")) e.event_id l.delivered;
      closed = push_if (same e.event_type (text "FINDING_CLOSED")) e.event_id l.closed;
      owner_roles = if is_owned then owner_of e l.owner_roles else l.owner_roles;
    }

unfoldable pub lifecycle : Text → List Event → Lifecycle → Lifecycle
unfolding is_finding about note
lifecycle id [] l = l
lifecycle id (e ∷ es) l =
    let noted = lifecycle id es (note e l) in
    let skipped = lifecycle id es l in if is_finding e && about id e then noted else skipped

unfoldable pub event_count : Lifecycle → ℕ
event_count l = length l.opened + length l.owned + length l.delivered + length l.closed

unfoldable pub is_active : Lifecycle → Bool
is_active l = not (is_empty l.owned) && not (is_empty l.delivered) && is_empty l.closed

pub data Prerequisite : Type 0 where
  finding_owned finding_delivered : Prerequisite

unfoldable pub missing_prerequisites : Lifecycle → List Prerequisite
missing_prerequisites l =
    (if is_empty l.owned then finding_owned ∷ [] else [])
    ++ (if is_empty l.delivered then finding_delivered ∷ [] else [])

unfoldable pub summarize_finding_events : Text → List Event → Lifecycle
unfolding lifecycle
summarize_finding_events id events = lifecycle id events no_events

pub data Closure : Type 0 where
  closable : Closure
  finding_not_active : List Prerequisite → Closure

unfoldable pub closure : Lifecycle → Closure
unfolding missing_prerequisites
closure l = elim (missing_prerequisites l) [ [] ↦ closable | p ∷ ps ↦ finding_not_active (p ∷ ps) ]

-- byFinding: the events of each finding, in the order in which the findings are first seen.
abbrev pub Buckets : Type 0
Buckets = List (Text × List Event)

unfoldable pub put : Text → Event → Buckets → Buckets
unfolding same
put id e [] = (id, e ∷ []) ∷ []
put id e ((k, es) ∷ rest) =
    let later = put id e rest in if same k id then (k, es ++ (e ∷ [])) ∷ rest else (k, es) ∷ later

-- A finding event has a finding_id; one without is not a value of the source's type.
unfoldable pub grouped : List Event → Buckets → Buckets
unfolding put is_finding
grouped [] b = b
grouped (e ∷ es) b = elim e.finding_id [
  | none ↦ grouped es b
  | some id ↦ grouped es (if is_finding e then put id e b else b)
]

pub record ActiveFindings : Type 0 where
  pub active_finding_ids : List Text
  pub inactive_finding_ids : List Text

unfoldable pub sorted_out : Buckets → ActiveFindings
unfolding summarize_finding_events is_active
sorted_out [] = record { active_finding_ids = []; inactive_finding_ids = [] }
sorted_out ((id, events) ∷ rest) =
    let r = sorted_out rest in
    if is_active (summarize_finding_events id events)
    then record {
      active_finding_ids = id ∷ r.active_finding_ids;
      inactive_finding_ids = r.inactive_finding_ids;
    }
    else record {
      active_finding_ids = r.active_finding_ids;
      inactive_finding_ids = id ∷ r.inactive_finding_ids;
    }

abbrev pub finding_query : Query
finding_query = record { objective = none; class = some (text "FINDING") }

module _ {S : Type 0} (store : Store S) where
  unfoldable pub derive_finding_state : S → Text → Text → Answer Lifecycle
  unfolding ask then_ask summarize_finding_events is_blank
  derive_finding_state s scope id =
      then_ask (ask store s scope (not (is_blank id)) invalid_finding_id finding_query)
        (λ events. ok (summarize_finding_events id events))

  unfoldable pub evaluate_finding_closure : S → Text → Text → Answer (Closure × Lifecycle)
  unfolding derive_finding_state then_ask closure
  evaluate_finding_closure s scope id =
      then_ask (derive_finding_state s scope id) (λ l. ok (closure l, l))

  unfoldable pub count_active_findings : S → Text → Answer (ℕ × ActiveFindings)
  unfolding query_govdisp_events then_ask grouped sorted_out
  count_active_findings s scope =
      then_ask (query_govdisp_events store s scope finding_query) (λ events.
        let found : ActiveFindings = sorted_out (grouped events []) in
        ok (length found.active_finding_ids, found))
