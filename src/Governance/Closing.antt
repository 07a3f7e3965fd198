-- ===== src/Governance/Closing.antt =====
-- src/protocol/governance.ts: when a finding is active, and when it may be closed.
use odin_sentinel.Base.{
  ℕ, ◌≡◌, refl, inl, inr, Bool, true, false, not, ◌&&◌, ◌||◌, List, [], ◌∷◌, Text, text, same,
  same_comm, is_empty, filter, length, ap, sym, ◌∙◌, arith, Bool-cases, if◌then◌else◌,
}
use odin_sentinel.Governance.Events.{Event, ok, Store, IsLog, agrees, matches}
use odin_sentinel.Governance.Findings.{
  is_finding, about, Lifecycle, note, push_if, lifecycle, no_events, is_active,
  missing_prerequisites, finding_owned, finding_delivered, summarize_finding_events, Closure,
  closable, finding_not_active, closure, grouped, ActiveFindings, sorted_out, finding_query,
  evaluate_finding_closure, derive_finding_state, count_active_findings,
}
use odin_sentinel.Governance.Log.{then_ask-ok, ask-ok, ok-injective, query_govdisp_events-ok}
use odin_sentinel.Governance.Activity.{
  events_of, bucket, bucket-grouped, keys, occurs, keys-once, keys_bound, active_at,
  sorted_out-active,
}

-- Whether a log has an event of a type for a finding.
unfoldable pub has : Text → Text → List Event → Bool
unfolding is_finding about same
has type id [] = false
has type id (e ∷ es) = (is_finding e && about id e && same e.event_type type) || has type id es

is_empty-push :
    (b : Bool) (id : Text) (ids : List Text) → is_empty (push_if b id ids) ≡ not b && is_empty ids
unfolding push_if
is_empty-push true id [] = refl
is_empty-push true id (x ∷ ids) = refl
is_empty-push false id ids = refl

lifecycle-owned :
    (id : Text) (es : List Event) (l : Lifecycle)
    → is_empty (lifecycle id es l).owned
      ≡ not (has (text "FINDING_OWNED") id es) && is_empty l.owned
unfolding lifecycle has note
lifecycle-owned id [] l = refl
lifecycle-owned id (e ∷ es) l = ground (
  arith,
  lifecycle-owned id es l,
  lifecycle-owned id es (note e l),
  is_empty-push (same e.event_type (text "FINDING_OWNED")) e.event_id l.owned,
)

lifecycle-delivered :
    (id : Text) (es : List Event) (l : Lifecycle)
    → is_empty (lifecycle id es l).delivered
      ≡ not (has (text "FINDING_DELIVERED") id es) && is_empty l.delivered
unfolding lifecycle has note
lifecycle-delivered id [] l = refl
lifecycle-delivered id (e ∷ es) l = ground (
  arith,
  lifecycle-delivered id es l,
  lifecycle-delivered id es (note e l),
  is_empty-push (same e.event_type (text "FINDING_DELIVERED")) e.event_id l.delivered,
)

lifecycle-closed :
    (id : Text) (es : List Event) (l : Lifecycle)
    → is_empty (lifecycle id es l).closed
      ≡ not (has (text "FINDING_CLOSED") id es) && is_empty l.closed
unfolding lifecycle has note
lifecycle-closed id [] l = refl
lifecycle-closed id (e ∷ es) l = ground (
  arith,
  lifecycle-closed id es l,
  lifecycle-closed id es (note e l),
  is_empty-push (same e.event_type (text "FINDING_CLOSED")) e.event_id l.closed,
)

-- The query for the class FINDING loses none of a finding's events.
has-query :
    (type id : Text) (log : List Event)
    → has type id (filter (matches finding_query) log) ≡ has type id log
unfolding has matches agrees is_finding
has-query type id [] = refl
has-query type id (e ∷ es) =
    ground (arith, has-query type id es, same_comm (text "FINDING") e.event_class)

has-events_of :
    (type id : Text) (log : List Event) → has type id (events_of id log) ≡ has type id log
unfolding has events_of
has-events_of type id [] = refl
has-events_of type id (e ∷ es) = ground (arith, has-events_of type id es)

-- Owned and delivered, and not closed.
abbrev pub drives : Text → List Event → Bool
drives id log =
    has (text "FINDING_OWNED") id log
    && has (text "FINDING_DELIVERED") id log
    && not (has (text "FINDING_CLOSED") id log)

summary-drives :
    (id : Text) (es : List Event) → is_active (summarize_finding_events id es) ≡ drives id es
unfolding is_active summarize_finding_events
summary-drives id es = ground (
  arith,
  lifecycle-owned id es no_events,
  lifecycle-delivered id es no_events,
  lifecycle-closed id es no_events,
)

-- The verdict for a finding with or without an owner, and with or without a delivery.
abbrev pub due : Bool → Bool → Closure
due true true = closable
due false true = finding_not_active (finding_owned ∷ [])
due true false = finding_not_active (finding_delivered ∷ [])
due false false = finding_not_active (finding_owned ∷ finding_delivered ∷ [])

closure-due :
    (id : Text) (es : List Event)
    → closure (summarize_finding_events id es)
      ≡ due (has (text "FINDING_OWNED") id es) (has (text "FINDING_DELIVERED") id es)
unfolding closure missing_prerequisites summarize_finding_events
closure-due id es = elim (Bool-cases (has (text "FINDING_OWNED") id es)) [
  | inl o ↦ elim (Bool-cases (has (text "FINDING_DELIVERED") id es)) [
    | inl d ↦
        simp (closure, lifecycle-owned id es no_events, lifecycle-delivered id es no_events, o, d)
          refl
    | inr d ↦
        simp (closure, lifecycle-owned id es no_events, lifecycle-delivered id es no_events, o, d)
          refl
  ]
  | inr o ↦ elim (Bool-cases (has (text "FINDING_DELIVERED") id es)) [
    | inl d ↦
        simp (closure, lifecycle-owned id es no_events, lifecycle-delivered id es no_events, o, d)
          refl
    | inr d ↦
        simp (closure, lifecycle-owned id es no_events, lifecycle-delivered id es no_events, o, d)
          refl
  ]
]

drives-events_of : (id : Text) (es : List Event) → drives id (events_of id es) ≡ drives id es
drives-events_of id es =
    simp
      (
        has-events_of (text "FINDING_OWNED") id es,
        has-events_of (text "FINDING_DELIVERED") id es,
        has-events_of (text "FINDING_CLOSED") id es,
      )
      refl

drives-is_empty : (id : Text) (es : List Event) → is_empty es ≡ true → drives id es ≡ false
unfolding has
drives-is_empty id [] h = refl
drives-is_empty id (e ∷ es) h = ground (arith, h)

active_at-grouped : (id : Text) (es : List Event) → active_at id (grouped es []) ≡ drives id es
unfolding active_at bucket
active_at-grouped id es =
    ap (λ x. is_active (summarize_finding_events id x)) (bucket-grouped id es [])
    ∙ summary-drives id (events_of id es)
    ∙ drives-events_of id es

drives-query :
    (id : Text) (log : List Event) → drives id (filter (matches finding_query) log) ≡ drives id log
drives-query id log =
    simp
      (
        has-query (text "FINDING_OWNED") id log,
        has-query (text "FINDING_DELIVERED") id log,
        has-query (text "FINDING_CLOSED") id log,
      )
      refl

once_each :
    (x y k : ℕ) (active empty : Bool)
    → x ≡ (if active then k else 0)
    → y ≡ (if active then 0 else k)
    → k ≡ (if empty then 0 else 1)
    → (empty ≡ true → active ≡ false)
    → (x ≡ (if active then 1 else 0)) × (y ≡ (if active || empty then 0 else 1))
once_each x y k true true p q r idle = absurd (ground (arith, idle refl))
once_each x y k true false p q r idle = (p ∙ r, q)
once_each x y k false true p q r idle = (p, q ∙ r)
once_each x y k false false p q r idle = (p, q ∙ r)

grouped-active :
    (id : Text) (es : List Event)
    → (occurs id (sorted_out (grouped es [])).active_finding_ids ≡ (if drives id es then 1 else 0))
      × (occurs id (sorted_out (grouped es [])).inactive_finding_ids
          ≡ (if drives id es || is_empty (events_of id es) then 0 else 1))
grouped-active id es =
    let (p, q) = sorted_out-active id (grouped es []) (λ k. keys_bound k es) in
    let a : active_at id (grouped es []) ≡ drives id es = active_at-grouped id es in
    once_each (occurs id (sorted_out (grouped es [])).active_finding_ids)
      (occurs id (sorted_out (grouped es [])).inactive_finding_ids) (keys id (grouped es []))
      (drives id es) (is_empty (events_of id es))
      (p ∙ ap (λ x. if x then keys id (grouped es []) else 0) a)
      (q ∙ ap (λ x. if x then 0 else keys id (grouped es [])) a) (keys-once id es)
      (λ h. sym (drives-events_of id es) ∙ drives-is_empty id (events_of id es) h)

events_of-query :
    (id : Text) (log : List Event)
    → events_of id (filter (matches finding_query) log) ≡ events_of id log
unfolding events_of matches agrees is_finding
events_of-query id [] = refl
events_of-query id (e ∷ es) =
    ground (arith, events_of-query id es, same_comm (text "FINDING") e.event_class)

module _ {S : Type 0} (store : Store S) (laws : IsLog S store) where
  -- For a store that keeps a log: a finding may be closed if the log has an owner's event and a
  -- delivery event for it, and otherwise the refusal names just those of the two that are missing.
  pub evaluate_finding_closure-ok :
      (s : S) (scope id : Text) (c : Closure) (l : Lifecycle)
      → evaluate_finding_closure store s scope id ≡ ok (c, l)
      → c
        ≡ due
            (has (text "FINDING_OWNED") id (laws.log s scope))
            (has (text "FINDING_DELIVERED") id (laws.log s scope))
  unfolding evaluate_finding_closure derive_finding_state
  evaluate_finding_closure-ok s scope id c l e =
      let (m, derived, e1) = then_ask-ok _ _ (c, l) e in
      let (events, asked, e2) = then_ask-ok _ _ m derived in
      let q : events ≡ filter (matches finding_query) (laws.log s scope) =
        ask-ok store laws s scope _ _ _ events asked in
      let summed : summarize_finding_events id events ≡ m = ok-injective _ _ e2 in
      let closed : closure m ≡ c = ap (λ x. x.0) (ok-injective _ _ e1) in
      sym closed
      ∙ ap closure (sym summed ∙ ap (summarize_finding_events id) q)
      ∙ closure-due id (filter (matches finding_query) (laws.log s scope))
      ∙ ap
          (λ x.
            due x (
              has (text "FINDING_DELIVERED") id
                (filter (matches finding_query) (laws.log s scope))))
          (has-query (text "FINDING_OWNED") id (laws.log s scope))
      ∙ ap (due (has (text "FINDING_OWNED") id (laws.log s scope)))
          (has-query (text "FINDING_DELIVERED") id (laws.log s scope))

  -- For a store that keeps a log: the count is the length of the list of active findings, a finding
  -- is on that list once if the log has an owner's event, a delivery event and no closing event for
  -- it, and is not on it otherwise; any other finding of the log is on the inactive list once.
  pub count_active_findings-ok :
      (s : S) (scope : Text) (n : ℕ) (found : ActiveFindings)
      → count_active_findings store s scope ≡ ok (n, found)
      → (id : Text)
      → (n ≡ length found.active_finding_ids)
        × (occurs id found.active_finding_ids ≡ (if drives id (laws.log s scope) then 1 else 0))
        × (occurs id found.inactive_finding_ids ≡ (
            if drives id (laws.log s scope) || is_empty (events_of id (laws.log s scope))
            then 0
            else 1))
  unfolding count_active_findings
  count_active_findings-ok s scope n found e id =
      let (events, asked, e1) = then_ask-ok _ _ (n, found) e in
      let log : List Event = laws.log s scope in
      let q : events ≡ filter (matches finding_query) log =
        query_govdisp_events-ok store laws s scope finding_query events asked in
      let both : (
        length (sorted_out (grouped events [])).active_finding_ids,
        sorted_out (grouped events []),
      )
          ≡ (n, found) =
        ok-injective _ _ e1 in
      let same_drives : drives id events ≡ drives id log = ap (drives id) q ∙ drives-query id log in
      let same_events : events_of id events ≡ events_of id log =
        ap (events_of id) q ∙ events_of-query id log in
      let (p, r) = grouped-active id events in
      let f : sorted_out (grouped events []) ≡ found = ap (λ x. x.1) both in
      (
        sym (ap (λ x. x.0) both) ∙ ap (λ x. length x.active_finding_ids) f,
        sym (ap (λ x. occurs id x.active_finding_ids) f)
            ∙ p
            ∙ ap (λ x. if x then 1 else 0) same_drives,
        sym (ap (λ x. occurs id x.inactive_finding_ids) f)
            ∙ r
            ∙ ap (λ x. if x || is_empty (events_of id events) then 0 else 1) same_drives
            ∙ ap (λ x. if drives id log || is_empty x then 0 else 1) same_events,
      )
