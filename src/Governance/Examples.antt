-- ===== src/Governance/Examples.antt =====
-- src/protocol/governance.ts: a store in memory, on which the theorems on the evaluators are applied.
use mathlib.Core.Option.{some-injective}
use odin_sentinel.Base.{
  ℕ, zero, suc, ◌<◌, ◌≡◌, refl, false, ◌||◌, Option, none, some, List, [], ◌∷◌, ◌++◌, Text, text,
  same, same_self, is_blank, is_empty, filter, map, length, ◌∙◌, Json, entry, end, sym, ap, arith,
  if◌then◌else◌, All,
}
use odin_sentinel.Governance.Events.{
  Event, AuditTarget, ordinary_work, audit, Answer, ok, refused, Rejection, invalid_objective,
  Store, IsLog, Query, matches, field,
}
use odin_sentinel.Governance.Attempts.{refusal, accounting, Accounting, evaluate_attempt_ceiling}
use odin_sentinel.Governance.Depth.{
  Derivation, derivation, no_offer, DepthVerdict, refused_depth, evaluate_meta_governance_depth,
  is_break_glass,
}
use odin_sentinel.Governance.Authority.{resolve_registry_authority}
use odin_sentinel.Governance.Receipts.{Backed, resolve_registry_authority-Backed}
use odin_sentinel.Governance.Overhead.{TerminalInput, candidate_field}
use odin_sentinel.Governance.Findings.{
  Closure, closable, Lifecycle, ActiveFindings, evaluate_finding_closure, count_active_findings,
}
use odin_sentinel.Governance.Log.{refused-ne-ok, ok-injective}
use odin_sentinel.Governance.OneTerminal.{of_objective, spent, terminals, Guards}
use odin_sentinel.Governance.Blocking.{
  Call, exhaustion, overhead_append, IsNonterminal, after_calls, after_calls-Guards,
  after_calls-frozen,
}
use odin_sentinel.Governance.Ceiling.{attempts, Decides, total, evaluate_attempt_ceiling-ok}
use odin_sentinel.Governance.Walking.{IsLayered, derivation-IsLayered}
use odin_sentinel.Governance.Layers.{Justified, glass, evaluate_meta_governance_depth-Justified}
use odin_sentinel.Governance.Closing.{
  has, due, drives, evaluate_finding_closure-ok, count_active_findings-ok,
}
use odin_sentinel.Governance.Activity.{events_of, occurs}

-- The logs of the scopes.
abbrev Logs : Type 0
Logs = Text → List Event

-- An event with the payload's objective, class and type.
unfoldable event_of : Option Text → Option Text → Option Text → Answer Event
event_of (some o) (some c) (some t) = ok (record {
  event_id = [];
  ts = [];
  stable_objective_id = o;
  event_class = c;
  event_type = t;
  actor_role = none;
  trigger = none;
  finding_id = none;
  owner_role = none;
  target = none;
})
event_of o c t = refused (invalid_objective ∷ [])

unfoldable parsed : Json → Answer Event
parsed j =
    event_of (field (text "stable_objective_id") j) (field (text "event_class") j)
      (field (text "event_type") j)

unfoldable grown : Logs → Text → Answer Event → Logs
grown logs scope (ok e) = λ other. if same scope other then logs other ++ (e ∷ []) else logs other
grown logs scope (refused r) = logs

abbrev memory : Store Logs
memory = record {
  append = some (λ logs scope j. (grown logs scope (parsed j), parsed j));
  query = some (λ logs scope q. ok (filter (matches q) (logs scope)));
}

event_of-ok :
    (o c t : Option Text) (e : Event)
    → event_of o c t ≡ ok e
    → (o ≡ some e.stable_objective_id) × (c ≡ some e.event_class) × (t ≡ some e.event_type)
unfolding event_of
event_of-ok (some o) (some c) (some t) e h =
    let q = ok-injective _ _ h in
    (
      ap (λ x. some x.stable_objective_id) q,
      ap (λ x. some x.event_class) q,
      ap (λ x. some x.event_type) q,
    )
event_of-ok none c t e h = refused-ne-ok _ e h
event_of-ok (some o) none t e h = refused-ne-ok _ e h
event_of-ok (some o) (some c) none e h = refused-ne-ok _ e h

grown-here :
    (logs : Logs) (scope : Text) (e : Event)
    → grown logs scope (ok e) scope ≡ logs scope ++ (e ∷ [])
unfolding grown
grown-here logs scope e = simp (same_self scope) refl

grown-elsewhere :
    (logs : Logs) (scope other : Text) (e : Event)
    → same scope other ≡ false
    → grown logs scope (ok e) other ≡ logs other
unfolding grown
grown-elsewhere logs scope other e h = simp (h) refl

append_memory : Logs → Text → Json → Logs × Answer Event
append_memory logs scope j = (grown logs scope (parsed j), parsed j)

-- What an append in memory says of its two results.
appended_memory :
    (f : Logs → Text → Json → Logs × Answer Event)
    → some append_memory ≡ some f
    → (s s' : Logs) (scope : Text) (j : Json) (a : Answer Event) → f s scope j ≡ (s', a)
    → (parsed j ≡ a) × (grown s scope a ≡ s')
unfolding append_memory
appended_memory f has s s' scope j a e =
    let run = ap (λ g. g s scope j) (some-injective _ _ has) ∙ e in
    let q : parsed j ≡ a = ap (λ x. x.1) run in (q, ap (grown s scope) (sym q) ∙ ap (λ x. x.0) run)

memory-IsLog : IsLog Logs memory
unfolding parsed grown append_memory
memory-IsLog = record {
  log = λ logs scope. logs scope;
  queried = λ f has s scope q events e.
      sym (ok-injective _ _ (ap (λ g. g s scope q) (some-injective _ _ has) ∙ e));
  appended = λ f has s s' scope j e h.
      let (q, g) = appended_memory f has s s' scope j (ok e) h in
      let (o, c, t) = event_of-ok _ _ _ e q in
      (sym (ap (λ x. x scope) g) ∙ grown-here s scope e, o, c, t);
  elsewhere = λ f has s s' scope other j e h miss.
      let (q, g) = appended_memory f has s s' scope j (ok e) h in
      sym (ap (λ x. x other) g) ∙ grown-elsewhere s scope other e miss;
  rejected = λ f has s s' scope j r h other.
      let (q, g) = appended_memory f has s s' scope j (refused r) h in sym (ap (λ x. x other) g);
}

abbrev event : Text → Text → Text → Event
event id class type = record {
  event_id = id;
  ts = [];
  stable_objective_id = text "o1";
  event_class = class;
  event_type = type;
  actor_role = none;
  trigger = some (text "rerun");
  finding_id = some (text "f1");
  owner_role = none;
  target = some ordinary_work;
}

-- Three attempts, an owned and delivered finding, an audit and a terminal event.
abbrev busy_log : List Event
busy_log =
    event (text "1") (text "ATTEMPT") (text "ATTEMPT_STARTED")
    ∷ event (text "2") (text "ATTEMPT") (text "ATTEMPT_COUNTED")
    ∷ event (text "3") (text "ATTEMPT") (text "ATTEMPT_COUNTED")
    ∷ event (text "4") (text "FINDING") (text "FINDING_OWNED")
    ∷ event (text "5") (text "FINDING") (text "FINDING_DELIVERED")
    ∷ event (text "6") (text "AUDIT") (text "AUDIT_STARTED")
    ∷ event (text "7") (text "TERMINAL") (text "TERMINAL_BLOCKED")
    ∷ []

abbrev busy : Logs
busy = λ scope. busy_log

abbrev payload : Json
payload = Json.object (
    entry (text "stable_objective_id") (Json.string (text "o1")) (
      entry (text "event_class") (Json.string (text "ATTEMPT"))
        (entry (text "event_type") (Json.string (text "ATTEMPT_COUNTED")) end)))

payload-plain : same (candidate_field (text "event_class") payload) (text "TERMINAL") ≡ false
unfolding candidate_field same
payload-plain = refl

abbrev terminal : TerminalInput
terminal = record {
  event_id = text "t";
  ts = text "now";
  actor_role = none;
  content_hashes = Json.null;
}

unfoldable appends : ℕ → List Call → List Call
appends zero rest = rest
appends (suc n) rest = overhead_append (text "main") payload ∷ appends n rest

-- The budget is spent, and the guard is called twice; then one more append.
abbrev calls : List Call
calls = appends 25 (
    exhaustion (text "main") (text "o1") terminal
    ∷ exhaustion (text "main") (text "o1") terminal
    ∷ appends 1 [])

appends-IsNonterminal :
    (n : ℕ) (rest : List Call) → All IsNonterminal rest → All IsNonterminal (appends n rest)
unfolding appends
appends-IsNonterminal zero rest h = h
appends-IsNonterminal (suc n) rest h = (payload-plain, appends-IsNonterminal n rest h)

calls-IsNonterminal : All IsNonterminal calls
calls-IsNonterminal = appends-IsNonterminal 25 _ (tt, (tt, appends-IsNonterminal 1 [] tt))

abbrev fresh : Logs
fresh = λ scope. []

fresh-Guards : Guards []
unfolding Guards terminals spent of_objective
fresh-Guards o = (omega arith, λ k. absurd (omega (arith, k)))

after_calls-Guards_example : Guards (after_calls memory calls fresh (text "main"))
unfolding memory-IsLog
after_calls-Guards_example =
    after_calls-Guards memory memory-IsLog calls fresh (text "main") calls-IsNonterminal
      fresh-Guards

o1-named : is_blank (text "o1") ≡ false
unfolding is_blank
o1-named = refl

o1-blocked : 0 < terminals (text "o1") busy_log
unfolding terminals of_objective odin_sentinel.Governance.Overhead.is_terminal_blocked
o1-blocked = omega arith

after_calls-frozen_example :
    (spent (text "o1") (after_calls memory calls busy (text "main")) ≡ spent (text "o1") busy_log)
    × (terminals (text "o1") (after_calls memory calls busy (text "main"))
        ≡ terminals (text "o1") busy_log)
unfolding memory-IsLog
after_calls-frozen_example =
    after_calls-frozen memory memory-IsLog calls busy (text "main") (text "o1") calls-IsNonterminal
      o1-named o1-blocked

abbrev three : Accounting
three = accounting 3 ((text "rerun", 3) ∷ [])

fourth-refused :
    evaluate_attempt_ceiling memory busy (text "main") (text "o1") (some (text "rerun"))
    ≡ ok (refusal 4 (text "rerun"), three)
unfolding evaluate_attempt_ceiling matches
fourth-refused = refl

evaluate_attempt_ceiling-ok_example :
    Decides (refusal 4 (text "rerun")) (attempts (text "o1") busy_log)
    × (3 ≡ attempts (text "o1") busy_log)
    × (total three.per_trigger ≡ attempts (text "o1") busy_log)
unfolding memory-IsLog
evaluate_attempt_ceiling-ok_example =
    evaluate_attempt_ceiling-ok memory memory-IsLog busy (text "main") (text "o1")
      (some (text "rerun")) (refusal 4 (text "rerun")) three fourth-refused

derivation-IsLayered_example :
    (d : Derivation) × (derivation busy_log (audit (text "6")) ≡ some d)
    × IsLayered (audit (text "6")) d
    × (d.break_glass_event_ids ≡ map (λ e. e.event_id) (filter is_break_glass busy_log))
derivation-IsLayered_example = derivation-IsLayered busy_log (audit (text "6"))

audit-refused :
    evaluate_meta_governance_depth memory busy
      (text "main")
      (text "o1")
      (some (audit (text "6")))
      no_offer
    ≡ ok (some refused_depth)
unfolding evaluate_meta_governance_depth matches
audit-refused = refl

evaluate_meta_governance_depth-Justified_example :
    (v : DepthVerdict) × (some refused_depth ≡ some v)
    × Justified (audit (text "6")) (text "o1") no_offer (glass (text "o1") busy_log) v
unfolding memory-IsLog
evaluate_meta_governance_depth-Justified_example =
    evaluate_meta_governance_depth-Justified memory memory-IsLog busy (text "main") (text "o1")
      (audit (text "6")) no_offer (some refused_depth) audit-refused

abbrev owned_delivered : Lifecycle
owned_delivered = record {
  opened = [];
  owned = text "4" ∷ [];
  delivered = text "5" ∷ [];
  closed = [];
  owner_roles = [];
}

f1-closable :
    evaluate_finding_closure memory busy (text "main") (text "f1") ≡ ok (closable, owned_delivered)
unfolding evaluate_finding_closure odin_sentinel.Governance.Findings.derive_finding_state
    odin_sentinel.Governance.Findings.summarize_finding_events
    odin_sentinel.Governance.Findings.lifecycle odin_sentinel.Governance.Findings.is_finding
    odin_sentinel.Governance.Findings.about odin_sentinel.Governance.Findings.note
    odin_sentinel.Governance.Findings.push_if odin_sentinel.Governance.Findings.owner_of
    odin_sentinel.Governance.Findings.closure
    odin_sentinel.Governance.Findings.missing_prerequisites odin_sentinel.Governance.Events.ask
    odin_sentinel.Governance.Events.required odin_sentinel.Governance.Events.checked
    odin_sentinel.Governance.Events.require_scope odin_sentinel.Governance.Events.then_ask
    odin_sentinel.Governance.Events.agrees matches is_blank same
f1-closable = refl

evaluate_finding_closure-ok_example :
    closable
    ≡ due
        (has (text "FINDING_OWNED") (text "f1") busy_log)
        (has (text "FINDING_DELIVERED") (text "f1") busy_log)
unfolding memory-IsLog
evaluate_finding_closure-ok_example =
    evaluate_finding_closure-ok memory memory-IsLog busy (text "main") (text "f1") closable
      owned_delivered f1-closable

abbrev found : ActiveFindings
found = record { active_finding_ids = text "f1" ∷ []; inactive_finding_ids = [] }

one-active : count_active_findings memory busy (text "main") ≡ ok (1, found)
unfolding count_active_findings matches
one-active = refl

count_active_findings-ok_example :
    (1 ≡ length found.active_finding_ids)
    × (occurs (text "f1") found.active_finding_ids ≡ (if drives (text "f1") busy_log then 1 else 0))
    × (occurs (text "f1") found.inactive_finding_ids ≡ (
        if drives (text "f1") busy_log || is_empty (events_of (text "f1") busy_log) then 0 else 1))
unfolding memory-IsLog
count_active_findings-ok_example =
    count_active_findings-ok memory memory-IsLog busy (text "main") 1 found one-active (text "f1")

abbrev receipt : Json
receipt = Json.object (
    entry (text "scope") (Json.string (text "main"))
      (entry (text "event_id") (Json.string (text "7")) end))

resolve_registry_authority-Backed_example :
    Backed busy receipt (resolve_registry_authority memory busy receipt)
unfolding memory-IsLog
resolve_registry_authority-Backed_example =
    resolve_registry_authority-Backed memory memory-IsLog busy receipt
