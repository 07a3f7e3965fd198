-- ===== src/Registry/Event/RoundTrip.antt =====
-- src/protocol/schemas.ts: the object of an event, through the schema again.
use odin_sentinel.Base.{
  ℕ, ◌≡◌, refl, true, false, Option, none, some, List, [], ◌∷◌, Text, text, is_empty, Json, Fields,
  entry, All, arith, same, member, Option-cases, inl, inr,
}
use odin_sentinel.Governance.Events.{AuditTarget, ordinary_work, audit}
use odin_sentinel.Registry.Schema.{
  ◌>>?◌, when, head_keys, event_schema_version, one_of, optional_text, enumerated, optional_enum,
  optional_index, content_hash, content_hash_items, content_hashes, audit_target, head_of,
  ContentHash, Detail, attempt, only_keys, finding, break_glass, budget, terminal, audits,
  GovdispEvent, attempt_types, finding_types, break_glass_types, budget_types, terminal_types,
  audit_types, budget_kinds, attempt_triggers,
}
use odin_sentinel.Registry.Event.{
  attempt_event, finding_event, break_glass_event, budget_event, terminal_event, audit_event,
  class_of, type_of, detail_of, parse_event, event_fields, own_fields, with_text, with_index,
  hash_items, target_fields, event_classes,
}
use odin_sentinel.Registry.Event.Parsing.{non_empty-of}
use odin_sentinel.Registry.Event.WellFormed.{
  IsNamed, IsOptional, IsOneOf, IsIndex, IsHash, IsTarget, IsDetail, IsEvent,
}

enumerated-of :
    (values : List Text) (t : Text)
    → one_of values t ≡ true
    → enumerated values (some (Json.string t)) ≡ some t
unfolding enumerated when
enumerated-of values t h = simp h refl

content_hash_items-of :
    (hs : List ContentHash) → All IsHash hs → content_hash_items (hash_items hs) ≡ some hs
unfolding content_hash_items hash_items content_hash ◌>>?◌ when only_keys member one_of same
content_hash_items-of [] h = refl
content_hash_items-of (x ∷ xs) ((p, s), rest) =
    simp (non_empty-of x.path p, non_empty-of x.sha256 s, content_hash_items-of xs rest) refl

hashes-back :
    (hs : List ContentHash)
    → is_empty hs ≡ false
    → All IsHash hs
    → content_hashes (some (Json.array (hash_items hs))) ≡ some hs
unfolding content_hashes hash_items
hashes-back [] h a = ground arith
hashes-back (x ∷ xs) h a = content_hash_items-of (x ∷ xs) a

target-back :
    (t : AuditTarget) → IsTarget t → audit_target (some (Json.object (target_fields t))) ≡ some t
unfolding audit_target target_fields member same enumerated ◌>>?◌ when only_keys one_of
target-back ordinary_work h = refl
target-back (audit id) h = simp (non_empty-of id h) refl

-- What the tail of the object has none of.
abbrev Lacks : Fields → Type 0
Lacks f =
    (member (text "schema_version") f ≡ none)
    × (member (text "event_id") f ≡ none)
    × (member (text "ts") f ≡ none)
    × (member (text "stable_objective_id") f ≡ none)
    × (member (text "actor_role") f ≡ none)
    × (member (text "event_class") f ≡ none)
    × (member (text "event_type") f ≡ none)

own_fields-Lacks : (d : Detail) → Lacks (own_fields d)
unfolding own_fields with_text with_index member same
own_fields-Lacks (attempt ty none none) = (refl, refl, refl, refl, refl, refl, refl)
own_fields-Lacks (attempt ty none (some t)) = (refl, refl, refl, refl, refl, refl, refl)
own_fields-Lacks (attempt ty (some n) none) = (refl, refl, refl, refl, refl, refl, refl)
own_fields-Lacks (attempt ty (some n) (some t)) = (refl, refl, refl, refl, refl, refl, refl)
own_fields-Lacks (finding ty id none) = (refl, refl, refl, refl, refl, refl, refl)
own_fields-Lacks (finding ty id (some o)) = (refl, refl, refl, refl, refl, refl, refl)
own_fields-Lacks (break_glass ty h c) = (refl, refl, refl, refl, refl, refl, refl)
own_fields-Lacks (budget ty k) = (refl, refl, refl, refl, refl, refl, refl)
own_fields-Lacks (terminal ty hs) = (refl, refl, refl, refl, refl, refl, refl)
own_fields-Lacks (audits ty t) = (refl, refl, refl, refl, refl, refl, refl)

-- A key that is not a common one.
abbrev IsApart : Text → Type 0
IsApart k =
    (same (text "schema_version") k ≡ false)
    × (same (text "event_id") k ≡ false)
    × (same (text "ts") k ≡ false)
    × (same (text "stable_objective_id") k ≡ false)
    × (same (text "actor_role") k ≡ false)
    × (same (text "event_class") k ≡ false)
    × (same (text "event_type") k ≡ false)

-- The common fields, before the tail of each class.
module _ (id ts o class type : Text) (named : IsNamed id × IsNamed ts × IsNamed o) where
  abbrev common : Option Text → Fields → Fields
  common actor f = entry (text "schema_version") (Json.string event_schema_version) (
      entry (text "event_id") (Json.string id) (
        entry (text "ts") (Json.string ts) (
          entry (text "stable_objective_id") (Json.string o) (
            with_text (text "actor_role") actor (
              entry (text "event_class") (Json.string class)
                (entry (text "event_type") (Json.string type) f))))))

  head-back :
      (actor : Option Text) (f : Fields)
      → Lacks f
      → IsOptional actor
      → head_of (common actor f)
        ≡ some (record { event_id = id; ts = ts; stable_objective_id = o; actor_role = actor })
  unfolding with_text head_of ◌>>?◌ optional_text member same when
  head-back none f (l1, l2, l3, l4, l5, l6, l7) h =
      simp
        (
          l1,
          l2,
          l3,
          l4,
          l5,
          l6,
          l7,
          non_empty-of id named.0,
          non_empty-of ts named.1,
          non_empty-of o named.2,
        )
        refl
  head-back (some a) f (l1, l2, l3, l4, l5, l6, l7) h =
      simp
        (
          l1,
          l2,
          l3,
          l4,
          l5,
          l6,
          l7,
          non_empty-of id named.0,
          non_empty-of ts named.1,
          non_empty-of o named.2,
          non_empty-of a h,
        )
        refl

  class-back :
      (actor : Option Text) (f : Fields)
      → Lacks f
      → (member (text "event_class") (common actor f) ≡ some (Json.string class))
        × (member (text "event_type") (common actor f) ≡ some (Json.string type))
  unfolding with_text member same
  class-back none f (l1, l2, l3, l4, l5, l6, l7) = (simp l6 refl, simp l7 refl)
  class-back (some a) f (l1, l2, l3, l4, l5, l6, l7) = (simp l6 refl, simp l7 refl)

  -- A tail's own field is the object's.
  own-back :
      (k : Text) (actor : Option Text) (f : Fields)
      → IsApart k
      → member k (common actor f) ≡ member k f
  unfolding with_text member
  own-back k none f (a1, a2, a3, a4, a5, a6, a7) = elim (Option-cases (member k f)) [
    | inl h ↦ simp (a1, a2, a3, a4, a6, a7, h) refl
    | inr (v, h) ↦ simp (a1, a2, a3, a4, a6, a7, h) refl
  ]
  own-back k (some a) f (a1, a2, a3, a4, a5, a6, a7) = elim (Option-cases (member k f)) [
    | inl h ↦ simp (a1, a2, a3, a4, a5, a6, a7, h) refl
    | inr (v, h) ↦ simp (a1, a2, a3, a4, a5, a6, a7, h) refl
  ]

  keys-back :
      (own : List Text) (actor : Option Text) (f : Fields)
      → only_keys (head_keys own) (common actor f) ≡ only_keys (head_keys own) f
  unfolding only_keys one_of same with_text
  keys-back own none f = refl
  keys-back own (some a) f = refl

-- What each member of the union sees of an object with the tail `t`.
record Carries (f t : Fields) (type : Text) : Type 0 where
  pub typed : member (text "event_type") f ≡ some (Json.string type)
  pub own : (k : Text) → IsApart k → member k f ≡ member k t
  pub keys : (own : List Text) → only_keys (head_keys own) f ≡ only_keys (head_keys own) t

module _ (f : Fields) (type : Text) where
  attempt-back :
      (index : Option ℕ) (trigger : Option Text)
      → Carries f (own_fields (attempt type index trigger)) type
      → IsDetail (attempt type index trigger)
      → attempt_event f ≡ some (attempt type index trigger)
  unfolding attempt_event own_fields with_index with_text member same optional_index optional_enum
      optional_text ◌>>?◌ when only_keys one_of
  attempt-back index trigger c (h, i, t) =
      simp
        (
          c.typed,
          enumerated-of attempt_types type h,
          c.own (text "attempt_index") (refl, refl, refl, refl, refl, refl, refl),
          c.own (text "trigger") (refl, refl, refl, refl, refl, refl, refl),
          c.keys,
        )
        (go index trigger i t)
    where
      go :
          (index : Option ℕ) (trigger : Option Text)
          → IsIndex index
          → IsOneOf attempt_triggers trigger
          → (optional_index
                (member (text "attempt_index") (own_fields (attempt type index trigger)))
              >>? λ index'.
                  optional_enum attempt_triggers
                    (member (text "trigger") (own_fields (attempt type index trigger)))
                  >>? λ trigger'.
                      when
                        (only_keys
                          (head_keys (text "attempt_index" ∷ text "trigger" ∷ []))
                          (own_fields (attempt type index trigger)))
                        (attempt type index' trigger'))
            ≡ some (attempt type index trigger)
      go none none i t = refl
      go (some n) none i t = simp i refl
      go none (some x) i t = simp (enumerated-of attempt_triggers x t) refl
      go (some n) (some x) i t = simp (i, enumerated-of attempt_triggers x t) refl

  finding-back :
      (id : Text) (owner : Option Text)
      → Carries f (own_fields (finding type id owner)) type
      → IsDetail (finding type id owner)
      → finding_event f ≡ some (finding type id owner)
  unfolding finding_event own_fields with_index with_text member same optional_index optional_enum
      optional_text ◌>>?◌ when only_keys one_of
  finding-back id none c (h, i, o) =
      simp
        (
          c.typed,
          enumerated-of finding_types type h,
          c.own (text "finding_id") (refl, refl, refl, refl, refl, refl, refl),
          c.own (text "owner_role") (refl, refl, refl, refl, refl, refl, refl),
          c.keys,
          non_empty-of id i,
        )
        refl
  finding-back id (some x) c (h, i, o) =
      simp
        (
          c.typed,
          enumerated-of finding_types type h,
          c.own (text "finding_id") (refl, refl, refl, refl, refl, refl, refl),
          c.own (text "owner_role") (refl, refl, refl, refl, refl, refl, refl),
          c.keys,
          non_empty-of id i,
          non_empty-of x o,
        )
        refl

  break_glass-back :
      (human contradiction : Text)
      → Carries f (own_fields (break_glass type human contradiction)) type
      → IsDetail (break_glass type human contradiction)
      → break_glass_event f ≡ some (break_glass type human contradiction)
  unfolding break_glass_event own_fields with_index with_text member same optional_index
      optional_enum optional_text ◌>>?◌ when only_keys one_of
  break_glass-back human contradiction c (h, i, j) =
      simp
        (
          c.typed,
          enumerated-of break_glass_types type h,
          c.own (text "authorizing_human") (refl, refl, refl, refl, refl, refl, refl),
          c.own (text "contradiction_ref") (refl, refl, refl, refl, refl, refl, refl),
          c.keys,
          non_empty-of human i,
          non_empty-of contradiction j,
        )
        refl

  budget-back :
      (kind : Text)
      → Carries f (own_fields (budget type kind)) type
      → IsDetail (budget type kind)
      → budget_event f ≡ some (budget type kind)
  unfolding budget_event own_fields with_index with_text member same optional_index optional_enum
      optional_text ◌>>?◌ when only_keys one_of
  budget-back kind c (h, k) =
      simp
        (
          c.typed,
          enumerated-of budget_types type h,
          c.own (text "budget_kind") (refl, refl, refl, refl, refl, refl, refl),
          c.keys,
          enumerated-of budget_kinds kind k,
        )
        refl

  terminal-back :
      (hashes : List ContentHash)
      → Carries f (own_fields (terminal type hashes)) type
      → IsDetail (terminal type hashes)
      → terminal_event f ≡ some (terminal type hashes)
  unfolding terminal_event own_fields with_index with_text member same optional_index optional_enum
      optional_text ◌>>?◌ when only_keys one_of
  terminal-back hashes c (h, n, a) =
      simp
        (
          c.typed,
          enumerated-of terminal_types type h,
          c.own (text "content_hashes") (refl, refl, refl, refl, refl, refl, refl),
          c.keys,
          hashes-back hashes n a,
        )
        refl

  audit-back :
      (target : AuditTarget)
      → Carries f (own_fields (audits type target)) type
      → IsDetail (audits type target)
      → audit_event f ≡ some (audits type target)
  unfolding audit_event own_fields with_index with_text member same optional_index optional_enum
      optional_text ◌>>?◌ when only_keys one_of
  audit-back target c (h, t) =
      simp
        (
          c.typed,
          enumerated-of audit_types type h,
          c.own (text "target") (refl, refl, refl, refl, refl, refl, refl),
          c.keys,
          target-back target t,
        )
        refl

detail-back :
    (f : Fields) (d : Detail)
    → Carries f (own_fields d) (type_of d)
    → IsDetail d
    → detail_of (class_of d) f ≡ some d
unfolding detail_of class_of type_of same
detail-back f (attempt type index trigger) c h = attempt-back f type index trigger c h
detail-back f (finding type id owner) c h = finding-back f type id owner c h
detail-back f (break_glass type human x) c h = break_glass-back f type human x c h
detail-back f (budget type kind) c h = budget-back f type kind c h
detail-back f (terminal type hashes) c h = terminal-back f type hashes c h
detail-back f (audits type target) c h = audit-back f type target c h

class_of-IsKnown : (d : Detail) → one_of event_classes (class_of d) ≡ true
unfolding class_of one_of same
class_of-IsKnown (attempt type index trigger) = refl
class_of-IsKnown (finding type id owner) = refl
class_of-IsKnown (break_glass type human x) = refl
class_of-IsKnown (budget type kind) = refl
class_of-IsKnown (terminal type hashes) = refl
class_of-IsKnown (audits type target) = refl

-- The schema accepts the object of an event that it allows, and gives the event back.
pub parse_event-event_fields :
    (e : GovdispEvent) → IsEvent e → parse_event (event_fields e) ≡ some e
unfolding parse_event event_fields ◌>>?◌
parse_event-event_fields e ((id, ts, o, actor), d) =
    let named : IsNamed e.head.event_id × IsNamed e.head.ts × IsNamed e.head.stable_objective_id =
      (id, ts, o) in
    let t = own_fields e.detail in
    let l = own_fields-Lacks e.detail in
    let (class, type) =
      class-back e.head.event_id e.head.ts e.head.stable_objective_id (class_of e.detail)
        (type_of e.detail) named e.head.actor_role t l in
    let carries : Carries (event_fields e) t (type_of e.detail) = record {
      typed = type;
      own = λ k.
          own-back e.head.event_id e.head.ts e.head.stable_objective_id (class_of e.detail)
            (type_of e.detail) named k e.head.actor_role t;
      keys = λ own.
          keys-back e.head.event_id e.head.ts e.head.stable_objective_id (class_of e.detail)
            (type_of e.detail) named own e.head.actor_role t;
    } in
    simp
      (
        class,
        enumerated-of event_classes (class_of e.detail) (class_of-IsKnown e.detail),
        head-back e.head.event_id e.head.ts e.head.stable_objective_id (class_of e.detail)
            (type_of e.detail) named e.head.actor_role t l actor,
        detail-back (event_fields e) e.detail carries d,
      )
      refl
