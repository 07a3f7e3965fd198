-- ===== src/Registry/Event/WellFormed.antt =====
-- src/protocol/schemas.ts: the events that the schemas allow.
use odin_sentinel.Base.{
  ℕ, ◌≡◌, refl, true, false, Option, none, some, List, ◌∷◌, Text, text, is_empty, Json, Fields,
  member, leb, ◌&&◌, All, subst, same, same_iff, Bool-cases, inl, inr, sym, arith, Items, nil, cons,
  pos, negsuc, int, fraction,
}
use mathlib.Core.Option.{some-injective}
use odin_sentinel.Governance.Events.{AuditTarget, ordinary_work, audit}
use odin_sentinel.Registry.Schema.{
  one_of, optional_text, optional_enum, optional_index, content_hash, content_hash_items,
  content_hashes, audit_target, head_of, ContentHash, Head, Detail, attempt, finding, break_glass,
  budget, terminal, audits, GovdispEvent, attempt_types, finding_types, break_glass_types,
  budget_types, terminal_types, audit_types, budget_kinds, attempt_triggers,
}
use odin_sentinel.Registry.Event.{
  event_classes, attempt_event, finding_event, break_glass_event, budget_event, terminal_event,
  audit_event, class_of, type_of, detail_of, parse_event,
}
use odin_sentinel.Registry.Event.Origins.{
  Holds, IsText, Shows, optional_text-IsText, optional_enum-IsText, optional_index-IsCount,
  content_hashes-AreHashesOf, audit_target-IsTargetOf,
}
use odin_sentinel.Registry.Event.Parsing.{bind-some, when-some, enumerated-some, non_empty-some}

abbrev pub IsNamed : Text → Type 0
IsNamed t = is_empty t ≡ false

abbrev pub IsOptional : Option Text → Type 0
IsOptional none = Unit
IsOptional (some t) = IsNamed t

abbrev pub IsOneOf : List Text → Option Text → Type 0
IsOneOf values none = Unit
IsOneOf values (some t) = one_of values t ≡ true

abbrev pub IsIndex : Option ℕ → Type 0
IsIndex none = Unit
IsIndex (some n) = leb 1 n && leb n 9007199254740991 ≡ true

abbrev pub IsHash : ContentHash → Type 0
IsHash h = IsNamed h.path × IsNamed h.sha256

abbrev pub IsTarget : AuditTarget → Type 0
IsTarget ordinary_work = Unit
IsTarget (audit id) = IsNamed id

abbrev pub IsHead : Head → Type 0
IsHead h =
    IsNamed h.event_id × IsNamed h.ts × IsNamed h.stable_objective_id × IsOptional h.actor_role

abbrev pub IsDetail : Detail → Type 0
IsDetail (attempt type index trigger) =
    (one_of attempt_types type ≡ true) × IsIndex index × IsOneOf attempt_triggers trigger
IsDetail (finding type finding_id owner) =
    (one_of finding_types type ≡ true) × IsNamed finding_id × IsOptional owner
IsDetail (break_glass type human contradiction) =
    (one_of break_glass_types type ≡ true) × IsNamed human × IsNamed contradiction
IsDetail (budget type kind) = (one_of budget_types type ≡ true) × (one_of budget_kinds kind ≡ true)
IsDetail (terminal type hashes) =
    (one_of terminal_types type ≡ true) × (is_empty hashes ≡ false) × All IsHash hashes
IsDetail (audits type target) = (one_of audit_types type ≡ true) × IsTarget target

-- An event that the schema allows.
abbrev pub IsEvent : GovdispEvent → Type 0
IsEvent e = IsHead e.head × IsDetail e.detail

-- The class, the type and the own fields of a detail are the object's.
abbrev Reads : Fields → Text → Detail → Type 0
Reads f class d =
    IsDetail d × (class_of d ≡ class) × Holds f (text "event_type") (type_of d) × Shows f d

optional_text-IsOptional :
    (v : Option Json) (t : Option Text) → optional_text v ≡ some t → IsOptional t
unfolding optional_text
optional_text-IsOptional none t h = subst IsOptional (some-injective _ _ h) tt
optional_text-IsOptional (some v) t h =
    let (s, a, q) = bind-some _ _ _ h in
    subst IsOptional (some-injective _ _ q) ((non_empty-some (some v) s a).1)

optional_enum-IsOneOf :
    (values : List Text) (v : Option Json) (t : Option Text)
    → optional_enum values v ≡ some t
    → IsOneOf values t
unfolding optional_enum
optional_enum-IsOneOf values none t h = subst (IsOneOf values) (some-injective _ _ h) tt
optional_enum-IsOneOf values (some v) t h =
    let (s, a, q) = bind-some _ _ _ h in
    subst (IsOneOf values) (some-injective _ _ q) ((enumerated-some values (some v) s a).1)

optional_index-IsIndex : (v : Option Json) (i : Option ℕ) → optional_index v ≡ some i → IsIndex i
unfolding optional_index
optional_index-IsIndex none i h = subst IsIndex (some-injective _ _ h) tt
optional_index-IsIndex (some (Json.number (int (pos n)))) i h =
    let (c, q) = when-some _ _ _ h in subst IsIndex q c
optional_index-IsIndex (some (Json.number (int (negsuc n)))) i h = ground arith
optional_index-IsIndex (some (Json.number fraction)) i h = ground arith
optional_index-IsIndex (some (Json.string t)) i h = ground arith
optional_index-IsIndex (some Json.null) i h = ground arith
optional_index-IsIndex (some (Json.bool b)) i h = ground arith
optional_index-IsIndex (some (Json.array a)) i h = ground arith
optional_index-IsIndex (some (Json.object f)) i h = ground arith

content_hash-IsHash : (j : Json) (h : ContentHash) → content_hash j ≡ some h → IsHash h
unfolding content_hash
content_hash-IsHash (Json.object f) h e =
    let (p, a, e1) = bind-some _ _ _ e in
    let (s, b, e2) = bind-some _ _ _ e1 in
    let (c, q) = when-some _ _ _ e2 in
    subst IsHash q ((non_empty-some _ p a).1, (non_empty-some _ s b).1)
content_hash-IsHash (Json.number n) h e = ground arith
content_hash-IsHash (Json.string t) h e = ground arith
content_hash-IsHash Json.null h e = ground arith
content_hash-IsHash (Json.bool b) h e = ground arith
content_hash-IsHash (Json.array a) h e = ground arith

content_hash_items-IsHash :
    (items : Items) (hs : List ContentHash) → content_hash_items items ≡ some hs → All IsHash hs
unfolding content_hash_items
content_hash_items-IsHash nil hs e = subst (All IsHash) (some-injective _ _ e) tt
content_hash_items-IsHash (cons j rest) hs e =
    let (h, a, e1) = bind-some _ _ _ e in
    let (t, b, e2) = bind-some _ _ _ e1 in
    let all : All IsHash (h ∷ t) =
      (content_hash-IsHash j h a, content_hash_items-IsHash rest t b) in
    subst (All IsHash) (some-injective _ _ e2) all

content_hashes-IsHash :
    (v : Option Json) (hs : List ContentHash)
    → content_hashes v ≡ some hs
    → (is_empty hs ≡ false) × All IsHash hs
unfolding content_hashes content_hash_items
content_hashes-IsHash (some (Json.array (cons j rest))) hs e =
    let (h, a, e1) = bind-some _ _ _ e in
    let (t, b, e2) = bind-some _ _ _ e1 in
    let all : All IsHash (h ∷ t) =
      (content_hash-IsHash j h a, content_hash_items-IsHash rest t b) in
    let both : (is_empty (h ∷ t) ≡ false) × All IsHash (h ∷ t) = (refl, all) in
    subst (λ x. (is_empty x ≡ false) × All IsHash x) (some-injective _ _ e2) both
content_hashes-IsHash none hs e = ground arith
content_hashes-IsHash (some (Json.array nil)) hs e = ground arith
content_hashes-IsHash (some (Json.number n)) h e = ground arith
content_hashes-IsHash (some (Json.string t)) h e = ground arith
content_hashes-IsHash (some Json.null) h e = ground arith
content_hashes-IsHash (some (Json.bool b)) h e = ground arith
content_hashes-IsHash (some (Json.object a)) h e = ground arith

audit_target-IsTarget : (v : Option Json) (t : AuditTarget) → audit_target v ≡ some t → IsTarget t
unfolding audit_target
audit_target-IsTarget (some (Json.object f)) t h =
    let (kind, a, e) = bind-some _ _ _ h in
    elim (Bool-cases (same kind (text "audit"))) [
      | inl c ↦
          let e' = simp c at e in
          let (id, b, e1) = bind-some _ _ _ e' in
          let (d, q) = when-some _ _ _ e1 in subst IsTarget q ((non_empty-some _ id b).1)
      | inr c ↦ let e' = simp c at e in let (d, q) = when-some _ _ _ e' in subst IsTarget q tt
    ]
audit_target-IsTarget none t h = ground arith
audit_target-IsTarget (some (Json.number n)) t h = ground arith
audit_target-IsTarget (some (Json.string s)) t h = ground arith
audit_target-IsTarget (some Json.null) t h = ground arith
audit_target-IsTarget (some (Json.bool b)) t h = ground arith
audit_target-IsTarget (some (Json.array a)) t h = ground arith

attempt_event-Reads :
    (f : Fields) (d : Detail) → attempt_event f ≡ some d → Reads f (text "ATTEMPT") d
unfolding attempt_event class_of type_of
attempt_event-Reads f d h =
    let (type, a, h1) = bind-some _ _ _ h in
    let (index, b, h2) = bind-some _ _ _ h1 in
    let (trigger, c, h3) = bind-some _ _ _ h2 in
    let (keys, q) = when-some _ _ _ h3 in
    let (at, known) = enumerated-some attempt_types _ _ a in
    let reads : Reads f (text "ATTEMPT") (attempt type index trigger) = (
      (known, optional_index-IsIndex _ _ b, optional_enum-IsOneOf attempt_triggers _ _ c),
      refl,
      at,
      (optional_index-IsCount _ _ b, optional_enum-IsText attempt_triggers _ _ c),
    ) in
    subst (Reads f (text "ATTEMPT")) q reads

finding_event-Reads :
    (f : Fields) (d : Detail) → finding_event f ≡ some d → Reads f (text "FINDING") d
unfolding finding_event class_of type_of
finding_event-Reads f d h =
    let (type, a, h1) = bind-some _ _ _ h in
    let (finding_id, b, h2) = bind-some _ _ _ h1 in
    let (owner, c, h3) = bind-some _ _ _ h2 in
    let (keys, q) = when-some _ _ _ h3 in
    let (at, known) = enumerated-some finding_types _ _ a in
    let reads : Reads f (text "FINDING") (finding type finding_id owner) = (
      (known, (non_empty-some _ _ b).1, optional_text-IsOptional _ _ c),
      refl,
      at,
      ((non_empty-some _ _ b).0, optional_text-IsText _ _ c),
    ) in
    subst (Reads f (text "FINDING")) q reads

break_glass_event-Reads :
    (f : Fields) (d : Detail) → break_glass_event f ≡ some d → Reads f (text "BREAK_GLASS") d
unfolding break_glass_event class_of type_of
break_glass_event-Reads f d h =
    let (type, a, h1) = bind-some _ _ _ h in
    let (human, b, h2) = bind-some _ _ _ h1 in
    let (contradiction, c, h3) = bind-some _ _ _ h2 in
    let (keys, q) = when-some _ _ _ h3 in
    let (at, known) = enumerated-some break_glass_types _ _ a in
    let reads : Reads f (text "BREAK_GLASS") (break_glass type human contradiction) = (
      (known, (non_empty-some _ _ b).1, (non_empty-some _ _ c).1),
      refl,
      at,
      ((non_empty-some _ _ b).0, (non_empty-some _ _ c).0),
    ) in
    subst (Reads f (text "BREAK_GLASS")) q reads

budget_event-Reads : (f : Fields) (d : Detail) → budget_event f ≡ some d → Reads f (text "BUDGET") d
unfolding budget_event class_of type_of
budget_event-Reads f d h =
    let (type, a, h1) = bind-some _ _ _ h in
    let (kind, b, h2) = bind-some _ _ _ h1 in
    let (keys, q) = when-some _ _ _ h2 in
    let (at, known) = enumerated-some budget_types _ _ a in
    let reads : Reads f (text "BUDGET") (budget type kind) = (
      (known, (enumerated-some budget_kinds _ _ b).1),
      refl,
      at,
      (enumerated-some budget_kinds _ _ b).0,
    ) in
    subst (Reads f (text "BUDGET")) q reads

terminal_event-Reads :
    (f : Fields) (d : Detail) → terminal_event f ≡ some d → Reads f (text "TERMINAL") d
unfolding terminal_event class_of type_of
terminal_event-Reads f d h =
    let (type, a, h1) = bind-some _ _ _ h in
    let (hashes, b, h2) = bind-some _ _ _ h1 in
    let (keys, q) = when-some _ _ _ h2 in
    let (at, known) = enumerated-some terminal_types _ _ a in
    let (some_hash, each) = content_hashes-IsHash _ _ b in
    let reads : Reads f (text "TERMINAL") (terminal type hashes) =
      ((known, some_hash, each), refl, at, content_hashes-AreHashesOf _ _ b) in
    subst (Reads f (text "TERMINAL")) q reads

audit_event-Reads : (f : Fields) (d : Detail) → audit_event f ≡ some d → Reads f (text "AUDIT") d
unfolding audit_event class_of type_of
audit_event-Reads f d h =
    let (type, a, h1) = bind-some _ _ _ h in
    let (target, b, h2) = bind-some _ _ _ h1 in
    let (keys, q) = when-some _ _ _ h2 in
    let (at, known) = enumerated-some audit_types _ _ a in
    let reads : Reads f (text "AUDIT") (audits type target) =
      ((known, audit_target-IsTarget _ _ b), refl, at, audit_target-IsTargetOf _ _ b) in
    subst (Reads f (text "AUDIT")) q reads

-- The members of the union, by the class.
detail_of-Reads :
    (class : Text) (f : Fields) (d : Detail) → detail_of class f ≡ some d → Reads f class d
unfolding detail_of
detail_of-Reads class f d h = elim (Bool-cases (same class (text "ATTEMPT"))) [
  | inl c ↦ at (text "ATTEMPT") c (attempt_event-Reads f d (simp c at h))
  | inr c1 ↦ elim (Bool-cases (same class (text "FINDING"))) [
    | inl c ↦ at (text "FINDING") c (finding_event-Reads f d (simp (c1, c) at h))
    | inr c2 ↦ elim (Bool-cases (same class (text "BREAK_GLASS"))) [
      | inl c ↦ at (text "BREAK_GLASS") c (break_glass_event-Reads f d (simp (c1, c2, c) at h))
      | inr c3 ↦ elim (Bool-cases (same class (text "BUDGET"))) [
        | inl c ↦ at (text "BUDGET") c (budget_event-Reads f d (simp (c1, c2, c3, c) at h))
        | inr c4 ↦ elim (Bool-cases (same class (text "TERMINAL"))) [
          | inl c ↦
              at (text "TERMINAL") c (terminal_event-Reads f d (simp (c1, c2, c3, c4, c) at h))
          | inr c5 ↦ elim (Bool-cases (same class (text "AUDIT"))) [
            | inl c ↦
                at (text "AUDIT") c (audit_event-Reads f d (simp (c1, c2, c3, c4, c5, c) at h))
            | inr c6 ↦ no_class (simp (c1, c2, c3, c4, c5, c6) at h)
          ]
        ]
      ]
    ]
  ]
]
  where
    no_class : none ≡ some d → Reads f class d
    no_class q = ground arith

    at : (known : Text) → same class known ≡ true → Reads f known d → Reads f class d
    at known c r = subst (λ x. Reads f x d) (sym ((same_iff class known).0 c)) r

-- What a parsed event says of the object: the event is one that the schema allows, and every field of
-- it is the object's, a missing one with the key missing.
pub record IsParsed (f : Fields) (e : GovdispEvent) : Type 0 where
  pub allowed : IsEvent e
  pub event_id : Holds f (text "event_id") e.head.event_id
  pub ts : Holds f (text "ts") e.head.ts
  pub objective : Holds f (text "stable_objective_id") e.head.stable_objective_id
  pub actor_role : IsText (member (text "actor_role") f) e.head.actor_role
  pub class : Holds f (text "event_class") (class_of e.detail)
  pub type : Holds f (text "event_type") (type_of e.detail)
  pub shows : Shows f e.detail

IsParsedHead : Fields → Head → Type 0
IsParsedHead f h =
    IsHead h
    × Holds f (text "event_id") h.event_id
    × Holds f (text "ts") h.ts
    × Holds f (text "stable_objective_id") h.stable_objective_id
    × IsText (member (text "actor_role") f) h.actor_role

head_of-IsParsedHead : (f : Fields) (h : Head) → head_of f ≡ some h → IsParsedHead f h
unfolding head_of IsParsedHead
head_of-IsParsedHead f h e =
    let (version, v, e1) = bind-some _ _ _ e in
    let (id, a, e2) = bind-some _ _ _ e1 in
    let (ts, b, e3) = bind-some _ _ _ e2 in
    let (o, c, e4) = bind-some _ _ _ e3 in
    let (actor, d, e5) = bind-some _ _ _ e4 in
    let (a1, a2) = non_empty-some _ _ a in
    let (b1, b2) = non_empty-some _ _ b in
    let (c1, c2) = non_empty-some _ _ c in
    let head : Head = record {
      event_id = id;
      ts = ts;
      stable_objective_id = o;
      actor_role = actor;
    } in
    let r : IsParsedHead f head =
      ((a2, b2, c2, optional_text-IsOptional _ _ d), a1, b1, c1, optional_text-IsText _ _ d) in
    subst (IsParsedHead f) (some-injective _ _ e5) r

-- An event that the schema accepts is one of the events it allows, and each of its fields is the
-- object's field of that name: the texts, the attempt's index, the hashes in their order and the target;
-- a field that may be missing is missing just if the object has no such key.
pub parse_event-IsParsed : (f : Fields) (e : GovdispEvent) → parse_event f ≡ some e → IsParsed f e
unfolding parse_event IsParsedHead
parse_event-IsParsed f e h =
    let (class, a, e1) = bind-some _ _ _ h in
    let (head, b, e2) = bind-some _ _ _ e1 in
    let (detail, c, e3) = bind-some _ _ _ e2 in
    let (known, q, type, shows) = detail_of-Reads class f detail c in
    let (hs, id, ts, o, role) = head_of-IsParsedHead f head b in
    let parsed : IsParsed f (record { head = head; detail = detail }) = record {
      allowed = (hs, known);
      event_id = id;
      ts = ts;
      objective = o;
      actor_role = role;
      class =
          subst (Holds f (text "event_class")) (sym q) ((enumerated-some event_classes _ _ a).0);
      type = type;
      shows = shows;
    } in
    subst (IsParsed f) (some-injective _ _ e3) parsed
