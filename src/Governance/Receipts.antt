-- ===== src/Governance/Receipts.antt =====
-- src/protocol/governance.ts: the authority of a receipt, and the log.
use odin_sentinel.Base.{
  ◌≡◌, refl, inl, inr, false, Option, none, some, List, [], ◌∷◌, ◌++◌, Text, text, filter, ◌∙◌, ap,
  sym, subst, Bool-cases, Option-cases, Json, same, same_iff, is_blank, All, arith,
}
use mathlib.Core.Option.{some-injective}
use odin_sentinel.Governance.Events.{
  Event, Store, IsLog, agrees, matches, Query, string_field, field,
}
use odin_sentinel.Governance.Authority.{
  Resolution, resolved, unresolved, no_such_event, wrong_class, among, event_by_id,
  is_receipt_authority, resolve_registry_authority, non_blank,
}
use odin_sentinel.Governance.Log.{Answer-cases}

abbrev everything : Query
everything = record { objective = none; class = none }

filter-everything : (log : List Event) → filter (matches everything) log ≡ log
unfolding matches agrees
filter-everything [] = refl
filter-everything (e ∷ log) = ap (λ x. e ∷ x) (filter-everything log)

-- The reference's field of that name is a text that is not blank.
abbrev pub Names : Json → Text → Text → Type 0
Names j k t = (field k j ≡ some t) × (is_blank t ≡ false)

abbrev pub Misses : Text → List Event → Type 0
Misses id log = All (λ (x : Event). same x.event_id id ≡ false) log

-- The event is the first of its id in the log.
pub record First (id : Text) (log : List Event) (e : Event) : Type 0 where
  pub earlier : List Event
  pub later : List Event
  pub splits : log ≡ earlier ++ (e ∷ later)
  pub named : e.event_id ≡ id
  pub misses : Misses id earlier

-- What a resolution says of the reference and the logs.
abbrev pub Backed : (Text → List Event) → Json → Resolution → Type 0
Backed log j (resolved scope e) =
    Names j (text "scope") scope
    × Names j (text "event_id") e.event_id
    × (e.event_class ≡ text "TERMINAL")
    × First e.event_id (log scope) e
Backed log j (unresolved no_such_event) =
    (scope id : Text) × Names j (text "scope") scope
    × Names j (text "event_id") id
    × Misses id (log scope)
Backed log j (unresolved wrong_class) =
    (scope : Text) × (e : Event) × Names j (text "scope") scope
    × Names j (text "event_id") e.event_id
    × (same e.event_class (text "TERMINAL") ≡ false)
    × First e.event_id (log scope) e
Backed log j (unresolved f) = Unit {0}

event_by_id-First :
    (id : Text) (log : List Event) (e : Event) → event_by_id id log ≡ some e → First id log e
unfolding event_by_id
event_by_id-First id [] e h = ground arith
event_by_id-First id (x ∷ log) e h = elim (Bool-cases (same x.event_id id)) [
  | inl hit ↦
      subst (First id (x ∷ log)) (some-injective _ _ (simp (hit, event_by_id) at h)) (record {
        earlier = [];
        later = log;
        splits = refl;
        named = (same_iff x.event_id id).0 hit;
        misses = tt;
      })
  | inr miss ↦
      let f = event_by_id-First id log e (simp (miss, event_by_id) at h) in
      record {
        earlier = x ∷ f.earlier;
        later = f.later;
        splits = ap (λ l. x ∷ l) f.splits;
        named = f.named;
        misses = (miss, f.misses);
      }
]

event_by_id-Misses : (id : Text) (log : List Event) → event_by_id id log ≡ none → Misses id log
unfolding event_by_id
event_by_id-Misses id [] h = tt
event_by_id-Misses id (x ∷ log) h = elim (Bool-cases (same x.event_id id)) [
  | inl hit ↦ ground (arith, simp (hit, event_by_id) at h)
  | inr miss ↦ (miss, event_by_id-Misses id log (simp (miss, event_by_id) at h))
]

non_blank-some :
    (v : Option Text) (t : Text) → non_blank v ≡ some t → (v ≡ some t) × (is_blank t ≡ false)
unfolding non_blank
non_blank-some none t h = ground arith
non_blank-some (some u) t h = elim (Bool-cases (is_blank u)) [
  | inl c ↦ ground (arith, simp (c, non_blank) at h)
  | inr c ↦
      let q = some-injective _ _ (simp (c, non_blank) at h) in
      (ap some q, subst (λ x. is_blank x ≡ false) q c)
]

among-Backed :
    (log : Text → List Event) (j : Json) (scope id : Text)
    → Names j (text "scope") scope
    → Names j (text "event_id") id
    → Backed log j (among scope id (log scope))
unfolding among is_receipt_authority
among-Backed log j scope id s i = elim (Option-cases (event_by_id id (log scope))) [
  | inl h ↦ simp (among, h) (scope, id, s, i, event_by_id-Misses id (log scope) h)
  | inr (e, h) ↦
      let first = event_by_id-First id (log scope) e h in
      let at : Names j (text "event_id") e.event_id =
        subst (Names j (text "event_id")) (sym first.named) i in
      let own : First e.event_id (log scope) e =
        subst (λ x. First x (log scope) e) (sym first.named) first in
      elim (Bool-cases (same e.event_class (text "TERMINAL"))) [
        | inl c ↦
            simp (among, is_receipt_authority, h, c)
              (s, at, (same_iff e.event_class (text "TERMINAL")).0 c, own)
        | inr c ↦ simp (among, is_receipt_authority, h, c) (scope, e, s, at, c, own)
      ]
]

module _ {S : Type 0} (store : Store S) (laws : IsLog S store) where
  -- For a store that keeps a log and every reference: if the reference is resolved, then its scope and
  -- its event_id are texts that are not blank, and it is resolved to the first event of that id in that
  -- scope's log, of class TERMINAL; if it is unresolved for want of the event, that log has none of that
  -- id, and if for its class, the first of that id is not TERMINAL.
  pub resolve_registry_authority-Backed :
      (s : S) (reference : Json)
      → Backed (laws.log s) reference (resolve_registry_authority store s reference)
  unfolding resolve_registry_authority field
  resolve_registry_authority-Backed s (Json.object r) =
      elim (Option-cases (non_blank (string_field (text "scope") r))) [
        | inl h ↦ simp (resolve_registry_authority, h) tt
        | inr (scope, a) ↦ elim (Option-cases (non_blank (string_field (text "event_id") r))) [
          | inl h ↦ simp (resolve_registry_authority, a, h) tt
          | inr (id, b) ↦ elim (Option-cases store.query) [
            | inl h ↦ simp (resolve_registry_authority, a, b, h) tt
            | inr (f, c) ↦ elim (Answer-cases (f s scope everything)) [
              | inr (rs, h) ↦ simp (resolve_registry_authority, a, b, c, h) tt
              | inl (events, h) ↦
                  let q : events ≡ laws.log s scope =
                    laws.queried f c s scope everything events h
                    ∙ filter-everything (laws.log s scope) in
                  simp (resolve_registry_authority, a, b, c, h, q)
                    (among-Backed (laws.log s) (Json.object r) scope id (non_blank-some _ scope a)
                      (non_blank-some _ id b))
            ]
          ]
        ]
      ]
  resolve_registry_authority-Backed s Json.null = tt
  resolve_registry_authority-Backed s (Json.bool b) = tt
  resolve_registry_authority-Backed s (Json.number n) = tt
  resolve_registry_authority-Backed s (Json.string t) = tt
  resolve_registry_authority-Backed s (Json.array items) = tt
