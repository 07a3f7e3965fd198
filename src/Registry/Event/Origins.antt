-- ===== src/Registry/Event/Origins.antt =====
-- src/protocol/schemas.ts: where each field of a parsed event stands in the object.
use odin_sentinel.Base.{
  ℕ, ◌≡◌, refl, true, false, Option, none, some, List, [], ◌∷◌, Text, text, Json, Fields, Items,
  nil, cons, any, member, same, same_iff, subst, arith, Bool-cases, inl, inr, pos, negsuc, int,
  fraction,
}
use mathlib.Core.Option.{some-injective}
use odin_sentinel.Governance.Events.{AuditTarget, ordinary_work, audit}
use odin_sentinel.Registry.Schema.{
  optional_text, optional_enum, optional_index, content_hash, content_hash_items, content_hashes,
  one_of, audit_target, ContentHash, Detail, attempt, finding, break_glass, budget, terminal,
  audits,
}
use odin_sentinel.Registry.Event.Parsing.{bind-some, when-some, enumerated-some, non_empty-some}

-- The text of a field.
abbrev pub Holds : Fields → Text → Text → Type 0
Holds f k t = member k f ≡ some (Json.string t)

-- A text that may be missing, and is missing just if the field is.
abbrev pub IsText : Option Json → Option Text → Type 0
IsText v none = v ≡ none
IsText v (some t) = v ≡ some (Json.string t)

abbrev pub IsCount : Option Json → Option ℕ → Type 0
IsCount v none = v ≡ none
IsCount v (some n) = v ≡ some (Json.number (int (pos n)))

abbrev pub IsHashOf : Json → ContentHash → Type 0
IsHashOf j h =
    (g : Fields) × (j ≡ Json.object g)
    × Holds g (text "path") h.path
    × Holds g (text "sha256") h.sha256

-- The items are the hashes, one for one and in order.
abbrev pub AreHashesOf : Items → List ContentHash → Type 0
AreHashesOf nil [] = Unit
AreHashesOf (cons j rest) (h ∷ hs) = IsHashOf j h × AreHashesOf rest hs
AreHashesOf _ _ = ⊥

abbrev pub IsTargetOf : Fields → AuditTarget → Type 0
IsTargetOf g ordinary_work = Holds g (text "kind") (text "ordinary_work")
IsTargetOf g (audit id) = Holds g (text "kind") (text "audit") × Holds g (text "target_event_id") id

-- Each field of a class's own stands under its key.
abbrev pub Shows : Fields → Detail → Type 0
Shows f (attempt type index trigger) =
    IsCount (member (text "attempt_index") f) index × IsText (member (text "trigger") f) trigger
Shows f (finding type finding_id owner) =
    Holds f (text "finding_id") finding_id × IsText (member (text "owner_role") f) owner
Shows f (break_glass type human contradiction) =
    Holds f (text "authorizing_human") human × Holds f (text "contradiction_ref") contradiction
Shows f (budget type kind) = Holds f (text "budget_kind") kind
Shows f (terminal type hashes) =
    (items : Items) × (member (text "content_hashes") f ≡ some (Json.array items))
    × AreHashesOf items hashes
Shows f (audits type target) =
    (g : Fields) × (member (text "target") f ≡ some (Json.object g)) × IsTargetOf g target

pub optional_text-IsText :
    (v : Option Json) (t : Option Text) → optional_text v ≡ some t → IsText v t
unfolding optional_text
optional_text-IsText none t h = subst (IsText none) (some-injective _ _ h) refl
optional_text-IsText (some v) t h =
    let (s, a, q) = bind-some _ _ _ h in
    subst (IsText (some v)) (some-injective _ _ q) ((non_empty-some (some v) s a).0)

pub optional_enum-IsText :
    (values : List Text) (v : Option Json) (t : Option Text)
    → optional_enum values v ≡ some t
    → IsText v t
unfolding optional_enum
optional_enum-IsText values none t h = subst (IsText none) (some-injective _ _ h) refl
optional_enum-IsText values (some v) t h =
    let (s, a, q) = bind-some _ _ _ h in
    subst (IsText (some v)) (some-injective _ _ q) ((enumerated-some values (some v) s a).0)

pub optional_index-IsCount :
    (v : Option Json) (i : Option ℕ) → optional_index v ≡ some i → IsCount v i
unfolding optional_index
optional_index-IsCount none i h = subst (IsCount none) (some-injective _ _ h) refl
optional_index-IsCount (some (Json.number (int (pos n)))) i h =
    let (c, q) = when-some _ _ _ h in subst (IsCount (some (Json.number (int (pos n))))) q refl
optional_index-IsCount (some (Json.number (int (negsuc n)))) i h = ground arith
optional_index-IsCount (some (Json.number fraction)) i h = ground arith
optional_index-IsCount (some (Json.string t)) i h = ground arith
optional_index-IsCount (some Json.null) i h = ground arith
optional_index-IsCount (some (Json.bool b)) i h = ground arith
optional_index-IsCount (some (Json.array a)) i h = ground arith
optional_index-IsCount (some (Json.object f)) i h = ground arith

content_hash-IsHashOf : (j : Json) (h : ContentHash) → content_hash j ≡ some h → IsHashOf j h
unfolding content_hash
content_hash-IsHashOf (Json.object f) h e =
    let (p, a, e1) = bind-some _ _ _ e in
    let (s, b, e2) = bind-some _ _ _ e1 in
    let (c, q) = when-some _ _ _ e2 in
    let r : IsHashOf (Json.object f) (record { path = p; sha256 = s }) =
      (f, refl, (non_empty-some _ p a).0, (non_empty-some _ s b).0) in
    subst (IsHashOf (Json.object f)) q r
content_hash-IsHashOf (Json.number n) h e = ground arith
content_hash-IsHashOf (Json.string t) h e = ground arith
content_hash-IsHashOf Json.null h e = ground arith
content_hash-IsHashOf (Json.bool b) h e = ground arith
content_hash-IsHashOf (Json.array a) h e = ground arith

content_hash_items-AreHashesOf :
    (items : Items) (hs : List ContentHash)
    → content_hash_items items ≡ some hs
    → AreHashesOf items hs
unfolding content_hash_items
content_hash_items-AreHashesOf nil hs e = subst (AreHashesOf nil) (some-injective _ _ e) tt
content_hash_items-AreHashesOf (cons j rest) hs e =
    let (h, a, e1) = bind-some _ _ _ e in
    let (t, b, e2) = bind-some _ _ _ e1 in
    let all : AreHashesOf (cons j rest) (h ∷ t) =
      (content_hash-IsHashOf j h a, content_hash_items-AreHashesOf rest t b) in
    subst (AreHashesOf (cons j rest)) (some-injective _ _ e2) all

pub content_hashes-AreHashesOf :
    (v : Option Json) (hs : List ContentHash)
    → content_hashes v ≡ some hs
    → (items : Items) × (v ≡ some (Json.array items)) × AreHashesOf items hs
unfolding content_hashes
content_hashes-AreHashesOf (some (Json.array (cons j rest))) hs e =
    (cons j rest, refl, content_hash_items-AreHashesOf (cons j rest) hs e)
content_hashes-AreHashesOf none hs e = ground arith
content_hashes-AreHashesOf (some (Json.array nil)) hs e = ground arith
content_hashes-AreHashesOf (some (Json.number n)) h e = ground arith
content_hashes-AreHashesOf (some (Json.string t)) h e = ground arith
content_hashes-AreHashesOf (some Json.null) h e = ground arith
content_hashes-AreHashesOf (some (Json.bool b)) h e = ground arith
content_hashes-AreHashesOf (some (Json.object a)) h e = ground arith

-- The kind is one of two.
other_kind :
    (g : Fields) (kind : Text)
    → any (same kind) (text "ordinary_work" ∷ text "audit" ∷ []) ≡ true
    → same kind (text "audit") ≡ false
    → kind ≡ text "ordinary_work"
other_kind g kind h c = elim (Bool-cases (same kind (text "ordinary_work"))) [
  | inl o ↦ (same_iff kind (text "ordinary_work")).0 o
  | inr o ↦ ground (arith, simp (o, c) at h)
]

audit_target-at :
    (g : Fields) (t : AuditTarget) → audit_target (some (Json.object g)) ≡ some t → IsTargetOf g t
unfolding audit_target one_of
audit_target-at g t h =
    let (kind, a, e) = bind-some _ _ _ h in
    let (stands, known) = enumerated-some (text "ordinary_work" ∷ text "audit" ∷ []) _ kind a in
    elim (Bool-cases (same kind (text "audit"))) [
      | inl c ↦
          let e' = simp c at e in
          let (id, b, e1) = bind-some _ _ _ e' in
          let (d, q) = when-some _ _ _ e1 in
          let r : IsTargetOf g (audit id) = (
            subst (Holds g (text "kind")) ((same_iff kind (text "audit")).0 c) stands,
            (non_empty-some _ id b).0,
          ) in
          subst (IsTargetOf g) q r
      | inr c ↦
          let e' = simp c at e in
          let (d, q) = when-some _ _ _ e' in
          let r : IsTargetOf g ordinary_work =
            subst (Holds g (text "kind")) (other_kind g kind known c) stands in
          subst (IsTargetOf g) q r
    ]

pub audit_target-IsTargetOf :
    (v : Option Json) (t : AuditTarget)
    → audit_target v ≡ some t
    → (g : Fields) × (v ≡ some (Json.object g)) × IsTargetOf g t
unfolding audit_target
audit_target-IsTargetOf (some (Json.object g)) t h = (g, refl, audit_target-at g t h)
audit_target-IsTargetOf none t h = ground arith
audit_target-IsTargetOf (some (Json.number n)) t h = ground arith
audit_target-IsTargetOf (some (Json.string s)) t h = ground arith
audit_target-IsTargetOf (some Json.null) t h = ground arith
audit_target-IsTargetOf (some (Json.bool b)) t h = ground arith
audit_target-IsTargetOf (some (Json.array a)) t h = ground arith
