-- ===== src/Governance/Log.antt =====
-- src/protocol/governance.ts: what an answer of the store says of its log.
use odin_sentinel.Base.{
  ◌≡◌, refl, ◌⊎◌, inl, inr, Bool, true, false, Option, none, some, List, [], ◌∷◌, Text, filter, ap,
  arith,
}
use odin_sentinel.Governance.Events.{
  Event, Rejection, Answer, ok, refused, Store, Query, IsLog, matches, then_ask, checked, required,
  ask, require_scope, invalid_scope, query_govdisp_events,
}

pub Answer-cases {ℓ} :
    {A : Type ℓ} (a : Answer A) → ((x : A) × (a ≡ ok x)) ⊎ ((r : List Rejection) × (a ≡ refused r))
Answer-cases (ok x) = inl (x, refl)
Answer-cases (refused r) = inr (r, refl)

refusals {ℓ} : {A : Type ℓ} → Answer A → Bool
refusals (ok x) = false
refusals (refused r) = true

-- An answer that is refused is not accepted.
pub refused-ne-ok {ℓ κ} :
    {A : Type ℓ} {C : Type κ} (r : List Rejection) (x : A) → refused r ≡ ok x → C
unfolding refusals
refused-ne-ok r x e = ground (arith, ap refusals e)

pub then_ask-ok {ℓ κ} :
    {A : Type ℓ} {B : Type κ} (a : Answer A) (f : A → Answer B) (b : B)
    → then_ask a f ≡ ok b
    → (x : A) × (a ≡ ok x) × (f x ≡ ok b)
unfolding then_ask
then_ask-ok (ok x) f b e = (x, refl, e)
then_ask-ok (refused r) f b e = refused-ne-ok r b e

pub checked-ok {ℓ} :
    {A : Type ℓ} (c : Bool) (r : Rejection) (a : Answer A) (x : A)
    → checked c r a ≡ ok x
    → (c ≡ true) × (a ≡ ok x)
unfolding checked
checked-ok true r a x e = (refl, e)
checked-ok false r a x e = refused-ne-ok (r ∷ []) x e

pub required-ok {ℓ κ} :
    {M : Type ℓ} {A : Type κ} (m : Option M) (k : M → Answer A) (x : A)
    → required m k ≡ ok x
    → (f : M) × (m ≡ some f) × (k f ≡ ok x)
unfolding required
required-ok none k x e = refused-ne-ok _ x e
required-ok (some f) k x e = (f, refl, e)

module _ {S : Type 0} (store : Store S) (laws : IsLog S store) where
  pub ask-ok :
      (s : S) (scope : Text) (valid : Bool) (r : Rejection) (q : Query) (events : List Event)
      → ask store s scope valid r q ≡ ok events
      → events ≡ filter (matches q) (laws.log s scope)
  unfolding ask
  ask-ok s scope valid r q events e =
      let (f, has, e1) = required-ok store.query _ events e in
      let (c1, e2) = checked-ok (require_scope scope) invalid_scope _ events e1 in
      let (c2, e3) = checked-ok valid r _ events e2 in laws.queried f has s scope q events e3

  pub query_govdisp_events-ok :
      (s : S) (scope : Text) (q : Query) (events : List Event)
      → query_govdisp_events store s scope q ≡ ok events
      → events ≡ filter (matches q) (laws.log s scope)
  unfolding query_govdisp_events
  query_govdisp_events-ok s scope q events e =
      let (f, has, e1) = required-ok store.query _ events e in
      let (c1, e2) = checked-ok (require_scope scope) invalid_scope _ events e1 in
      laws.queried f has s scope q events e2

value_or {ℓ} : {A : Type ℓ} → A → Answer A → A
value_or a (ok x) = x
value_or a (refused r) = a

pub ok-injective {ℓ} : {A : Type ℓ} (a b : A) → ok a ≡ ok b → a ≡ b
unfolding value_or
ok-injective a b e = ap (value_or a) e
