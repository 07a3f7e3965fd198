-- ===== src/Governance/Activity.antt =====
-- src/protocol/governance.ts: the grouping of findings.
use odin_sentinel.Base.{
  ℕ, ◌+◌, ◌≤◌, ◌≡◌, refl, inl, inr, Bool, true, false, ◌&&◌, List, [], ◌∷◌, ◌++◌, Text, same,
  same_self, same_iff, is_empty, filter, max, ap, sym, ◌∙◌, subst, arith, Bool-cases, Option-cases,
  if◌then◌else◌,
}
use mathlib.Core.List.{append-nil, append_assoc}
use odin_sentinel.Governance.Events.{Event}
use odin_sentinel.Governance.Findings.{
  is_finding, about, is_active, summarize_finding_events, Buckets, put, grouped, sorted_out,
}

-- The events of one finding, in order.
unfoldable pub events_of : Text → List Event → List Event
unfolding is_finding about
events_of id es = filter (λ e. is_finding e && about id e) es

unfoldable pub bucket : Text → Buckets → List Event
unfolding same
bucket id [] = []
bucket id ((k, es) ∷ rest) = let later = bucket id rest in if same k id then es else later

same_trans : (a b c : Text) → same a b ≡ true → same a c ≡ same b c
same_trans a b c h = ap (λ x. same x c) ((same_iff a b).0 h)

bucket-put_self :
    (id : Text) (e : Event) (b : Buckets) → bucket id (put id e b) ≡ bucket id b ++ (e ∷ [])
unfolding bucket put
bucket-put_self id e [] = ground (arith, same_self id)
bucket-put_self id e ((k, es) ∷ rest) = ground (arith, bucket-put_self id e rest)

bucket-put_other :
    (id other : Text) (e : Event) (b : Buckets)
    → same other id ≡ false
    → bucket id (put other e b) ≡ bucket id b
unfolding bucket put
bucket-put_other id other e [] h = ground (arith, h)
bucket-put_other id other e ((k, es) ∷ rest) h =
    ground (arith, bucket-put_other id other e rest h, same_trans k other id)

bucket-put_hit :
    (id other : Text) (e : Event) (b : Buckets)
    → same other id ≡ true
    → bucket id (put other e b) ≡ bucket id b ++ (e ∷ [])
bucket-put_hit id other e b h =
    subst (λ x. bucket id (put x e b) ≡ bucket id b ++ (e ∷ [])) (sym ((same_iff other id).0 h))
      (bucket-put_self id e b)

pub bucket-grouped :
    (id : Text) (es : List Event) (b : Buckets)
    → bucket id (grouped es b) ≡ bucket id b ++ events_of id es
unfolding grouped events_of about
bucket-grouped id [] b = sym (append-nil (bucket id b))
bucket-grouped id (e ∷ es) b = elim (Option-cases e.finding_id) [
  | inl h ↦ simp (grouped, events_of, about, h) (ground (arith, bucket-grouped id es b))
  | inr (f, h) ↦ elim (Bool-cases (is_finding e)) [
    | inr c ↦ simp (grouped, events_of, about, h, c) (bucket-grouped id es b)
    | inl c ↦ elim (Bool-cases (same f id)) [
      | inl q ↦
          simp (grouped, events_of, about, h, c, q)
            (bucket-grouped id es (put f e b)
              ∙ ap (λ x. x ++ events_of id es) (bucket-put_hit id f e b q)
              ∙ append_assoc (bucket id b) (e ∷ []) (events_of id es))
      | inr q ↦
          simp (grouped, events_of, about, h, c, q)
            (bucket-grouped id es (put f e b)
              ∙ ap (λ x. x ++ events_of id es) (bucket-put_other id f e b q))
    ]
  ]
]

-- How often an id is a key, and how often it is in a list.
unfoldable pub keys : Text → Buckets → ℕ
unfolding same
keys id [] = 0
keys id ((k, es) ∷ rest) = let later = keys id rest in if same k id then later + 1 else later

unfoldable pub occurs : Text → List Text → ℕ
unfolding same
occurs id [] = 0
occurs id (x ∷ xs) = let later = occurs id xs in if same x id then later + 1 else later

keys-put_self : (id : Text) (e : Event) (b : Buckets) → keys id (put id e b) ≡ max 1 (keys id b)
unfolding keys put
keys-put_self id e [] = ground (arith, same_self id)
keys-put_self id e ((k, es) ∷ rest) = ground (arith, keys-put_self id e rest)

keys-put_other :
    (id other : Text) (e : Event) (b : Buckets)
    → same other id ≡ false
    → keys id (put other e b) ≡ keys id b
unfolding keys put
keys-put_other id other e [] h = ground (arith, h)
keys-put_other id other e ((k, es) ∷ rest) h =
    ground (arith, keys-put_other id other e rest h, same_trans k other id)

keys-put :
    (id other : Text) (e : Event) (b : Buckets)
    → keys id (put other e b) ≡ (if same other id then max 1 (keys id b) else keys id b)
keys-put id other e b = elim (Bool-cases (same other id)) [
  | inl h ↦ simp (h) (
      subst (λ x. keys id (put x e b) ≡ max 1 (keys id b)) (sym ((same_iff other id).0 h))
        (keys-put_self id e b))
  | inr h ↦ simp (h) (keys-put_other id other e b h)
]

pub keys-grouped :
    (id : Text) (es : List Event) (b : Buckets)
    → keys id (grouped es b) ≡ (if is_empty (events_of id es) then keys id b else max 1 (keys id b))
unfolding grouped events_of about
keys-grouped id [] b = refl
keys-grouped id (e ∷ es) b = elim (Option-cases e.finding_id) [
  | inl h ↦ simp (grouped, events_of, about, h) (ground (arith, keys-grouped id es b))
  | inr (f, h) ↦ elim (Bool-cases (is_finding e)) [
    | inr c ↦ simp (grouped, events_of, about, h, c) (keys-grouped id es b)
    | inl c ↦ elim (Bool-cases (same f id)) [
      | inl q ↦
          simp (grouped, events_of, about, h, c, q)
            (ground (arith, keys-grouped id es (put f e b), keys-put id f e b, q))
      | inr q ↦
          simp (grouped, events_of, about, h, c, q)
            (ground (arith, keys-grouped id es (put f e b), keys-put id f e b, q))
    ]
  ]
]

pub keys-once :
    (id : Text) (es : List Event)
    → keys id (grouped es []) ≡ (if is_empty (events_of id es) then 0 else 1)
unfolding keys
keys-once id es = keys-grouped id es []

pub keys_bound : (id : Text) (es : List Event) → keys id (grouped es []) ≤ 1
keys_bound id es = elim (Bool-cases (is_empty (events_of id es))) [
  | inl h ↦ ground (arith, keys-once id es, h)
  | inr h ↦ ground (arith, keys-once id es, h)
]

unfoldable pub active_at : Text → Buckets → Bool
unfolding bucket
active_at id b = is_active (summarize_finding_events id (bucket id b))

pub sorted_out-active :
    (id : Text) (b : Buckets)
    → ((k : Text) → keys k b ≤ 1)
    → (occurs id (sorted_out b).active_finding_ids ≡ (if active_at id b then keys id b else 0))
      × (occurs id (sorted_out b).inactive_finding_ids ≡ (if active_at id b then 0 else keys id b))
unfolding sorted_out occurs keys active_at
sorted_out-active id [] u = ground arith
sorted_out-active id ((k, es) ∷ rest) u =
    let (p, q) = sorted_out-active id rest (λ j. ground (arith, u j)) in
    elim (Bool-cases (same k id)) [
      | inl h ↦
          let here : k ≡ id = (same_iff k id).0 h in
          let alike : is_active (summarize_finding_events k es)
              ≡ is_active (summarize_finding_events id es) =
            ap (λ x. is_active (summarize_finding_events x es)) here in
          let first : keys id rest ≡ 0 = ground (arith, u id, h) in
          elim (Bool-cases (is_active (summarize_finding_events k es))) [
            | inl c ↦
                simp (sorted_out, active_at, bucket, h, c, sym alike) (ground (arith, p, q, first))
            | inr c ↦
                simp (sorted_out, active_at, bucket, h, c, sym alike) (ground (arith, p, q, first))
          ]
      | inr h ↦ elim (Bool-cases (is_active (summarize_finding_events k es))) [
        | inl c ↦ simp (sorted_out, active_at, bucket, h, c) (p, q)
        | inr c ↦ simp (sorted_out, active_at, bucket, h, c) (p, q)
      ]
    ]
