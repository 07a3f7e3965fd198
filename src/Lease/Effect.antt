-- ===== src/Lease/Effect.antt =====
-- src/protocol/lease/store.ts: what the locked section of each operation may write.
use odin_sentinel.Base.{
  ℕ, ◌+◌, ◌*◌, ◌≤◌, ◌<◌, ◌≡◌, refl, ◌⊎◌, inl, inr, Bool, true, Option, none, some, Text, same,
  same_iff, same_self, arith, Option-cases, Bool-cases, subst, ap, sym, ◌∙◌,
}
use mathlib.Core.Option.{some-injective, none-ne-some}
use odin_sentinel.Lease.Record.{
  LeaseRecord, Platform, exact_limit, next_token, next_token_le, next_token_exact,
}
use odin_sentinel.Lease.Directory.{Env, Directory, Outcome, write_lease, is_expired, skew_ms}
use odin_sentinel.Lease.Codec.{IsPlatform, IsWellFormed}
use odin_sentinel.Lease.Operations.{
  stamp, store_stamped, acquire_at, acquire_body, renew_body, release_body, holder_fault,
  with_expiry,
}
use odin_sentinel.Lease.AnyOf.{Phase, own, grant, own_body, grant_body, try_body}

-- `s` may follow `r` in one slot: the token never falls, and under one token below 2^53 the holder
-- stays, or leaves.
pub record Extends (r s : LeaseRecord) : Type 0 where
  pub grows : r.token ≤ s.token
  pub tenant : r.token < exact_limit → r.token ≡ s.token → (s.holder ≡ r.holder) ⊎ (s.holder ≡ none)

pub Extends-refl : (r : LeaseRecord) → Extends r r
Extends-refl r = record { grows = omega arith; tenant = λ small e. inl refl }

pub Extends-trans : (r s t : LeaseRecord) → Extends r s → Extends s t → Extends r t
Extends-trans r s t a b = record {
  grows = omega (arith, a.grows, b.grows);
  tenant = λ small e.
      join (a.tenant small (omega (arith, a.grows, b.grows)))
        (b.tenant (omega (arith, small, e, a.grows, b.grows)) (omega (arith, a.grows, b.grows)));
}
  where
    join :
        (s.holder ≡ r.holder) ⊎ (s.holder ≡ none)
        → (t.holder ≡ s.holder) ⊎ (t.holder ≡ none)
        → (t.holder ≡ r.holder) ⊎ (t.holder ≡ none)
    join (inl x) (inl y) = inl (cc)
    join (inr x) (inl y) = inr (cc)
    join _ (inr y) = inr y

module _ {File : Type 0} (p : Platform File) where
  -- A record that a call may write in place of `r`.
  pub record Successor (r next : LeaseRecord) : Type 0 where
    pub formed : IsWellFormed p next
    pub same_slot : next.slot ≡ r.slot
    pub extends : Extends r next

  -- The section writes nothing, or one successor.
  abbrev pub Effect : LeaseRecord → Directory File → Directory File → Type 0
  Effect r d d' = (d' ≡ d) ⊎ ((next : LeaseRecord) × Successor r next × (d' ≡ write_lease p d next))

module _ {File : Type 0} (p : Platform File) (valid : IsPlatform p) (env : Env File) where
  store_stamped-Effect :
      {A : Type 0} (r : LeaseRecord) (d : Directory File) (o : Option LeaseRecord)
      (result : LeaseRecord → A)
      → ((next : LeaseRecord) → o ≡ some next → Successor p r next)
      → Effect p r d (store_stamped p env d o result).1
  unfolding store_stamped
  store_stamped-Effect r d none result h = inl refl
  store_stamped-Effect r d (some next) result h = elim (Bool-cases env.write_fails) [
    | inl e ↦ simp e (inl refl)
    | inr e ↦ simp e (inr (next, h next refl, refl))
  ]

  stamp-Successor :
      (r : LeaseRecord) (token : ℕ) (holder expires : Text) (ms : ℕ) (next : LeaseRecord)
      → Platform.date_parse p expires ≡ some ms
      → Extends r (record r { token = token; holder = some holder })
      → stamp p env r token holder expires ≡ some next
      → Successor p r next
  unfolding stamp
  stamp-Successor r token holder expires ms next e x q =
      elim (Option-cases (Platform.iso p env.now)) [
        | inl bad ↦ absurd (none-ne-some _ (rw (bad, stamp) at q))
        | inr (at, good) ↦
            subst (Successor p r) (some-injective _ _ (simp (good, stamp) at q)) (record {
              formed = inr (holder, at, expires, ms, refl, refl, refl, e);
              same_slot = refl;
              extends = record { grows = x.grows; tenant = x.tenant };
            })
      ]

  stamped-Effect :
      {A : Type 0} (r : LeaseRecord) (d : Directory File) (token : ℕ) (holder expires : Text)
      (ms : ℕ) (result : LeaseRecord → A)
      → Platform.date_parse p expires ≡ some ms
      → Extends r (record r { token = token; holder = some holder })
      → Effect p r d (store_stamped p env d (stamp p env r token holder expires) result).1
  stamped-Effect r d token holder expires ms result e x =
      store_stamped-Effect r d (stamp p env r token holder expires) result
        (λ next. stamp-Successor r token holder expires ms next e x)

  -- A new token for whoever comes, or the old one for its holder.
  Extends-next :
      (r : LeaseRecord) (h : Text)
      → Extends r (record r { token = next_token r.token; holder = some h })
  Extends-next r h = record {
    grows = next_token_le r.token;
    tenant = λ small e. absurd (omega (arith, next_token_exact r.token small, e));
  }

  Extends-same :
      (r : LeaseRecord) (h holder : Text)
      → r.holder ≡ some h
      → same h holder ≡ true
      → Extends r (record r { token = r.token; holder = some holder })
  Extends-same r h holder e s = record {
    grows = omega arith;
    tenant = λ small _. inl (ap some (sym ((same_iff h holder).0 s)) ∙ sym e);
  }

  acquire_at-Effect :
      (holder expires : Text) (ms : ℕ) (r : LeaseRecord) (d : Directory File)
      → Platform.date_parse p expires ≡ some ms
      → Effect p r d (acquire_at p env holder expires r d).1
  unfolding acquire_at
  acquire_at-Effect holder expires ms r d e = elim (Option-cases r.holder) [
    | inl free ↦
        simp (free, acquire_at)
          (stamped-Effect r d (next_token r.token) holder expires ms _ e (Extends-next r holder))
    | inr (h, held) ↦ elim (Bool-cases (same h holder)) [
      | inl mine ↦
          simp (held, acquire_at, mine)
            (stamped-Effect r d r.token holder expires ms _ e (Extends-same r h holder held mine))
      | inr other ↦ elim (Bool-cases (is_expired p r env.now (skew_ms env.skew))) [
        | inl late ↦
            simp (held, acquire_at, other, late)
              (stamped-Effect r d (next_token r.token) holder expires ms _ e
                (Extends-next r holder))
        | inr live ↦ simp (held, acquire_at, other, live) (inl refl)
      ]
    ]
  ]

  with_expiry-Effect :
      {A : Type 0} (r : LeaseRecord) (d : Directory File) (ms : ℕ)
      (f : Text → Outcome A × Directory File)
      → ((expires : Text) → Platform.date_parse p expires ≡ some ms → Effect p r d (f expires).1)
      → Effect p r d (with_expiry (Platform.iso p ms) d f).1
  with_expiry-Effect r d ms f h = elim (Option-cases (Platform.iso p ms)) [
    | inl bad ↦ simp bad (inl refl)
    | inr (expires, good) ↦ simp good (h expires (valid.date_round ms expires good))
  ]

  pub acquire_body-Effect :
      (holder : Text) (ttl : ℕ) (r : LeaseRecord) (d : Directory File)
      → Effect p r d (acquire_body p env holder ttl r d).1
  unfolding acquire_body
  acquire_body-Effect holder ttl r d =
      with_expiry-Effect r d (env.now + ttl * 1000) (λ x. acquire_at p env holder x r d)
        (λ expires. acquire_at-Effect holder expires (env.now + ttl * 1000) r d)

  holder_fault-passes :
      (r : LeaseRecord) (holder : Text) (token : ℕ)
      → holder_fault r holder token ≡ none
      → (r.holder ≡ some holder) × (r.token ≡ token)
  unfolding holder_fault
  holder_fault-passes r holder token q = elim (Option-cases r.holder) [
    | inl free ↦ ground arith
    | inr (h, held) ↦ ground (arith, same_iff h holder)
  ]

  pub renew_body-Effect :
      (holder : Text) (token ttl : ℕ) (r : LeaseRecord) (d : Directory File)
      → Effect p r d (renew_body p env holder token ttl r d).1
  unfolding renew_body
  renew_body-Effect holder token ttl r d = elim (Option-cases (holder_fault r holder token)) [
    | inl pass ↦ elim (Bool-cases (is_expired p r env.now (skew_ms env.skew))) [
      | inl late ↦ simp (pass, renew_body, late) (inl refl)
      | inr live ↦
          simp (pass, renew_body, live)
            (with_expiry-Effect r d (env.now + ttl * 1000)
              (λ x. store_stamped p env d (stamp p env r r.token holder x) (λ next. next))
              (λ expires e.
                stamped-Effect r d r.token holder expires (env.now + ttl * 1000) (λ next. next) e
                  (Extends-same r holder holder (holder_fault-passes r holder token pass).0
                    (same_self holder))))
    ]
    | inr (c, bad) ↦ simp (bad, renew_body) (inl refl)
  ]

  abbrev freed : LeaseRecord → LeaseRecord
  freed r = record r { holder = none; acquired_at = none; expires_at = none }

  pub release_body-Effect :
      (holder : Text) (token : ℕ) (r : LeaseRecord) (d : Directory File)
      → Effect p r d (release_body p env holder token r d).1
  unfolding release_body
  release_body-Effect holder token r d = elim (Option-cases (holder_fault r holder token)) [
    | inl pass ↦
        simp (pass, release_body)
          (store_stamped-Effect r d (some (freed r)) (λ next. next)
            (λ next q. subst (Successor p r) (some-injective _ _ q) (record {
              formed = inl (refl, refl, refl);
              same_slot = refl;
              extends = record { grows = omega arith; tenant = λ small _. inr refl };
            })))
    | inr (c, bad) ↦ simp (bad, release_body) (inl refl)
  ]

  own_body-Effect :
      (expired : Bool) (holder : Text) (r : LeaseRecord) (d : Directory File)
      → (own_body expired holder r d).1 ≡ d
  unfolding own_body
  own_body-Effect expired holder r d = ground arith

  grant_body-Effect :
      (expired : Bool) (holder expires : Text) (ms : ℕ) (r : LeaseRecord) (d : Directory File)
      → Platform.date_parse p expires ≡ some ms
      → Effect p r d (grant_body p env expired holder expires r d).1
  unfolding grant_body
  grant_body-Effect expired holder expires ms r d e = elim (Option-cases r.holder) [
    | inl free ↦
        simp (free, grant_body)
          (stamped-Effect r d (next_token r.token) holder expires ms _ e (Extends-next r holder))
    | inr (h, held) ↦ elim (Bool-cases expired) [
      | inl late ↦
          simp (held, grant_body, late)
            (stamped-Effect r d (next_token r.token) holder expires ms _ e (Extends-next r holder))
      | inr live ↦ elim (Bool-cases (same h holder)) [
        | inl mine ↦ simp (held, grant_body, live, mine) (inl refl)
        | inr other ↦ simp (held, grant_body, live, other) (inl refl)
      ]
    ]
  ]

  pub try_body-Effect :
      (phase : Phase) (holder : Text) (ttl : ℕ) (r : LeaseRecord) (d : Directory File)
      → Effect p r d (try_body p env phase holder ttl r d).1
  unfolding try_body
  try_body-Effect own holder ttl r d =
      with_expiry-Effect r d (env.now + ttl * 1000) _
        (λ expires e. inl (own_body-Effect (is_expired p r env.now (skew_ms env.skew)) holder r d))
  try_body-Effect grant holder ttl r d =
      with_expiry-Effect r d (env.now + ttl * 1000) _ (λ expires e.
        grant_body-Effect (is_expired p r env.now (skew_ms env.skew)) holder expires
          (env.now + ttl * 1000) r d e)
