-- ===== src/Lease/Renewal.antt =====
-- src/protocol/lease/store.ts: what a renewal or a release that succeeds says of the record that
-- the call found.
use odin_sentinel.Base.{
  ℕ, ◌+◌, ◌*◌, ◌≡◌, refl, inl, inr, false, Option, none, some, Text, same_iff, is_segment, arith,
  Option-cases, Bool-cases, ◌∙◌, sym, ap,
}
use odin_sentinel.Lease.Record.{LeaseRecord, Platform}
use odin_sentinel.Lease.Directory.{
  Env, Directory, Outcome-cases, ok, Lock-cases, Body, decode, decoded, skew_ms, is_expired,
  read_lease, with_slot_lock, with_allowed_slot_lock, ensure_slot_allowed, on_record,
}
use odin_sentinel.Lease.Operations.{
  Ttl, positive_ttl, stamp, store_stamped, holder_fault, renew_body, renew_lease,
}

module _ {File A : Type 0} (p : Platform File) (env : Env File) (d : Directory File)
    (slot : Text) where
  -- The record that the body was given.
  abbrev pub Ran : Body File A → A → Type 0
  Ran body a =
      (r : LeaseRecord) × (decode p slot ((env.meanwhile d).lease slot) ≡ some r)
      × ((body r (env.meanwhile d)).0 ≡ ok a)

  decoded-ok :
      (body : Body File A) (a : A) (d' : Directory File) (o : Option LeaseRecord)
      → (on_record (decoded p o) d' body).0 ≡ ok a
      → (r : LeaseRecord) × (o ≡ some r) × ((body r d').0 ≡ ok a)
  decoded-ok body a d' none q = ground arith
  decoded-ok body a d' (some r) q = (r, refl, q)

  read_lease-Ran :
      (body : Body File A) (a : A) (d' : Directory File)
      → (on_record (read_lease p d' slot) d' body).0 ≡ ok a
      → (r : LeaseRecord) × (decode p slot (d'.lease slot) ≡ some r) × ((body r d').0 ≡ ok a)
  unfolding read_lease
  read_lease-Ran body a d' q = elim (Bool-cases (is_segment slot)) [
    | inl good ↦ elim (Outcome-cases (ensure_slot_allowed d'.allow slot)) [
      | inl (t, listed) ↦
          decoded-ok body a d' (decode p slot (d'.lease slot))
            (simp (read_lease, good, listed) at q)
      | inr (inl (c, hs, e)) ↦ ground arith
      | inr (inr e) ↦ ground arith
    ]
    | inr bad ↦ ground arith
  ]

  pub with_slot_lock-Ran :
      (body : Body File A) (a : A) → (with_slot_lock p env d slot body).0 ≡ ok a → Ran body a
  unfolding with_slot_lock
  with_slot_lock-Ran body a q = elim (Bool-cases env.mkdir_fails) [
    | inl fails ↦ ground arith
    | inr made ↦ elim (Lock-cases env.lock) [
      | inl free ↦ read_lease-Ran body a (env.meanwhile d) (simp (with_slot_lock, made, free) at q)
      | inr (inl taken) ↦ ground arith
      | inr (inr broken) ↦ ground arith
    ]
  ]

  -- A locked section that answers has run on the record that the slot had then.
  pub with_allowed_slot_lock-Ran :
      (body : Body File A) (a : A)
      → (with_allowed_slot_lock p env d slot body).0 ≡ ok a
      → Ran body a
  unfolding with_allowed_slot_lock
  with_allowed_slot_lock-Ran body a q = elim (Outcome-cases (ensure_slot_allowed d.allow slot)) [
    | inl (t, listed) ↦ with_slot_lock-Ran body a (simp (with_allowed_slot_lock, listed) at q)
    | inr (inl (c, hs, e)) ↦ ground arith
    | inr (inr e) ↦ ground arith
  ]

module _ {File : Type 0} (p : Platform File) (env : Env File) (slot : Text) where
  -- The record that the call found under the lock is this holder's, under this token.
  pub record Presented (holder : Text) (token : ℕ) (r : LeaseRecord) : Type 0 where
    pub mine : r.holder ≡ some holder
    pub current : r.token ≡ token

  holder_fault-Presented :
      (r : LeaseRecord) (holder : Text) (token : ℕ)
      → holder_fault r holder token ≡ none
      → Presented holder token r
  unfolding holder_fault
  holder_fault-Presented r holder token q = elim (Option-cases r.holder) [
    | inl free ↦ ground arith
    | inr (h, held) ↦ ground (arith, same_iff h holder)
  ]

  store_stamped-ok :
      {A : Type 0} (d : Directory File) (o : Option LeaseRecord) (result : LeaseRecord → A) (a : A)
      → (store_stamped p env d o result).0 ≡ ok a
      → (next : LeaseRecord) × (o ≡ some next) × (a ≡ result next)
  unfolding store_stamped
  store_stamped-ok d none result a q = ground arith
  store_stamped-ok d (some next) result a q = (next, refl, ground arith)

  stamp-fields :
      (r s : LeaseRecord) (token : ℕ) (holder expires : Text)
      → stamp p env r token holder expires ≡ some s
      → (s.token ≡ token) × (s.holder ≡ some holder) × (s.expires_at ≡ some expires)
  unfolding stamp
  stamp-fields r s token holder expires q = ground (arith, Option-cases (Platform.iso p env.now))

  renew_body-ok :
      (holder : Text) (token ttl : ℕ) (r next : LeaseRecord) (d : Directory File)
      → (renew_body p env holder token ttl r d).0 ≡ ok next
      → Presented holder token r
        × (is_expired p r env.now (skew_ms env.skew) ≡ false)
        × (next.token ≡ token)
        × (next.holder ≡ some holder)
        × (next.expires_at ≡ Platform.iso p (env.now + ttl * 1000))
  unfolding renew_body
  renew_body-ok holder token ttl r next d q = elim (Option-cases (holder_fault r holder token)) [
    | inr (c, bad) ↦ ground arith
    | inl pass ↦ elim (Bool-cases (is_expired p r env.now (skew_ms env.skew))) [
      | inl late ↦ ground arith
      | inr live ↦ elim (Option-cases (Platform.iso p (env.now + ttl * 1000))) [
        | inl bad ↦ ground arith
        | inr (expires, good) ↦
            let presented : Presented holder token r = holder_fault-Presented r holder token pass in
            let (s, stamped, e) =
              store_stamped-ok d (stamp p env r r.token holder expires) (λ next. next) next
                (simp (renew_body, pass, live, good) at q) in
            let (a, b, c) = stamp-fields r s r.token holder expires stamped in
            (
              presented,
              live,
              ap (λ (t : LeaseRecord). t.token) e ∙ a ∙ presented.current,
              ap (λ (t : LeaseRecord). t.holder) e ∙ b,
              ap (λ (t : LeaseRecord). t.expires_at) e ∙ c ∙ sym good,
            )
      ]
    ]
  ]

  -- If renewLease succeeds, then the record found under the lock was this holder's under this token and
  -- had not lapsed, the ttl was positive, and the record returned keeps the token and the holder, with
  -- an expiry of one ttl from now.
  pub renew_lease-ok :
      (d : Directory File) (holder : Text) (token : ℕ) (ttl : Ttl) (next : LeaseRecord)
      → (renew_lease p env d slot holder token ttl).0 ≡ ok next
      → (r : LeaseRecord) × (n : ℕ) × (positive_ttl ttl ≡ some n)
        × (decode p slot ((env.meanwhile d).lease slot) ≡ some r)
        × Presented holder token r
        × (is_expired p r env.now (skew_ms env.skew) ≡ false)
        × (next.token ≡ token)
        × (next.holder ≡ some holder)
        × (next.expires_at ≡ Platform.iso p (env.now + n * 1000))
  unfolding renew_lease
  renew_lease-ok d holder token ttl next q = elim (Bool-cases (is_segment slot)) [
    | inr bad ↦ ground arith
    | inl good ↦ elim (Option-cases (positive_ttl ttl)) [
      | inl none_given ↦ ground arith
      | inr (n, given) ↦
          let (r, at, ran) =
            with_allowed_slot_lock-Ran p env d slot (renew_body p env holder token n) next
              (simp (renew_lease, good, given) at q) in
          let (mine, live, same_token, same_holder, until) =
            renew_body-ok holder token n r next (env.meanwhile d) ran in
          (r, n, given, at, mine, live, same_token, same_holder, until)
    ]
  ]
