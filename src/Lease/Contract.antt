-- ===== src/Lease/Contract.antt =====
-- src/protocol/lease/store.ts: the operations against an abstract slot, which is free under a
-- token, or held under a token by a holder until an instant.
use odin_sentinel.Base.{
  ℕ, suc, ◌+◌, ◌*◌, ◌<◌, ◌≡◌, ◌≢◌, refl, ◌⊎◌, inl, inr, Bool, true, false, none, some, Text, same,
  is_segment, is_blank, arith, if◌then◌else◌, leb, pos, Bool-cases, ◌∙◌, sym, subst,
}
use mathlib.Core.Option.{some-injective, some-ne-none}
use odin_sentinel.Lease.Record.{LeaseRecord, Platform, exact_limit, next_token_exact}
use odin_sentinel.Lease.Directory.{
  Env, Directory, Outcome, Outcome-cases, ok, refusal, granted, Body, slot_held, decode, skew_ms,
  is_expired, write_lease, with_slot_lock, with_allowed_slot_lock, ensure_slot_allowed, read_lease,
}
use odin_sentinel.Lease.Codec.{IsPlatform, decode-IsWellFormed, decode-write_self}
use odin_sentinel.Lease.Operations.{
  seconds, positive_ttl, AcquireResult, acquire_lease, acquire_at, acquire_body, stamp,
  store_stamped, fence_action, superseded,
}
use odin_sentinel.Lease.Effect.{Extends}
use odin_sentinel.Lease.Fencing.{Evolves}

pub data SlotState : Type 0 where
  free : ℕ → SlotState
  held : ℕ → Text → ℕ → SlotState

-- What acquire promises: a free slot and a lapsed one are granted under a new token, the holder's
-- own is refreshed under the old one, and any other is left alone.
unfoldable pub acquire_spec : ℕ → ℕ → Text → ℕ → SlotState → Bool × SlotState
acquire_spec now skew holder ttl (free t) = (true, held (t + 1) holder (now + ttl * 1000))
acquire_spec now skew holder ttl (held t h until) =
    if same h holder
    then (true, held t holder (now + ttl * 1000))
    else if leb (until + skew) now
    then (true, held (t + 1) holder (now + ttl * 1000))
    else (false, held t h until)

module _ {File : Type 0} (p : Platform File) where
  -- The abstract slot that a record stands for.
  pub data Views (r : LeaseRecord) : SlotState → Type 0 where
    is_free : {s : SlotState} → r.holder ≡ none → s ≡ free r.token → Views r s
    is_held :
        {s : SlotState} (h e : Text) (ms : ℕ)
        → r.holder ≡ some h
        → r.expires_at ≡ some e
        → Platform.date_parse p e ≡ some ms
        → s ≡ held r.token h ms
        → Views r s

  -- The outcome and the record that the specification asks for.
  abbrev pub Meets : Text → Outcome AcquireResult × Directory File → Bool × SlotState → Type 0
  Meets slot out spec =
      (next : LeaseRecord) × (decode p slot (out.1.lease slot) ≡ some next)
      × Views next spec.1
      × (((spec.0 ≡ true)
            × (a t : Bool) × (out.0
                ≡ ok (record { record_after = next; acquired = a; took_over = t })))
          ⊎ ((spec.0 ≡ false) × (out.0 ≡ refusal slot_held)))

  -- Nothing outside stands in the call's way.
  pub record Ready (env : Env File) (d : Directory File) (slot : Text) : Type 0 where
    pub made : env.mkdir_fails ≡ false
    pub locked : env.lock ≡ granted
    pub writes : env.write_fails ≡ false
    pub segment : is_segment slot ≡ true
    pub listed : ensure_slot_allowed d.allow slot ≡ ok tt
    pub still_listed : ensure_slot_allowed (env.meanwhile d).allow slot ≡ ok tt

  with_allowed_slot_lock-Ready :
      {A : Type 0} (env : Env File) (d : Directory File) (slot : Text) (r : LeaseRecord)
      (body : Body File A)
      → Ready env d slot
      → decode p slot ((env.meanwhile d).lease slot) ≡ some r
      → with_allowed_slot_lock p env d slot body ≡ body r (env.meanwhile d)
  unfolding with_allowed_slot_lock with_slot_lock read_lease
  with_allowed_slot_lock-Ready env d slot r body ready e = simp (
    with_allowed_slot_lock, with_slot_lock, read_lease, ready.listed, ready.made, ready.locked,
    ready.segment, ready.still_listed, e,
  )

  is_expired-held :
      (r : LeaseRecord) (h e : Text) (ms at skew : ℕ)
      → r.holder ≡ some h
      → r.expires_at ≡ some e
      → Platform.date_parse p e ≡ some ms
      → is_expired p r at skew ≡ leb (ms + skew) at
  unfolding is_expired
  is_expired-held r h e ms at skew hh he hm = simp (is_expired, hh, he, hm)

module _ {File : Type 0} (p : Platform File) (valid : IsPlatform p) (env : Env File) (slot : Text)
    (at until : Text) (expiry : ℕ) (stamped : Platform.iso p env.now ≡ some at)
    (limited : Platform.iso p expiry ≡ some until) (writes : env.write_fails ≡ false) where
  -- A grant under `token` is stored, can be read, and stands for the abstract slot that it should.
  grant-Views :
      {A : Type 0} (r : LeaseRecord) (d : Directory File) (token : ℕ) (holder : Text)
      (result : LeaseRecord → A)
      → r.slot ≡ slot
      → let out = store_stamped p env d (stamp p env r token holder until) result in
        (next : LeaseRecord) × (out.0 ≡ ok (result next))
        × (decode p slot (out.1.lease slot) ≡ some next)
        × Views p next (held token holder expiry)
  unfolding stamp store_stamped
  grant-Views r d token holder result e = (
    next,
    simp (store_stamped, stamp, stamped, writes),
    simp (store_stamped, stamp, stamped, writes)
        (subst (λ t. decode p t ((write_lease p d next).lease t) ≡ some next) e
          (decode-write_self p valid d next
            (inr (holder, at, until, expiry, refl, refl, refl, date)))),
    is_held holder until expiry refl refl date refl,
  )
    where
      next : LeaseRecord
      next = record r {
        token = token;
        holder = some holder;
        acquired_at = some at;
        expires_at = some until;
      }

      date : Platform.date_parse p until ≡ some expiry
      date = valid.date_round expiry until limited

  acquire_at-Meets :
      (holder : Text) (ttl : ℕ) (r : LeaseRecord) (d : Directory File) (s : SlotState)
      → expiry ≡ env.now + ttl * 1000
      → r.slot ≡ slot
      → decode p slot (d.lease slot) ≡ some r
      → Views p r s
      → r.token < exact_limit
      → Meets p slot
          (acquire_at p env holder until r d)
          (acquire_spec env.now (skew_ms env.skew) holder ttl s)
  unfolding acquire_at acquire_spec
  acquire_at-Meets holder ttl r d s x e q (is_free f v) small =
      let (next, o, stored, views) =
        grant-Views r d (r.token + 1) holder
          (λ next. record { record_after = next; acquired = true; took_over = false }) e in
      simp (v, f, acquire_at, acquire_spec, next_token_exact r.token small, sym x)
        (next, stored, views, inl (refl, true, false, o))
  acquire_at-Meets holder ttl r d s x e q (is_held h ex ms hh he hm v) small =
      elim (Bool-cases (same h holder)) [
        | inl mine ↦
            let (next, o, stored, views) =
              grant-Views r d r.token holder
                (λ next. record { record_after = next; acquired = false; took_over = false }) e in
            simp (v, hh, mine, acquire_at, acquire_spec, sym x)
              (next, stored, views, inl (refl, false, false, o))
        | inr other ↦ elim (Bool-cases (leb (ms + skew_ms env.skew) env.now)) [
          | inl late ↦
              let (next, o, stored, views) =
                grant-Views r d (r.token + 1) holder
                  (λ next. record { record_after = next; acquired = true; took_over = true }) e in
              simp
                (
                  v,
                  hh,
                  other,
                  is_expired-held p r h ex ms env.now (skew_ms env.skew) hh he hm,
                  late,
                  next_token_exact r.token small,
                  acquire_at,
                  acquire_spec,
                  sym x,
                )
                (next, stored, views, inl (refl, true, true, o))
          | inr live ↦
              simp
                (
                  v,
                  hh,
                  other,
                  is_expired-held p r h ex ms env.now (skew_ms env.skew) hh he hm,
                  live,
                  acquire_at,
                  acquire_spec,
                )
                (r, q, is_held h ex ms hh he hm refl, inr (refl, refl))
        ]
      ]

module _ {File : Type 0} (p : Platform File) (valid : IsPlatform p) where
  -- Past the checks, under the lock.
  acquire_lease-body :
      (env : Env File) (d : Directory File) (slot holder : Text) (n : ℕ)
      → is_segment slot ≡ true
      → is_blank holder ≡ false
      → acquire_lease p env d slot holder (seconds (pos (suc n)))
        ≡ with_allowed_slot_lock p env d slot (acquire_body p env holder (suc n))
  unfolding acquire_lease positive_ttl
  acquire_lease-body env d slot holder n segment named = simp (acquire_lease, segment, named)

  acquire_body-at :
      (env : Env File) (holder until : Text) (ttl : ℕ) (r : LeaseRecord) (d : Directory File)
      → Platform.iso p (env.now + ttl * 1000) ≡ some until
      → acquire_body p env holder ttl r d ≡ acquire_at p env holder until r d
  unfolding acquire_body
  acquire_body-at env holder until ttl r d limited = simp (acquire_body, limited)

  -- Where nothing outside stands in its way and the slot's token is below 2^53, acquireLease meets
  -- the specification: from the record that the slot has once the lock is held, whatever other
  -- processes did before, it leaves a readable record that stands for the state that the
  -- specification gives, and it grants just where the specification does, with that record in the
  -- answer, or else refuses with slot_held.
  pub acquire_lease-Meets :
      (env : Env File) (d : Directory File) (slot holder : Text) (n : ℕ) (r : LeaseRecord)
      (s : SlotState) (at until : Text)
      → Ready p env d slot
      → is_blank holder ≡ false
      → decode p slot ((env.meanwhile d).lease slot) ≡ some r
      → Views p r s
      → r.token < exact_limit
      → Platform.iso p env.now ≡ some at
      → Platform.iso p (env.now + suc n * 1000) ≡ some until
      → Meets p slot
          (acquire_lease p env d slot holder (seconds (pos (suc n))))
          (acquire_spec env.now (skew_ms env.skew) holder (suc n) s)
  acquire_lease-Meets env d slot holder n r s at until ready named q v small stamped limited =
      subst (λ out. Meets p slot out (acquire_spec env.now (skew_ms env.skew) holder (suc n) s))
        (sym (
          acquire_lease-body env d slot holder n ready.segment named
          ∙ with_allowed_slot_lock-Ready p env d slot r (acquire_body p env holder (suc n)) ready q
          ∙ acquire_body-at env holder until (suc n) r (env.meanwhile d) limited))
        (acquire_at-Meets p valid env slot at until (env.now + suc n * 1000) stamped limited
          ready.writes holder (suc n) r (env.meanwhile d) s refl
          (decode-IsWellFormed p slot ((env.meanwhile d).lease slot) r q).1 q v small)

  -- readLease succeeds only on a listed slot with a readable record.
  read_lease-ok :
      (d : Directory File) (slot : Text) (r : LeaseRecord)
      → read_lease p d slot ≡ ok r
      → (ensure_slot_allowed d.allow slot ≡ ok tt) × (decode p slot (d.lease slot) ≡ some r)
  unfolding read_lease
  read_lease-ok d slot r q = ground (arith, Outcome-cases (ensure_slot_allowed d.allow slot))

  -- A new holder comes with a larger token, below 2^53.
  Extends-lt :
      (r s : LeaseRecord) (h : Text)
      → Extends r s
      → s.holder ≡ some h
      → r.holder ≢ some h
      → r.token < exact_limit
      → r.token < s.token
  Extends-lt r s h x now other small = omega (arith, x.grows, fresh)
    where
      clash : (s.holder ≡ r.holder) ⊎ (s.holder ≡ none) → ⊥
      clash (inl e) = other (sym e ∙ now)
      clash (inr e) = some-ne-none h (sym now ∙ e)

      fresh : r.token ≢ s.token
      fresh e = clash (x.tenant small e)

  -- After a takeover the old action is void: if the slot could be read before and after any
  -- evolution of the directory, and another holder has it then, and the token of the earlier record
  -- is below 2^53, fenceAction finds the token of the earlier record superseded, and reports the
  -- current one.
  pub fence_action-superseded :
      (d d' : Directory File) (slot : Text) (r s : LeaseRecord) (h : Text)
      → Evolves p d d'
      → read_lease p d slot ≡ ok r
      → read_lease p d' slot ≡ ok s
      → s.holder ≡ some h
      → r.holder ≢ some h
      → r.token < exact_limit
      → fence_action p d' slot r.token
        ≡ ok (record { valid = false; current_token = s.token; reason = superseded })
  unfolding fence_action
  fence_action-superseded d d' slot r s h evolves before after now other small =
      let (t, at, extends) = evolves.at slot r (read_lease-ok d slot r before).1 in
      let follows : Extends r s =
        subst (Extends r) (some-injective _ _ (sym at ∙ (read_lease-ok d' slot s after).1))
          extends in
      let older : r.token < s.token = Extends-lt r s h follows now other small in
      simp (fence_action, (read_lease-ok d' slot s after).0, after) (ground arith)
