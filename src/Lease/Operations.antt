-- ===== src/Lease/Operations.antt =====
-- src/protocol/lease/store.ts: the operations on one slot. Each takes what the call meets (`Env`)
-- and the directory, and returns its outcome and the directory that it leaves.
use odin_sentinel.Base.{
  ℕ, suc, ◌+◌, ◌*◌, Bool, true, false, not, Option, none, some, Text, same, is_segment, is_blank,
  ltb, ◌==◌, ℤ, pos, if◌then◌else◌,
}
use odin_sentinel.Lease.Record.{LeaseRecord, Platform, next_token}
use odin_sentinel.Lease.Directory.{
  Env, Directory, Outcome, ok, raised, refusal, and_then, Code, invalid_slot, invalid_holder,
  invalid_ttl, slot_held, not_holder, stale_token, lease_expired, lease_missing, skew_ms, persist,
  is_expired, with_allowed_slot_lock, ensure_slot_allowed, read_lease,
}

-- A number of seconds: whole, or NaN or an infinity.
pub data Ttl : Type 0 where
  seconds : ℤ → Ttl
  not_finite : Ttl

-- Number.isFinite(ttlSeconds) && ttlSeconds > 0
unfoldable pub positive_ttl : Ttl → Option ℕ
positive_ttl (seconds (pos (suc n))) = some (suc n)
positive_ttl _ = none

pub record AcquireResult : Type 0 where
  pub record_after : LeaseRecord
  pub acquired : Bool
  pub took_over : Bool

pub record Status : Type 0 where
  pub current : LeaseRecord
  pub free : Bool
  pub expired : Bool

pub data Reason : Type 0 where
  current superseded unknown_token : Reason

pub record FenceVerdict : Type 0 where
  pub valid : Bool
  pub current_token : ℕ
  pub reason : Reason

abbrev pub verdict : ℕ → ℕ → FenceVerdict
verdict token fence =
    if token == fence
    then record { valid = true; current_token = fence; reason = current }
    else if ltb token fence
    then record { valid = false; current_token = fence; reason = superseded }
    else record { valid = false; current_token = fence; reason = unknown_token }

-- The three tests that renew, release and check share, in their order; `none` passes.
unfoldable pub holder_fault : LeaseRecord → Text → ℕ → Option Code
holder_fault r holder token = elim r.holder [
  | none ↦ some lease_missing
  | some h ↦
      if not (same h holder)
      then some not_holder
      else if r.token == token
      then none
      else some stale_token
]

module _ {File A : Type 0} where
  -- iso(at + ttlSeconds * 1000) is computed before the branches, and may throw.
  abbrev pub with_expiry :
      Option Text
      → Directory File
      → (Text → Outcome A × Directory File)
      → Outcome A × Directory File
  with_expiry none d f = (raised, d)
  with_expiry (some expires) d f = f expires

  abbrev pub with_ttl :
      Option ℕ → Directory File → (ℕ → Outcome A × Directory File) → Outcome A × Directory File
  with_ttl none d f = (refusal invalid_ttl, d)
  with_ttl (some n) d f = f n

module _ {File : Type 0} (p : Platform File) where
  -- The allow-list is read twice: here, and again by readLease.
  abbrev pub read_allowed : Directory File → Text → Outcome LeaseRecord
  read_allowed d slot = and_then (ensure_slot_allowed d.allow slot) λ _. read_lease p d slot

  unfoldable pub fence_action : Directory File → Text → ℕ → Outcome FenceVerdict
  fence_action d slot token = and_then (read_allowed d slot) λ r. ok (verdict token r.token)

module _ {File : Type 0} (p : Platform File) (env : Env File) where
  -- The record that names `holder` until `expires`, under the given token; iso(at) may throw.
  unfoldable pub stamp : LeaseRecord → ℕ → Text → Text → Option LeaseRecord
  stamp r token holder expires = elim (Platform.iso p env.now) [
    | none ↦ none
    | some at ↦ some (record r {
      token = token;
      holder = some holder;
      acquired_at = some at;
      expires_at = some expires;
    })
  ]

  unfoldable pub store_stamped :
      {A : Type 0}
      → Directory File
      → Option LeaseRecord
      → (LeaseRecord → A)
      → Outcome A × Directory File
  unfolding persist
  store_stamped d none result = (raised, d)
  store_stamped d (some next) result = persist p env d next (result next)

  unfoldable pub acquire_at :
      Text → Text → LeaseRecord → Directory File → Outcome AcquireResult × Directory File
  unfolding stamp store_stamped skew_ms next_token
  acquire_at holder expires r d = elim r.holder [
    | none ↦
        store_stamped d (stamp r (next_token r.token) holder expires)
          (λ next. record { record_after = next; acquired = true; took_over = false })
    | some h ↦
        if same h holder
        then store_stamped d (stamp r r.token holder expires)
            (λ next. record { record_after = next; acquired = false; took_over = false })
        else if is_expired p r env.now (skew_ms env.skew)
        then store_stamped d (stamp r (next_token r.token) holder expires)
            (λ next. record { record_after = next; acquired = true; took_over = true })
        else (refusal slot_held, d)
  ]

  unfoldable pub acquire_body :
      Text → ℕ → LeaseRecord → Directory File → Outcome AcquireResult × Directory File
  unfolding acquire_at
  acquire_body holder ttl r d =
      with_expiry (Platform.iso p (env.now + ttl * 1000)) d
        (λ expires. acquire_at holder expires r d)

  unfoldable pub acquire_lease :
      Directory File → Text → Text → Ttl → Outcome AcquireResult × Directory File
  acquire_lease d slot holder ttl =
      if not (is_segment slot)
      then (refusal invalid_slot, d)
      else if is_blank holder
      then (refusal invalid_holder, d)
      else with_ttl (positive_ttl ttl) d
          (λ n. with_allowed_slot_lock p env d slot (acquire_body holder n))

  unfoldable pub renew_body :
      Text → ℕ → ℕ → LeaseRecord → Directory File → Outcome LeaseRecord × Directory File
  unfolding stamp store_stamped holder_fault skew_ms
  renew_body holder token ttl r d = elim (holder_fault r holder token) [
    | some c ↦ (refusal c, d)
    | none ↦
        if is_expired p r env.now (skew_ms env.skew)
        then (refusal lease_expired, d)
        else with_expiry (Platform.iso p (env.now + ttl * 1000)) d
            (λ expires. store_stamped d (stamp r r.token holder expires) (λ next. next))
  ]

  unfoldable pub renew_lease :
      Directory File → Text → Text → ℕ → Ttl → Outcome LeaseRecord × Directory File
  renew_lease d slot holder token ttl =
      if not (is_segment slot)
      then (refusal invalid_slot, d)
      else with_ttl (positive_ttl ttl) d
          (λ n. with_allowed_slot_lock p env d slot (renew_body holder token n))

  unfoldable pub release_body :
      Text → ℕ → LeaseRecord → Directory File → Outcome LeaseRecord × Directory File
  unfolding store_stamped holder_fault
  release_body holder token r d = elim (holder_fault r holder token) [
    | some c ↦ (refusal c, d)
    | none ↦
        store_stamped d (some (record r { holder = none; acquired_at = none; expires_at = none }))
          (λ next. next)
  ]

  unfoldable pub release_lease :
      Directory File → Text → Text → ℕ → Outcome LeaseRecord × Directory File
  release_lease d slot holder token =
      if not (is_segment slot)
      then (refusal invalid_slot, d)
      else with_allowed_slot_lock p env d slot (release_body holder token)

  unfoldable pub check_lease : Directory File → Text → Text → ℕ → Outcome LeaseRecord
  unfolding holder_fault skew_ms
  check_lease d slot holder token = and_then (read_allowed p d slot) λ r.
      elim (holder_fault r holder token) [
        | some c ↦ refusal c
        | none ↦ if is_expired p r env.now (skew_ms env.skew) then refusal lease_expired else ok r
      ]

  unfoldable pub lease_status : Directory File → Text → Outcome Status
  unfolding skew_ms
  lease_status d slot = and_then (read_allowed p d slot) λ r. ok (record {
    current = r;
    free = elim r.holder [ none ↦ true | some _ ↦ false ];
    expired = is_expired p r env.now (skew_ms env.skew);
  })
