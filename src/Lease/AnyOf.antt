-- ===== src/Lease/AnyOf.antt =====
-- src/protocol/lease/store.ts: acquireAnyLease, which tries the listed slots in order, one lock at
-- a time, in two passes.
use odin_sentinel.Base.{
  ℕ, ◌+◌, ◌*◌, Bool, true, false, not, ◌||◌, ◌&&◌, Option, none, some, List, [], ◌∷◌, ◌++◌, Text,
  same, is_segment, is_blank, all, any, is_empty, length, if◌then◌else◌,
}
use odin_sentinel.Lease.Record.{LeaseRecord, Platform, next_token}
use odin_sentinel.Lease.Directory.{
  Env, Directory, Held, Outcome, ok, refused, raised, refusal, invalid_slot, invalid_holder,
  slot_not_allowed, all_slots_held, skew_ms, is_expired, with_slot_lock, read_allowed_slots,
  names_slot,
}
use odin_sentinel.Lease.Operations.{Ttl, positive_ttl, stamp, store_stamped, with_expiry, with_ttl}

pub data Phase : Type 0 where
  own grant : Phase

-- What one try produced inside its slot's lock.
pub data SlotTry : Type 0 where
  given : LeaseRecord → Bool → Bool → SlotTry
  declined : Option Text → Option Text → SlotTry

pub record AnyResult : Type 0 where
  pub slot : Text
  pub record_after : LeaseRecord
  pub acquired : Bool
  pub took_over : Bool
  pub held : List Held

-- if (attempt.holder !== null && !held.some((entry) => entry.slot === slot)) held.push(…)
unfoldable pub note_held : List Held → Text → Option Text → Option Text → List Held
note_held held slot none until = held
note_held held slot (some h) until =
    if any (λ (e : Held). same e.slot slot) held
    then held
    else held ++ record { slot = slot; holder = h; expires_at = until } ∷ []

-- A pass ends the call, or leaves the held slots that it has met.
pub data Pass : Type 0 where
  done : Outcome AnyResult → Pass
  more : List Held → Pass

module _ {File : Type 0} where
  -- A slot that is free or expired is left for the grant pass; nothing is written here.
  unfoldable pub own_body :
      Bool → Text → LeaseRecord → Directory File → Outcome SlotTry × Directory File
  own_body expired holder r d = elim r.holder [
    | none ↦ (ok (declined none none), d)
    | some h ↦
        if same h holder && not expired
        then (ok (given r false false), d)
        else if expired
        then (ok (declined none none), d)
        else (ok (declined (some h) r.expires_at), d)
  ]

  abbrev pub after_try :
      Text
      → List Held
      → Outcome SlotTry × Directory File
      → (List Held → Directory File → Pass × Directory File)
      → Pass × Directory File
  after_try slot held (ok (given r a t), d) next = (
    done (ok (record { slot = slot; record_after = r; acquired = a; took_over = t; held = held })),
    d,
  )
  after_try slot held (ok (declined h until), d) next = next (note_held held slot h until) d
  after_try slot held (refused c hs, d) next = (done (refused c hs), d)
  after_try slot held (raised, d) next = (done raised, d)

  abbrev pub after_pass :
      Pass × Directory File
      → (List Held → Directory File → Outcome AnyResult × Directory File)
      → Outcome AnyResult × Directory File
  after_pass (done o, d) next = (o, d)
  after_pass (more held, d) next = next held d

  abbrev pub if_all_named :
      Outcome (Option (List Text))
      → List Text
      → Directory File
      → Outcome AnyResult × Directory File
      → Outcome AnyResult × Directory File
  if_all_named (ok allowed) slots d rest =
      if all (λ slot. names_slot allowed slot) slots then rest else (refusal slot_not_allowed, d)
  if_all_named (refused c hs) slots d rest = (refused c hs, d)
  if_all_named raised slots d rest = (raised, d)

module _ {File : Type 0} (p : Platform File) where
  unfoldable pub grant_body :
      Env File
      → Bool
      → Text
      → Text
      → LeaseRecord
      → Directory File
      → Outcome SlotTry × Directory File
  unfolding stamp store_stamped next_token
  grant_body env expired holder expires r d = elim r.holder [
    | none ↦
        store_stamped p env d (stamp p env r (next_token r.token) holder expires)
          (λ next. given next true false)
    | some h ↦
        if expired
        then store_stamped p env d (stamp p env r (next_token r.token) holder expires)
            (λ next. given next true true)
        else if same h holder
        then (ok (given r false false), d)
        else (ok (declined (some h) r.expires_at), d)
  ]

  unfoldable pub try_body :
      Env File → Phase → Text → ℕ → LeaseRecord → Directory File → Outcome SlotTry × Directory File
  unfolding own_body grant_body skew_ms
  try_body env phase holder ttl r d =
      with_expiry (Platform.iso p (env.now + ttl * 1000)) d (λ expires.
        let expired = is_expired p r env.now (skew_ms env.skew) in
        elim phase [
          | own ↦ own_body expired holder r d
          | grant ↦ grant_body env expired holder expires r d
        ])

  -- One pass. The k-th try of the call meets `env k`.
  unfoldable pub pass :
      (ℕ → Env File)
      → ℕ
      → Phase
      → Text
      → ℕ
      → List Text
      → List Held
      → Directory File
      → Pass × Directory File
  unfolding try_body note_held
  pass env k phase holder ttl [] held d = (more held, d)
  pass env k phase holder ttl (slot ∷ slots) held d =
      after_try slot held (with_slot_lock p (env k) d slot (try_body (env k) phase holder ttl))
        (λ held' d'. pass env (k + 1) phase holder ttl slots held' d')

  unfoldable pub two_passes :
      (ℕ → Env File) → Text → ℕ → List Text → Directory File → Outcome AnyResult × Directory File
  unfolding pass
  two_passes env holder ttl slots d = after_pass (pass env 0 own holder ttl slots [] d) (λ held d'.
      after_pass (pass env (length slots) grant holder ttl slots held d')
        (λ held' d''. (refused all_slots_held held', d'')))

  unfoldable pub acquire_any_lease :
      (ℕ → Env File) → Directory File → List Text → Text → Ttl → Outcome AnyResult × Directory File
  unfolding two_passes
  acquire_any_lease env d slots holder ttl =
      if is_empty slots || not (all is_segment slots)
      then (refusal invalid_slot, d)
      else if is_blank holder
      then (refusal invalid_holder, d)
      else with_ttl (positive_ttl ttl) d
          (λ n. if_all_named (read_allowed_slots d.allow) slots d (two_passes env holder n slots d))
