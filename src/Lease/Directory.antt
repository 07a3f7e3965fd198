-- ===== src/Lease/Directory.antt =====
-- src/protocol/lease/store.ts: the lease directory, its allow-list, reading and writing a record,
-- and the section that runs under a slot's lock.
use odin_sentinel.Base.{
  ℕ, ◌+◌, ◌≡◌, refl, ◌⊎◌, inl, inr, Bool, true, false, not, ◌||◌, Option, none, some, List, [], ◌∷◌,
  Text, text, same, trim, starts_with, split, is_segment, ℤ, pos, negsuc, leb, any, is_empty,
  if◌then◌else◌, ◌>>=◌,
}
use odin_sentinel.Lease.Record.{LeaseRecord, Platform, empty_record, to_json, as_record}

pub data Code : Type 0 where
  invalid_slot invalid_holder invalid_ttl lease_dir_unavailable lock_unavailable slot_held : Code
  not_holder stale_token lease_expired lease_missing lease_corrupt slot_not_allowed : Code
  slots_allow_invalid all_slots_held : Code

-- Who holds a requested slot, and until when.
pub record Held : Type 0 where
  pub slot : Text
  pub holder : Text
  pub expires_at : Option Text

-- LeaseResult, and an exception that leaves the call. `slots` is the list of `all_slots_held`.
pub data Outcome (A : Type 0) : Type 0 where
  ok : A → Outcome A
  refused : Code → List Held → Outcome A
  raised : Outcome A

abbrev pub refusal : {A : Type 0} → Code → Outcome A
refusal c = refused c []

abbrev pub and_then : {A B : Type 0} → Outcome A → (A → Outcome B) → Outcome B
and_then (ok a) f = f a
and_then (refused c hs) f = refused c hs
and_then raised f = raised

pub Outcome-cases :
    {A : Type 0} (o : Outcome A)
    → ((a : A) × (o ≡ ok a)) ⊎ ((c : Code) × (hs : List Held) × (o ≡ refused c hs)) ⊎ (o ≡ raised)
Outcome-cases (ok a) = inl (a, refl)
Outcome-cases (refused c hs) = inr (inl (c, hs, refl))
Outcome-cases raised = inr (inr refl)

-- slots.allow: absent, one that readFileSync refuses, or a text.
pub data AllowFile : Type 0 where
  absent unreadable : AllowFile
  listed : Text → AllowFile

-- The lease directory: the allow-list and each slot's record file.
pub record Directory (File : Type 0) : Type 0 where
  pub allow : AllowFile
  pub lease : Text → Option File

pub data Lock : Type 0 where
  granted busy fault : Lock

pub Lock-cases : (l : Lock) → (l ≡ granted) ⊎ (l ≡ busy) ⊎ (l ≡ fault)
Lock-cases granted = inl refl
Lock-cases busy = inr (inl refl)
Lock-cases fault = inr (inr refl)

-- What a call meets outside the module: the clock, the options, the outcome of mkdirSync, of
-- acquireRegistryLock and of the write, and what other processes do while the call waits.
pub record Env (File : Type 0) : Type 0 where
  pub now : ℕ
  pub skew : Option ℤ
  pub mkdir_fails : Bool
  pub lock : Lock
  pub write_fails : Bool
  pub meanwhile : Directory File → Directory File

-- Math.max(0, options.skewMs ?? DEFAULT_CLOCK_SKEW_MS)
unfoldable pub skew_ms : Option ℤ → ℕ
skew_ms none = 2000
skew_ms (some (pos n)) = n
skew_ms (some (negsuc n)) = 0

unfoldable pub parse_allowed : List Text → Outcome (List Text)
parse_allowed [] = ok []
parse_allowed (raw ∷ rest) =
    let line = trim raw in
    let others = parse_allowed rest in
    if is_empty line || starts_with line (text "#")
    then others
    else if not (is_segment line)
    then refusal slots_allow_invalid
    else and_then others λ names. ok (line ∷ names)

-- An absent file restricts nothing.
unfoldable pub read_allowed_slots : AllowFile → Outcome (Option (List Text))
unfolding parse_allowed split
read_allowed_slots absent = ok none
read_allowed_slots unreadable = refusal slots_allow_invalid
read_allowed_slots (listed t) = and_then (parse_allowed (split 10 t)) λ names. ok (some names)

-- allowed === null || allowed.has(slot)
unfoldable pub names_slot : Option (List Text) → Text → Bool
names_slot none slot = true
names_slot (some names) slot = any (λ name. same name slot) names

unfoldable pub ensure_slot_allowed : AllowFile → Text → Outcome (Unit {0})
ensure_slot_allowed allow slot =
    and_then (read_allowed_slots allow)
      λ allowed. if names_slot allowed slot then ok tt else refusal slot_not_allowed

-- What runs under a slot's lock, on the record read there.
abbrev pub Body : Type 0 → Type 0 → Type 0
Body File A = LeaseRecord → Directory File → Outcome A × Directory File

module _ {File A : Type 0} where
  abbrev pub on_record :
      Outcome LeaseRecord → Directory File → Body File A → Outcome A × Directory File
  on_record (ok r) d body = body r d
  on_record (refused c hs) d body = (refused c hs, d)
  on_record raised d body = (raised, d)

  abbrev pub if_allowed :
      Outcome (Unit {0}) → Directory File → Outcome A × Directory File → Outcome A × Directory File
  if_allowed (ok _) d rest = rest
  if_allowed (refused c hs) d rest = (refused c hs, d)
  if_allowed raised d rest = (raised, d)

module _ {File : Type 0} (p : Platform File) where
  unfoldable pub decode : Text → Option File → Option LeaseRecord
  decode slot none = some (empty_record slot)
  decode slot (some file) = Platform.json_parse p file >>= as_record p slot

  abbrev pub decoded : Option LeaseRecord → Outcome LeaseRecord
  decoded none = refusal lease_corrupt
  decoded (some r) = ok r

  unfoldable pub read_lease : Directory File → Text → Outcome LeaseRecord
  read_lease d slot =
      if not (is_segment slot)
      then refusal invalid_slot
      else and_then (ensure_slot_allowed d.allow slot) λ _. decoded (decode slot (d.lease slot))

  -- The rename makes the new record the slot's file.
  unfoldable pub write_lease : Directory File → LeaseRecord → Directory File
  write_lease d r = record d {
    lease = λ s. if same r.slot s then some (Platform.json_text p (to_json r)) else d.lease s;
  }

  unfoldable pub persist :
      {A : Type 0} → Env File → Directory File → LeaseRecord → A → Outcome A × Directory File
  persist env d r extra = if env.write_fails then (raised, d) else (ok extra, write_lease d r)

  unfoldable pub is_expired : LeaseRecord → ℕ → ℕ → Bool
  is_expired r at skew = elim r.holder [
    | none ↦ false
    | some h ↦ elim r.expires_at [
      | none ↦ false
      | some e ↦ elim (Platform.date_parse p e) [ none ↦ true | some ms ↦ leb (ms + skew) at ]
    ]
  ]

  -- The lock is released whatever the body does, so the next call finds it free.
  unfoldable pub with_slot_lock :
      {A : Type 0} → Env File → Directory File → Text → Body File A → Outcome A × Directory File
  with_slot_lock env d slot body =
      if env.mkdir_fails
      then (refusal lease_dir_unavailable, d)
      else let d' = env.meanwhile d in
        elim env.lock [
          | granted ↦ on_record (read_lease d' slot) d' body
          | busy ↦ (refusal lock_unavailable, d')
          | fault ↦ (raised, d')
        ]

  unfoldable pub with_allowed_slot_lock :
      {A : Type 0} → Env File → Directory File → Text → Body File A → Outcome A × Directory File
  with_allowed_slot_lock env d slot body =
      if_allowed (ensure_slot_allowed d.allow slot) d (with_slot_lock env d slot body)
