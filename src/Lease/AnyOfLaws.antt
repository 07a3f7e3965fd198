-- ===== src/Lease/AnyOfLaws.antt =====
-- src/protocol/lease/store.ts: what acquireAnyLease says when it grants, and when nothing can be
-- granted.
use mathlib.Core.Option.{none-ne-some}
use odin_sentinel.Base.{
  ℕ, ◌+◌, ◌*◌, ◌≡◌, refl, inl, inr, Bool, true, false, ◌||◌, Option, none, some, List, [], ◌∷◌,
  ◌++◌, Text, same, same_self, any, All, arith, Option-cases, Bool-cases,
}
use odin_sentinel.Lease.Record.{LeaseRecord, Platform, next_token}
use odin_sentinel.Lease.Directory.{
  Env, Directory, Held, Outcome, ok, refused, raised, skew_ms, is_expired, with_slot_lock,
}
use odin_sentinel.Lease.Operations.{stamp, store_stamped}
use odin_sentinel.Lease.Renewal.{with_slot_lock-Ran}
use odin_sentinel.Lease.AnyOf.{
  grant, SlotTry, given, declined, Pass, more, try_body, note_held, after_try, pass, grant_body,
}

-- The slot is one of those reported.
abbrev pub IsReported : List Held → Text → Type 0
IsReported held slot = any (λ (e : Held). same e.slot slot) held ≡ true

any-append : (f : Held → Bool) (xs ys : List Held) → any f (xs ++ ys) ≡ (any f xs || any f ys)
any-append f [] ys = refl
any-append f (x ∷ xs) ys = ground (arith, any-append f xs ys)

note_held-keeps :
    (held : List Held) (slot other : Text) (h until : Option Text)
    → IsReported held other
    → IsReported (note_held held slot h until) other
unfolding note_held
note_held-keeps held slot other none until k = k
note_held-keeps held slot other (some h) until k = ground (
  arith,
  any-append (λ (e : Held). same e.slot other) held
      (record { slot = slot; holder = h; expires_at = until } ∷ []),
)

note_held-adds :
    (held : List Held) (slot h : Text) (until : Option Text)
    → IsReported (note_held held slot (some h) until) slot
unfolding note_held
note_held-adds held slot h until = ground (
  arith,
  same_self slot,
  any-append (λ (e : Held). same e.slot slot) held
      (record { slot = slot; holder = h; expires_at = until } ∷ []),
)

module _ {File : Type 0} (p : Platform File) where
  store_stamped-given :
      (env : Env File) (d : Directory File) (o : Option LeaseRecord) (a t : Bool)
      (h until : Option Text)
      → (store_stamped p env d o (λ next. given next a t)).0 ≡ ok (declined h until)
      → ⊥
  unfolding store_stamped
  store_stamped-given env d none a t h until q = ground arith
  store_stamped-given env d (some next) a t h until q = ground arith

  -- The grant pass declines only a slot that somebody holds.
  grant_body-declined :
      (env : Env File) (expired : Bool) (holder expires : Text) (r : LeaseRecord)
      (d : Directory File) (h until : Option Text)
      → (grant_body p env expired holder expires r d).0 ≡ ok (declined h until)
      → (name : Text) × (h ≡ some name)
  unfolding grant_body
  grant_body-declined env expired holder expires r d h until q = elim (Option-cases r.holder) [
    | inl free ↦ absurd (
        store_stamped-given env d (stamp p env r (next_token r.token) holder expires) true false h
          until (simp (grant_body, free) at q))
    | inr (name, taken) ↦ elim (Bool-cases expired) [
      | inl late ↦ absurd (
          store_stamped-given env d (stamp p env r (next_token r.token) holder expires) true true h
            until (simp (grant_body, taken, late) at q))
      | inr live ↦ (name, ground arith)
    ]
  ]

  try_body-declined :
      (env : Env File) (holder : Text) (ttl : ℕ) (r : LeaseRecord) (d : Directory File)
      (h until : Option Text)
      → (try_body p env grant holder ttl r d).0 ≡ ok (declined h until)
      → (name : Text) × (h ≡ some name)
  unfolding try_body
  try_body-declined env holder ttl r d h until q =
      elim (Option-cases (Platform.iso p (env.now + ttl * 1000))) [
        | inl bad ↦ ground arith
        | inr (expires, good) ↦
            grant_body-declined env (is_expired p r env.now (skew_ms env.skew)) holder expires r d h
              until (simp (try_body, good) at q)
      ]

  -- What the tries say so far: everything already reported, and each slot that was declined.
  after_try-reports :
      (slot : Text) (slots : List Text) (held held' : List Held)
      (tried : Outcome SlotTry × Directory File)
      (next : List Held → Directory File → Pass × Directory File)
      → ((h until : Option Text)
          → tried.0 ≡ ok (declined h until)
          → (name : Text) × (h ≡ some name))
      → ((before : List Held) (d : Directory File)
          → (next before d).0 ≡ more held'
          → All (IsReported held') slots
            × ((other : Text) → IsReported before other → IsReported held' other))
      → (after_try slot held tried next).0 ≡ more held'
      → (IsReported held' slot × All (IsReported held') slots)
        × ((other : Text) → IsReported held other → IsReported held' other)
  after_try-reports slot slots held held' (ok (given r a t), d) next names rest q = ground arith
  after_try-reports slot slots held held' (refused c hs, d) next names rest q = ground arith
  after_try-reports slot slots held held' (raised, d) next names rest q = ground arith
  after_try-reports slot slots held held' (ok (declined none until), d) next names rest q =
      absurd (none-ne-some _ (names none until refl).1)
  after_try-reports slot slots held held' (ok (declined (some h) until), d) next names rest q =
      let (later, keeps) = rest (note_held held slot (some h) until) d q in
      (
        (keeps slot (note_held-adds held slot h until), later),
        λ other k. keeps other (note_held-keeps held slot other (some h) until k),
      )

  -- If the grant pass ends without a grant, it reports every slot that it tried as held by
  -- somebody, and still reports what was reported before.
  pub pass-reports :
      (env : ℕ → Env File) (k : ℕ) (holder : Text) (ttl : ℕ) (slots : List Text)
      (held held' : List Held) (d : Directory File)
      → (pass p env k grant holder ttl slots held d).0 ≡ more held'
      → All (IsReported held') slots
        × ((other : Text) → IsReported held other → IsReported held' other)
  unfolding pass
  pass-reports env k holder ttl [] held held' d q = (tt, λ other k. ground arith)
  pass-reports env k holder ttl (slot ∷ slots) held held' d q =
      after_try-reports slot slots held held'
        (with_slot_lock p (env k) d slot (try_body p (env k) grant holder ttl)) _
        (λ h until tried.
          let (r, at, ran) =
            with_slot_lock-Ran p (env k) d slot (try_body p (env k) grant holder ttl)
              (declined h until) tried in
          try_body-declined (env k) holder ttl r ((env k).meanwhile d) h until ran)
        (λ before d'. pass-reports env (k + 1) holder ttl slots before held' d') q
