-- ===== src/Lease/Calls.antt =====
-- src/protocol/lease/store.ts: histories of calls on one lease directory, and the fencing contract
-- over them.
use odin_sentinel.Base.{
  ℕ, ◌+◌, inl, inr, Bool, true, false, not, ◌||◌, Option, none, some, List, [], ◌∷◌, Text,
  is_segment, is_blank, all, is_empty, length, if◌then◌else◌, Bool-cases,
}
use odin_sentinel.Lease.Record.{Platform}
use odin_sentinel.Lease.Directory.{
  Env, Directory, Held, Outcome, ok, refused, raised, refusal, invalid_slot, invalid_holder,
  all_slots_held, with_allowed_slot_lock, read_allowed_slots, names_slot,
}
use odin_sentinel.Lease.Codec.{IsPlatform}
use odin_sentinel.Lease.Operations.{
  Ttl, positive_ttl, with_ttl, acquire_lease, renew_lease, release_lease, acquire_body, renew_body,
  release_body,
}
use odin_sentinel.Lease.AnyOf.{
  Phase, own, grant, SlotTry, given, declined, Pass, done, more, AnyResult, try_body, note_held,
  after_try, after_pass, if_all_named, pass, two_passes, acquire_any_lease,
}
use odin_sentinel.Lease.Effect.{
  acquire_body-Effect, renew_body-Effect, release_body-Effect, try_body-Effect,
}
use odin_sentinel.Lease.Fencing.{
  Evolves, Evolves-refl, Evolves-trans, Relies, with_slot_lock-Evolves,
  with_allowed_slot_lock-Evolves,
}

-- The calls that may write.
pub data Call : Type 0 where
  acquires : Text → Text → Ttl → Call
  acquires_any : List Text → Text → Ttl → Call
  renews : Text → Text → ℕ → Ttl → Call
  releases : Text → Text → ℕ → Call

module _ {File : Type 0} (p : Platform File) where
  -- The directory after a call; the k-th locked section of the call meets `env k`.
  unfoldable pub after_call : (ℕ → Env File) → Call → Directory File → Directory File
  after_call env (acquires slot holder ttl) d = (acquire_lease p (env 0) d slot holder ttl).1
  after_call env (acquires_any slots holder ttl) d = (acquire_any_lease p env d slots holder ttl).1
  after_call env (renews slot holder token ttl) d =
      (renew_lease p (env 0) d slot holder token ttl).1
  after_call env (releases slot holder token) d = (release_lease p (env 0) d slot holder token).1

  unfoldable pub after_calls : List ((ℕ → Env File) × Call) → Directory File → Directory File
  unfolding after_call
  after_calls [] d = d
  after_calls ((env, c) ∷ cs) d = after_calls cs (after_call env c d)

module _ {File A : Type 0} (p : Platform File) (d : Directory File) where
  -- A result that leaves a directory which keeps the contract.
  record Keeps (r : A × Directory File) : Type 0 where
    kept : Evolves p d r.1

  -- A guard that refuses leaves the directory as it was.
  guard-Keeps :
      (b : Bool) (o : A) (rest : A × Directory File)
      → Keeps rest
      → Keeps (if b then (o, d) else rest)
  guard-Keeps true o rest e = record { kept = Evolves-refl p d }
  guard-Keeps false o rest e = e

module _ {File A : Type 0} (p : Platform File) (d : Directory File) where
  with_ttl-Keeps :
      (o : Option ℕ) (f : ℕ → Outcome A × Directory File)
      → ((n : ℕ) → Keeps p d (f n))
      → Keeps p d (with_ttl o d f)
  with_ttl-Keeps none f e = record { kept = Evolves-refl p d }
  with_ttl-Keeps (some n) f e = e n

module _ {File : Type 0} (p : Platform File) (d : Directory File) where
  after_try-Keeps :
      (slot : Text) (held : List Held) (tried : Outcome SlotTry × Directory File)
      (next : List Held → Directory File → Pass × Directory File)
      → Evolves p d tried.1
      → ((held' : List Held) (d' : Directory File) → Keeps p d' (next held' d'))
      → Keeps p d (after_try slot held tried next)
  after_try-Keeps slot held (ok (given r a t), d') next e f = record { kept = e }
  after_try-Keeps slot held (ok (declined h u), d') next e f = record {
    kept = Evolves-trans p d d' _ e (f (note_held held slot h u) d').kept;
  }
  after_try-Keeps slot held (refused c hs, d') next e f = record { kept = e }
  after_try-Keeps slot held (raised, d') next e f = record { kept = e }

  after_pass-Keeps :
      (passed : Pass × Directory File)
      (next : List Held → Directory File → Outcome AnyResult × Directory File)
      → Keeps p d passed
      → ((held : List Held) (d' : Directory File) → Keeps p d' (next held d'))
      → Keeps p d (after_pass passed next)
  after_pass-Keeps (done o, d') next e f = record { kept = e.kept }
  after_pass-Keeps (more held, d') next e f = record {
    kept = Evolves-trans p d d' _ e.kept (f held d').kept;
  }

  if_all_named-Keeps :
      (listed : Outcome (Option (List Text))) (slots : List Text)
      (rest : Outcome AnyResult × Directory File)
      → Keeps p d rest
      → Keeps p d (if_all_named listed slots d rest)
  if_all_named-Keeps (ok allowed) slots rest e =
      elim (Bool-cases (all (λ slot. names_slot allowed slot) slots)) [
        | inl named ↦ simp named e
        | inr denied ↦ simp denied (record { kept = Evolves-refl p d })
      ]
  if_all_named-Keeps (refused c hs) slots rest e = record { kept = Evolves-refl p d }
  if_all_named-Keeps raised slots rest e = record { kept = Evolves-refl p d }

module _ {File : Type 0} (p : Platform File) (valid : IsPlatform p) where
  pass-Keeps :
      (env : ℕ → Env File) (k : ℕ) (phase : Phase) (holder : Text) (ttl : ℕ) (slots : List Text)
      (held : List Held) (d : Directory File)
      → ((j : ℕ) → Relies p (env j))
      → Keeps p d (pass p env k phase holder ttl slots held d)
  unfolding pass
  pass-Keeps env k phase holder ttl [] held d rely = record { kept = Evolves-refl p d }
  pass-Keeps env k phase holder ttl (slot ∷ slots) held d rely =
      after_try-Keeps p d slot held _ _
        (with_slot_lock-Evolves p valid slot (env k) d (try_body p (env k) phase holder ttl)
          (rely k) (try_body-Effect p valid (env k) phase holder ttl))
        (λ held' d'. pass-Keeps env (k + 1) phase holder ttl slots held' d' rely)

  two_passes-Keeps :
      (env : ℕ → Env File) (d : Directory File) (slots : List Text) (holder : Text) (ttl : ℕ)
      → ((j : ℕ) → Relies p (env j))
      → Keeps p d (two_passes p env holder ttl slots d)
  unfolding two_passes
  two_passes-Keeps env d slots holder ttl rely =
      after_pass-Keeps p d (pass p env 0 own holder ttl slots [] d) _
        (pass-Keeps env 0 own holder ttl slots [] d rely)
        (λ held d'.
          after_pass-Keeps p d' (pass p env (length slots) grant holder ttl slots held d')
            (λ held' d''. (refused all_slots_held held', d''))
            (pass-Keeps env (length slots) grant holder ttl slots held d' rely)
            (λ held' d''. record { kept = Evolves-refl p d'' }))

  acquire_any-Keeps :
      (env : ℕ → Env File) (d : Directory File) (slots : List Text) (holder : Text) (ttl : Ttl)
      → ((j : ℕ) → Relies p (env j))
      → Keeps p d (acquire_any_lease p env d slots holder ttl)
  unfolding acquire_any_lease
  acquire_any-Keeps env d slots holder ttl rely =
      guard-Keeps p d (is_empty slots || not (all is_segment slots)) (refusal invalid_slot) _ (
        guard-Keeps p d (is_blank holder) (refusal invalid_holder) _ (
          with_ttl-Keeps p d (positive_ttl ttl) _ (λ n.
            if_all_named-Keeps p d (read_allowed_slots d.allow) slots _
              (two_passes-Keeps env d slots holder n rely))))

  acquire-Keeps :
      (env : Env File) (d : Directory File) (slot holder : Text) (ttl : Ttl)
      → Relies p env
      → Keeps p d (acquire_lease p env d slot holder ttl)
  unfolding acquire_lease
  acquire-Keeps env d slot holder ttl rely =
      guard-Keeps p d (not (is_segment slot)) (refusal invalid_slot) _ (
        guard-Keeps p d (is_blank holder) (refusal invalid_holder) _ (
          with_ttl-Keeps p d (positive_ttl ttl)
            (λ n. with_allowed_slot_lock p env d slot (acquire_body p env holder n))
            (λ n. record {
              kept =
                  with_allowed_slot_lock-Evolves p valid slot env d (acquire_body p env holder n)
                    rely (acquire_body-Effect p valid env holder n);
            })))

  renew-Keeps :
      (env : Env File) (d : Directory File) (slot holder : Text) (token : ℕ) (ttl : Ttl)
      → Relies p env
      → Keeps p d (renew_lease p env d slot holder token ttl)
  unfolding renew_lease
  renew-Keeps env d slot holder token ttl rely =
      guard-Keeps p d (not (is_segment slot)) (refusal invalid_slot) _ (
        with_ttl-Keeps p d (positive_ttl ttl)
          (λ n. with_allowed_slot_lock p env d slot (renew_body p env holder token n))
          (λ n. record {
            kept =
                with_allowed_slot_lock-Evolves p valid slot env d (renew_body p env holder token n)
                  rely (renew_body-Effect p valid env holder token n);
          }))

  release-Keeps :
      (env : Env File) (d : Directory File) (slot holder : Text) (token : ℕ)
      → Relies p env
      → Keeps p d (release_lease p env d slot holder token)
  unfolding release_lease
  release-Keeps env d slot holder token rely =
      guard-Keeps p d (not (is_segment slot)) (refusal invalid_slot) _ (record {
        kept =
            with_allowed_slot_lock-Evolves p valid slot env d (release_body p env holder token) rely
              (release_body-Effect p valid env holder token);
      })

  -- One call keeps the fencing contract of every slot.
  after_call-Evolves :
      (env : ℕ → Env File) (c : Call) (d : Directory File)
      → ((j : ℕ) → Relies p (env j))
      → Evolves p d (after_call p env c d)
  unfolding after_call
  after_call-Evolves env (acquires slot holder ttl) d rely =
      (acquire-Keeps (env 0) d slot holder ttl (rely 0)).kept
  after_call-Evolves env (acquires_any slots holder ttl) d rely =
      (acquire_any-Keeps env d slots holder ttl rely).kept
  after_call-Evolves env (renews slot holder token ttl) d rely =
      (renew-Keeps (env 0) d slot holder token ttl (rely 0)).kept
  after_call-Evolves env (releases slot holder token) d rely =
      (release-Keeps (env 0) d slot holder token (rely 0)).kept

  -- Every environment of a history meets the rely condition.
  abbrev pub AllRely : List ((ℕ → Env File) × Call) → Type 0
  AllRely [] = Unit {0}
  AllRely ((env, c) ∷ cs) = ((j : ℕ) → Relies p (env j)) × AllRely cs

  -- Whatever calls are made on a lease directory, in whatever order, each slot with a readable
  -- record keeps one, its token never falls, and while a token below 2^53 stays its holder is the
  -- same or gone; provided that each write that another process makes during a call keeps the same contract.
  pub after_calls-Evolves :
      (cs : List ((ℕ → Env File) × Call)) (d : Directory File)
      → AllRely cs
      → Evolves p d (after_calls p cs d)
  unfolding after_calls
  after_calls-Evolves [] d rely = Evolves-refl p d
  after_calls-Evolves ((env, c) ∷ cs) d (now, later) =
      Evolves-trans p d (after_call p env c d) _ (after_call-Evolves env c d now)
        (after_calls-Evolves cs (after_call p env c d) later)
