-- ===== src/Registry/Lock/Laws.antt =====
-- src/protocol/event-registry/storage.ts: the lock loops, against what mkdir did.
use odin_sentinel.Base.{
  ℕ, zero, suc, ◌+◌, ◌*◌, ◌≤◌, ◌<◌, ◌≡◌, refl, ◌⊎◌, inl, inr, true, false, Option, none, some, ltb,
  leb, min, max, arith, if◌then◌else◌, Bool-cases, pos, negsuc,
}
use odin_sentinel.Registry.Lock.{
  Mkdir, made, exists, failed, World, IsWorld, Acquisition, acquired, raised, Options, Policy,
  fixed, backoff, lock_policy, at_least, is_given, Number, integer, infinity, minus_infinity, nan,
  upto, IsFinite, AreFinite, default_lock_budget_ms, follow, jittered, next_backoff_delay_ms,
  fixed_loop, backoff_loop, acquire_registry_lock,
}

-- The jitter shortens the delay to a half at most.
jittered_bounds :
    (delay random : ℕ)
    → random < 9007199254740992
    → (delay ≤ 2 * jittered delay random) × (jittered delay random ≤ delay)
unfolding jittered
jittered_bounds delay random h = omega (arith, scaled)
  where
    scaled : delay * random ≤ delay * 9007199254740992
    scaled = grind arith

Mkdir-cases : (m : Mkdir) → (m ≡ made) ⊎ (m ≡ exists) ⊎ (m ≡ failed)
Mkdir-cases made = inl refl
Mkdir-cases exists = inr (inl refl)
Mkdir-cases failed = inr (inr refl)

-- How many attempts a policy allows, and when it gives up.
abbrev pub Allowed : Policy → ℕ → Type 0
Allowed (fixed (upto attempts) retry) k = k ≤ attempts
Allowed policy k = Unit {0}

abbrev pub Exhausted : Policy → ℕ → ℕ → Type 0
Exhausted (fixed (upto attempts) retry) k elapsed = k ≡ attempts
Exhausted (fixed attempts retry) k elapsed = ⊥
Exhausted (backoff (upto budget)) k elapsed = budget ≤ elapsed
Exhausted (backoff budget) k elapsed = ⊥

module _ (w : World) where
  -- Every attempt after `from` and before `limit` found the directory.
  abbrev pub Contended : ℕ → ℕ → Type 0
  Contended from limit = (j : ℕ) → from < j → j < limit → w.mkdir j ≡ exists

  Contended-step :
      (from limit : ℕ)
      → w.mkdir (from + 1) ≡ exists
      → Contended (from + 1) limit
      → Contended from limit
  Contended-step from limit e h j lo hi = elim (Bool-cases (ltb (from + 1) j)) [
    | inl later ↦ h j (ground arith) hi
    | inr first ↦ let same : j ≡ from + 1 = ground arith in rw same e
  ]

  pub data Reports (policy : Policy) (from : ℕ) : Acquisition → Type 0 where
    locked :
        (k e : ℕ)
        → from < k
        → Allowed policy k
        → w.mkdir k ≡ made
        → Contended from k
        → Reports policy from (acquired true k e)
    gave_up :
        (k e : ℕ)
        → from < k
        → Exhausted policy k e
        → Contended from (k + 1)
        → Reports policy from (acquired false k e)
    threw :
        (k : ℕ)
        → from < k
        → Allowed policy k
        → w.mkdir k ≡ failed
        → Contended from k
        → Reports policy from raised

  Reports-step :
      (policy : Policy) (from : ℕ) (a : Acquisition)
      → w.mkdir (from + 1) ≡ exists
      → Reports policy (from + 1) a
      → Reports policy from a
  Reports-step policy from a e (locked k t lt b m c) =
      locked k t (omega arith) b m (Contended-step from k e c)
  Reports-step policy from a e (gave_up k t lt b c) =
      gave_up k t (omega arith) b (Contended-step from (k + 1) e c)
  Reports-step policy from a e (threw k lt b m c) =
      threw k (omega arith) b m (Contended-step from k e c)

  first_only : (from : ℕ) → Contended from (from + 1)
  first_only from j lo hi = absurd (omega arith)

  module _ (valid : IsWorld w) (budget : ℕ) where
    -- Each wait takes a millisecond at least.
    progress :
        (delay attempts elapsed : ℕ)
        → 0 < delay
        → elapsed < budget
        → elapsed
          < w.wake
              (attempts + 1)
              elapsed
              (next_backoff_delay_ms delay (w.random (attempts + 1)) elapsed budget)
    unfolding next_backoff_delay_ms
    progress delay attempts elapsed positive early = omega (
      arith,
      jittered_bounds delay (w.random (attempts + 1)) (valid.bounded (attempts + 1)),
      valid.waits (attempts + 1) elapsed
          (next_backoff_delay_ms delay (w.random (attempts + 1)) elapsed budget),
    )

    backoff_loop-Reports :
        (fuel attempts delay elapsed : ℕ)
        → 0 < delay
        → budget < elapsed + fuel
        → 0 < fuel
        → (a : Acquisition) × (backoff_loop w budget fuel attempts delay elapsed ≡ some a)
          × Reports (backoff (upto budget)) attempts a
    unfolding backoff_loop
    backoff_loop-Reports zero attempts delay elapsed positive enough more = absurd (omega arith)
    backoff_loop-Reports (suc fuel) attempts delay elapsed positive enough more =
        elim (Mkdir-cases (w.mkdir (attempts + 1))) [
          | inl m ↦ (
            acquired true (attempts + 1) elapsed,
            simp (m, backoff_loop),
            locked (attempts + 1) elapsed (omega arith) tt m (first_only attempts),
          )
          | inr (inr m) ↦ (
            raised,
            simp (m, backoff_loop),
            threw (attempts + 1) (omega arith) tt m (first_only attempts),
          )
          | inr (inl m) ↦ elim (Bool-cases (leb budget elapsed)) [
            | inl over ↦ (
              acquired false (attempts + 1) elapsed,
              simp (m, over, backoff_loop),
              gave_up (attempts + 1) elapsed (omega arith) (ground arith)
                  (Contended-step attempts (attempts + 1 + 1) m (first_only (attempts + 1))),
            )
            | inr early ↦
                let ms : ℕ = next_backoff_delay_ms delay (w.random (attempts + 1)) elapsed budget in
                let next : ℕ = w.wake (attempts + 1) elapsed ms in
                let (a, e, reports) =
                  backoff_loop-Reports fuel (attempts + 1) (min 200 (delay * 2)) next (omega arith)
                    (omega (arith, progress delay attempts elapsed positive (ground arith)))
                    (ground arith) in
                (
                  a,
                  simp (m, early, backoff_loop) e,
                  Reports-step (backoff (upto budget)) attempts a m reports,
                )
          ]
        ]

  fixed_loop-Reports :
      (retry left attempts elapsed n : ℕ)
      → attempts + suc left ≡ n
      → Reports
          (fixed (upto n) (upto retry))
          attempts
          (fixed_loop w retry (suc left) attempts elapsed)
  unfolding fixed_loop
  fixed_loop-Reports retry zero attempts elapsed n e = elim (Mkdir-cases (w.mkdir (attempts + 1))) [
    | inl m ↦
        simp (m, fixed_loop)
          (locked (attempts + 1) elapsed (omega arith) (omega arith) m (first_only attempts))
    | inr (inr m) ↦
        simp (m, fixed_loop)
          (threw (attempts + 1) (omega arith) (omega arith) m (first_only attempts))
    | inr (inl m) ↦
        simp (m, fixed_loop)
          (gave_up (attempts + 1) elapsed (omega arith) (omega arith)
            (Contended-step attempts (attempts + 1 + 1) m (first_only (attempts + 1))))
  ]
  fixed_loop-Reports retry (suc left) attempts elapsed n e =
      elim (Mkdir-cases (w.mkdir (attempts + 1))) [
        | inl m ↦
            simp (m, fixed_loop)
              (locked (attempts + 1) elapsed (omega arith) (omega arith) m (first_only attempts))
        | inr (inr m) ↦
            simp (m, fixed_loop)
              (threw (attempts + 1) (omega arith) (omega arith) m (first_only attempts))
        | inr (inl m) ↦
            let next : ℕ =
              (if ltb 0 (suc left) then w.wake (attempts + 1) elapsed retry else elapsed) in
            simp (m, fixed_loop)
              (Reports-step (fixed (upto n) (upto retry)) attempts
                (fixed_loop w retry (suc left) (attempts + 1) next) m
                (fixed_loop-Reports retry left (attempts + 1) next n (omega arith)))
      ]

  fixed_run :
      (retry n elapsed : ℕ)
      → 0 < n
      → Reports (fixed (upto n) (upto retry)) 0 (fixed_loop w retry n 0 elapsed)
  fixed_run retry zero elapsed h = absurd (omega arith)
  fixed_run retry (suc n) elapsed h = fixed_loop-Reports retry n 0 elapsed (suc n) (omega arith)

at_least-finite :
    (low : ℕ) (o : Option Number) (default : ℕ)
    → IsFinite o
    → (n : ℕ) × (at_least low o default ≡ upto n) × (low ≤ n)
unfolding at_least
at_least-finite low none default h = (max low default, refl, omega arith)
at_least-finite low (some (integer (pos n))) default h = (max low n, refl, omega arith)
at_least-finite low (some (integer (negsuc n))) default h = (low, refl, omega arith)
at_least-finite low (some minus_infinity) default h = (low, refl, omega arith)
at_least-finite low (some infinity) default h = absurd h
at_least-finite low (some nan) default h = absurd h

abbrev Ends : World → Policy → Type 0
Ends w policy = (a : Acquisition) × (follow w policy ≡ some a) × Reports w policy 0 a

module _ (w : World) (valid : IsWorld w) (o : Options) (finite : AreFinite o) where
  fixed-Ends : Ends w (fixed (at_least 1 o.max_lock_attempts 50) (at_least 0 o.lock_retry_ms 10))
  unfolding follow
  fixed-Ends =
      let (n, q, positive) = at_least-finite 1 o.max_lock_attempts 50 finite.attempts in
      let (retry, r, _) = at_least-finite 0 o.lock_retry_ms 10 finite.retry in
      rw (q, r) (fixed_loop w retry n 0 0, refl, fixed_run w retry n 0 positive)

  backoff-Ends : Ends w (backoff (at_least 0 o.lock_budget_ms default_lock_budget_ms))
  unfolding follow
  backoff-Ends =
      let (budget, q, _) =
        at_least-finite 0 o.lock_budget_ms default_lock_budget_ms finite.budget in
      rw q (
        backoff_loop-Reports w valid budget (budget + 1) 0 5 0 (omega arith) (omega arith)
          (omega arith))

  lock_policy-Ends : Ends w (lock_policy o)
  unfolding lock_policy
  lock_policy-Ends = elim (Bool-cases (is_given o.max_lock_attempts)) [
    | inl h ↦ simp (h, lock_policy) fixed-Ends
    | inr h ↦ elim (Bool-cases (is_given o.lock_retry_ms)) [
      | inl g ↦ simp (h, g, lock_policy) fixed-Ends
      | inr g ↦ simp (h, g, lock_policy) backoff-Ends
    ]
  ]

-- For lock options that are not given or whole numbers, neither Infinity nor NaN, in every world in
-- which a wait lasts as long as it was asked to by a clock that is not set back, and Math.random() is
-- below 1, the lock loop returns: it reports `locked` only if its last mkdir made the directory, it
-- gives up only when the attempts or the time budget of its policy are used up, it throws only for a
-- mkdir that failed, and in each case every earlier mkdir found the directory.
pub acquire_registry_lock-Reports :
    (w : World)
    → IsWorld w
    → (o : Options) → AreFinite o
    → (a : Acquisition) × (acquire_registry_lock w o ≡ some a) × Reports w (lock_policy o) 0 a
unfolding acquire_registry_lock
acquire_registry_lock-Reports w valid o finite = lock_policy-Ends w valid o finite
