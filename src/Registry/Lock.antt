-- ===== src/Registry/Lock.antt =====
-- src/protocol/event-registry/storage.ts: the mkdir lock, in its fixed-attempt and its backoff
-- mode. The asynchronous twin makes the same steps; only its waits differ: a timer of Infinity or NaN
-- milliseconds fires at once.
pub mod Laws
pub mod Examples
use odin_sentinel.Base.{
  ℕ, zero, suc, ◌+◌, ◌-◌, ◌*◌, ◌/◌, ◌≤◌, ◌<◌, ◌≡◌, refl, ◌⊎◌, inl, inr, Bool, true, false, Option,
  none, some, ℤ, pos, negsuc, ltb, leb, min, max, arith, if◌then◌else◌, Bool-cases,
}

-- What mkdirSync does: it makes the directory, finds it there (EEXIST), or fails otherwise.
pub data Mkdir : Type 0 where
  made exists failed : Mkdir

-- A number of JavaScript that is no fraction.
pub data Number : Type 0 where
  integer : ℤ → Number
  infinity minus_infinity nan : Number

pub record Options : Type 0 where
  pub max_lock_attempts : Option Number
  pub lock_retry_ms : Option Number
  pub lock_budget_ms : Option Number

-- A bound: a number of its own, Infinity, or NaN, which no comparison holds of.
pub data Limit : Type 0 where
  upto : ℕ → Limit
  unlimited unordered : Limit

pub data Policy : Type 0 where
  fixed : Limit → Limit → Policy
  backoff : Limit → Policy

abbrev pub default_lock_budget_ms : ℕ
default_lock_budget_ms = 10_000

-- Math.max(low, option ?? default)
unfoldable pub at_least : ℕ → Option Number → ℕ → Limit
at_least low none default = upto (max low default)
at_least low (some (integer (pos n))) default = upto (max low n)
at_least low (some (integer (negsuc n))) default = upto low
at_least low (some infinity) default = unlimited
at_least low (some minus_infinity) default = upto low
at_least low (some nan) default = unordered

-- n < limit
unfoldable pub is_below : ℕ → Limit → Bool
is_below n (upto m) = ltb n m
is_below n unlimited = true
is_below n unordered = false

-- n > limit
unfoldable pub exceeds : ℕ → Limit → Bool
exceeds n (upto m) = ltb m n
exceeds n unlimited = false
exceeds n unordered = false

unfoldable pub is_given : Option Number → Bool
is_given none = false
is_given (some n) = true

unfoldable pub lock_policy : Options → Policy
unfolding at_least is_given
lock_policy o =
    if is_given o.max_lock_attempts
    then fixed (at_least 1 o.max_lock_attempts 50) (at_least 0 o.lock_retry_ms 10)
    else if is_given o.lock_retry_ms
    then fixed (at_least 1 o.max_lock_attempts 50) (at_least 0 o.lock_retry_ms 10)
    else backoff (at_least 0 o.lock_budget_ms default_lock_budget_ms)

-- What the loop meets: the k-th mkdir, the k-th Math.random() in units of 2^-53, and the elapsed
-- time that the clock shows after a wait of so many milliseconds. A loop that has no bound of its own
-- is followed for `patience` rounds.
pub record World : Type 0 where
  pub mkdir : ℕ → Mkdir
  pub random : ℕ → ℕ
  pub wake : ℕ → ℕ → ℕ → ℕ
  pub patience : ℕ

pub data Acquisition : Type 0 where
  acquired : Bool → ℕ → ℕ → Acquisition
  raised : Acquisition

-- Math.round(delayMs * (0.5 + Math.random() * 0.5))
unfoldable pub jittered : ℕ → ℕ → ℕ
jittered delay random =
    (2 * (delay * (9007199254740992 + random)) + 18014398509481984) / 36028797018963968

unfoldable pub next_backoff_delay_ms : ℕ → ℕ → ℕ → ℕ → ℕ
unfolding jittered
next_backoff_delay_ms delay random elapsed budget = min (jittered delay random) (budget - elapsed)

-- The fixed mode, with `left` attempts to make: no wait after the last.
unfoldable pub fixed_loop : World → ℕ → ℕ → ℕ → ℕ → Acquisition
fixed_loop w retry zero attempts elapsed = acquired false attempts elapsed
fixed_loop w retry (suc left) attempts elapsed = elim (w.mkdir (attempts + 1)) [
  | made ↦ acquired true (attempts + 1) elapsed
  | failed ↦ raised
  | exists ↦
      fixed_loop w retry left (attempts + 1)
        (if ltb 0 left then w.wake (attempts + 1) elapsed retry else elapsed)
]

-- The backoff mode; `none` is fuel that ran out.
unfoldable pub backoff_loop : World → ℕ → ℕ → ℕ → ℕ → ℕ → Option Acquisition
unfolding next_backoff_delay_ms
backoff_loop w budget zero attempts delay elapsed = none
backoff_loop w budget (suc fuel) attempts delay elapsed = elim (w.mkdir (attempts + 1)) [
  | made ↦ some (acquired true (attempts + 1) elapsed)
  | failed ↦ some raised
  | exists ↦ elim (leb budget elapsed) [
    | true ↦ some (acquired false (attempts + 1) elapsed)
    | false ↦ backoff_loop w budget fuel (attempts + 1) (min 200 (delay * 2)) (
        w.wake (attempts + 1) elapsed
          (next_backoff_delay_ms delay (w.random (attempts + 1)) elapsed budget))
  ]
]

-- sleepSync: the elapsed time after it. Atomics.wait takes NaN for Infinity, and does not return.
unfoldable pub sleep : World → ℕ → ℕ → Limit → Option ℕ
sleep w k elapsed (upto ms) = some (w.wake k elapsed ms)
sleep w k elapsed unlimited = none
sleep w k elapsed unordered = none

-- The fixed mode where the attempts or the interval are Infinity or NaN.
unfoldable pub open_fixed_loop : World → Limit → Limit → ℕ → ℕ → ℕ → Option Acquisition
unfolding is_below sleep
open_fixed_loop w most retry zero attempts elapsed = none
open_fixed_loop w most retry (suc fuel) attempts elapsed = elim (is_below attempts most) [
  | false ↦ some (acquired false attempts elapsed)
  | true ↦ elim (w.mkdir (attempts + 1)) [
    | made ↦ some (acquired true (attempts + 1) elapsed)
    | failed ↦ some raised
    | exists ↦
        elim (if is_below (attempts + 1) most
          then sleep w (attempts + 1) elapsed retry
          else some elapsed) [
            | none ↦ none
            | some later ↦ open_fixed_loop w most retry fuel (attempts + 1) later
          ]
  ]
]

-- The backoff mode where the budget is Infinity, which never ends a wait, or NaN, for which the first
-- wait is one of NaN milliseconds.
unfoldable pub open_backoff_loop : World → Limit → ℕ → ℕ → ℕ → ℕ → Option Acquisition
unfolding jittered sleep
open_backoff_loop w budget zero attempts delay elapsed = none
open_backoff_loop w budget (suc fuel) attempts delay elapsed = elim (w.mkdir (attempts + 1)) [
  | made ↦ some (acquired true (attempts + 1) elapsed)
  | failed ↦ some raised
  | exists ↦
      elim (sleep w (attempts + 1) elapsed (elim budget [
        | unordered ↦ unordered
        | unlimited ↦ upto (jittered delay (w.random (attempts + 1)))
        | upto ms ↦ upto (jittered delay (w.random (attempts + 1)))
      ])) [
        | none ↦ none
        | some later ↦ open_backoff_loop w budget fuel (attempts + 1) (min 200 (delay * 2)) later
      ]
]

-- Each wait in the backoff mode takes a millisecond at least, so a finite budget bounds the rounds.
unfoldable pub follow : World → Policy → Option Acquisition
unfolding fixed_loop backoff_loop open_fixed_loop open_backoff_loop
follow w (fixed (upto attempts) (upto retry)) = some (fixed_loop w retry attempts 0 0)
follow w (fixed attempts retry) = open_fixed_loop w attempts retry w.patience 0 0
follow w (backoff (upto budget)) = backoff_loop w budget (budget + 1) 0 5 0
follow w (backoff budget) = open_backoff_loop w budget w.patience 0 5 0

unfoldable pub acquire_registry_lock : World → Options → Option Acquisition
unfolding follow lock_policy
acquire_registry_lock w o = follow w (lock_policy o)

-- What the module relies on: a wait lasts as long as it was asked to, by a clock that is not set back
-- meanwhile, and Math.random() < 1.
pub record IsWorld (w : World) : Type 0 where
  pub waits : (k elapsed ms : ℕ) → elapsed + ms ≤ w.wake k elapsed ms
  pub bounded : (k : ℕ) → w.random k < 9007199254740992

-- An option that is not given, or neither Infinity nor NaN.
abbrev pub IsFinite : Option Number → Type 0
IsFinite (some infinity) = ⊥
IsFinite (some nan) = ⊥
IsFinite o = Unit {0}

pub record AreFinite (o : Options) : Type 0 where
  pub attempts : IsFinite o.max_lock_attempts
  pub retry : IsFinite o.lock_retry_ms
  pub budget : IsFinite o.lock_budget_ms
