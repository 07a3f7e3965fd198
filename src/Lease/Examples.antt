-- ===== src/Lease/Examples.antt =====
-- src/protocol/lease/store.ts: a platform on which the theorems on leases are applied, and runs.
use odin_sentinel.Base.{
  ℕ, suc, ◌≡◌, ◌≢◌, refl, inl, inr, Bool, true, false, Option, none, some, List, [], ◌∷◌, Text,
  text, Json, subst, pos, arith, is_segment, is_blank, ◌+◌, ◌*◌, ℤ, All,
}
use mathlib.Core.Option.{some-injective}
use odin_sentinel.Lease.Record.{LeaseRecord, Platform, empty_record, to_json, as_record}
use odin_sentinel.Lease.Directory.{
  Env, Directory, absent, granted, ok, decode, read_lease, is_expired, ensure_slot_allowed, skew_ms,
  Held, Code,
}
use odin_sentinel.Lease.Codec.{IsPlatform, as_record-to_json}
use odin_sentinel.Lease.Operations.{
  Ttl, seconds, acquire_lease, renew_lease, fence_action, superseded, positive_ttl,
}
use odin_sentinel.Lease.AnyOf.{grant, pass, more}
use odin_sentinel.Lease.Fencing.{Evolves, Evolves-refl, Relies}
use odin_sentinel.Lease.Calls.{Call, acquires, renews, after_calls, after_calls-Evolves}
use odin_sentinel.Lease.Contract.{
  held, acquire_spec, is_held, Meets, Ready, acquire_lease-Meets, fence_action-superseded,
}
use odin_sentinel.Lease.Renewal.{Presented, renew_lease-ok}
use odin_sentinel.Lease.AnyOfLaws.{IsReported, pass-reports}

-- An instant's text is the instant as one unit, and a file is its JSON value.
date_of : Text → Option ℕ
date_of (n ∷ []) = some n
date_of t = none

abbrev demo : Platform Json
demo = record {
  iso = λ ms. some (ms ∷ []);
  date_parse = date_of;
  json_parse = λ j. some j;
  json_text = λ j. j;
}

demo-IsPlatform : IsPlatform demo
unfolding date_of
demo-IsPlatform = record {
  date_round = λ ms s e. subst (λ t. date_of t ≡ some ms) (some-injective _ _ e) refl;
  json_round = λ r. refl;
}

abbrev at : ℕ → Env Json
at now = record {
  now = now;
  skew = none;
  mkdir_fails = false;
  lock = granted;
  write_fails = false;
  meanwhile = λ d. d;
}

-- The slot s1, held by a under token 1 until 5 s.
abbrev taken : LeaseRecord
taken = record {
  slot = text "s1";
  token = 1;
  holder = some (text "a");
  acquired_at = some (1000 ∷ []);
  expires_at = some (5000 ∷ []);
}

abbrev dir : Directory Json
dir = record { allow = absent; lease = λ s. some (to_json taken) }

at-Relies : (n : ℕ) → Relies demo (at n)
at-Relies n d = Evolves-refl demo d

abbrev history : List ((ℕ → Env Json) × Call)
history =
    ((λ k. at 2000), renews (text "s1") (text "a") 1 (seconds (pos 3)))
    ∷ ((λ k. at 9000), acquires (text "s1") (text "b") (seconds (pos 3)))
    ∷ []

after_calls-Evolves_example : Evolves demo dir (after_calls demo history dir)
after_calls-Evolves_example =
    after_calls-Evolves demo demo-IsPlatform history dir
      ((λ j. at-Relies 2000), ((λ j. at-Relies 9000), tt))

as_record-to_json_example : as_record demo (text "s1") (to_json taken) ≡ some taken
unfolding date_of
as_record-to_json_example =
    as_record-to_json demo taken
      (inr (text "a", 1000 ∷ [], 5000 ∷ [], 5000, refl, refl, refl, refl))

-- The slot s1 after the takeover by b.
abbrev retaken : LeaseRecord
retaken = record {
  slot = text "s1";
  token = 2;
  holder = some (text "b");
  acquired_at = some (9000 ∷ []);
  expires_at = some (12000 ∷ []);
}

a-ne-b : some (text "a") ≢ some (text "b")
a-ne-b e = ground (arith, some-injective _ _ e)

taken-read : read_lease demo dir (text "s1") ≡ ok taken
unfolding read_lease date_of is_segment ensure_slot_allowed
    odin_sentinel.Lease.Directory.read_allowed_slots odin_sentinel.Lease.Directory.names_slot decode
    as_record to_json odin_sentinel.Base.same odin_sentinel.Lease.Record.record_part
taken-read = refl

retaken-read : read_lease demo (after_calls demo history dir) (text "s1") ≡ ok retaken
unfolding read_lease after_calls acquire_lease renew_lease date_of is_segment ensure_slot_allowed
    odin_sentinel.Lease.Directory.read_allowed_slots is_blank positive_ttl
    odin_sentinel.Lease.Directory.with_allowed_slot_lock odin_sentinel.Lease.Directory.names_slot
    odin_sentinel.Lease.Directory.with_slot_lock decode as_record to_json odin_sentinel.Base.same
    odin_sentinel.Lease.Record.record_part odin_sentinel.Lease.Operations.renew_body is_expired
    odin_sentinel.Lease.Directory.write_lease odin_sentinel.Lease.Operations.acquire_body
    odin_sentinel.Lease.Operations.stamp odin_sentinel.Lease.Operations.store_stamped
retaken-read = refl

fence_action-superseded_example :
    fence_action demo (after_calls demo history dir) (text "s1") 1
    ≡ ok (record { valid = false; current_token = 2; reason = superseded })
fence_action-superseded_example =
    fence_action-superseded demo demo-IsPlatform dir (after_calls demo history dir) (text "s1")
      taken retaken (text "b")
      (after_calls-Evolves demo demo-IsPlatform history dir
        ((λ j. at-Relies 2000), ((λ j. at-Relies 9000), tt)))
      taken-read retaken-read refl a-ne-b (omega arith)

dir-Ready : Ready demo (at 9000) dir (text "s1")
unfolding is_segment ensure_slot_allowed odin_sentinel.Lease.Directory.read_allowed_slots
    odin_sentinel.Lease.Directory.names_slot
dir-Ready = record {
  made = refl;
  locked = refl;
  writes = refl;
  segment = refl;
  listed = refl;
  still_listed = refl;
}

acquire_lease-Meets_example :
    Meets demo
      (text "s1")
      (acquire_lease demo (at 9000) dir (text "s1") (text "b") (seconds (pos 3)))
      (acquire_spec 9000 (skew_ms none) (text "b") 3 (held 1 (text "a") 5000))
unfolding decode is_blank date_of as_record to_json odin_sentinel.Base.same
    odin_sentinel.Lease.Record.record_part
acquire_lease-Meets_example =
    acquire_lease-Meets demo demo-IsPlatform (at 9000) dir (text "s1") (text "b") 2 taken
      (held 1 (text "a") 5000) (9000 ∷ []) (12000 ∷ []) dir-Ready refl refl
      (is_held (text "a") (5000 ∷ []) 5000 refl refl refl refl) (omega arith) refl refl

-- The slot s1 after a's renewal.
abbrev renewed : LeaseRecord
renewed = record {
  slot = text "s1";
  token = 1;
  holder = some (text "a");
  acquired_at = some (2000 ∷ []);
  expires_at = some (5000 ∷ []);
}

renewed-ok :
    (renew_lease demo (at 2000) dir (text "s1") (text "a") 1 (seconds (pos 3))).0 ≡ ok renewed
unfolding renew_lease date_of is_segment positive_ttl
    odin_sentinel.Lease.Directory.with_allowed_slot_lock ensure_slot_allowed
    odin_sentinel.Lease.Directory.read_allowed_slots odin_sentinel.Lease.Directory.names_slot
    odin_sentinel.Lease.Directory.with_slot_lock read_lease decode as_record to_json
    odin_sentinel.Base.same odin_sentinel.Lease.Record.record_part
    odin_sentinel.Lease.Operations.renew_body is_expired
renewed-ok = refl

renew_lease-ok_example :
    (r : LeaseRecord) × (n : ℕ) × (positive_ttl (seconds (pos 3)) ≡ some n)
    × (decode demo (text "s1") (dir.lease (text "s1")) ≡ some r)
    × Presented demo (at 2000) (text "s1") (text "a") 1 r
    × (is_expired demo r 2000 (skew_ms none) ≡ false)
    × (renewed.token ≡ 1)
    × (renewed.holder ≡ some (text "a"))
    × (renewed.expires_at ≡ some ((2000 + n * 1000) ∷ []))
renew_lease-ok_example =
    renew_lease-ok demo (at 2000) (text "s1") dir (text "a") 1 (seconds (pos 3)) renewed renewed-ok

abbrev busy_slot : List Held
busy_slot = record { slot = text "s1"; holder = text "a"; expires_at = some (5000 ∷ []) } ∷ []

pass-busy :
    (pass demo (λ k. at 2000) 0 grant (text "b") 3 (text "s1" ∷ []) [] dir).0 ≡ more busy_slot
unfolding pass date_of odin_sentinel.Lease.Directory.with_slot_lock read_lease is_segment
    ensure_slot_allowed odin_sentinel.Lease.Directory.read_allowed_slots
    odin_sentinel.Lease.Directory.names_slot decode as_record to_json odin_sentinel.Base.same
    odin_sentinel.Lease.Record.record_part is_expired
pass-busy = refl

pass-reports_example :
    All (IsReported busy_slot) (text "s1" ∷ [])
    × ((other : Text) → IsReported [] other → IsReported busy_slot other)
pass-reports_example =
    pass-reports demo (λ k. at 2000) 0 (text "b") 3 (text "s1" ∷ []) [] busy_slot dir pass-busy
