-- ===== src/Registry/Lock/Examples.antt =====
-- src/protocol/event-registry/storage.ts: a contended lock.
use odin_sentinel.Base.{◌+◌, ◌≡◌, none, some, pos, leb, if◌then◌else◌, arith}
use odin_sentinel.Registry.Lock.{
  made, exists, World, IsWorld, Acquisition, Options, lock_policy, integer, AreFinite,
  acquire_registry_lock,
}
use odin_sentinel.Registry.Lock.Laws.{Reports, acquire_registry_lock-Reports}

-- The first two attempts find the directory; every wait is as long as it was asked to be.
abbrev contended : World
contended = record {
  mkdir = λ k. if leb k 2 then exists else made;
  random = λ k. 0;
  wake = λ k elapsed ms. elapsed + ms;
  patience = 0;
}

contended-IsWorld : IsWorld contended
contended-IsWorld = record { waits = λ k elapsed ms. omega arith; bounded = λ k. omega arith }

abbrev short : Options
short = record {
  max_lock_attempts = none;
  lock_retry_ms = none;
  lock_budget_ms = some (integer (pos 50));
}

short-AreFinite : AreFinite short
short-AreFinite = record { attempts = tt; retry = tt; budget = tt }

acquire_registry_lock-Reports_example :
    (a : Acquisition) × (acquire_registry_lock contended short ≡ some a)
    × Reports contended (lock_policy short) 0 a
acquire_registry_lock-Reports_example =
    acquire_registry_lock-Reports contended contended-IsWorld short short-AreFinite
