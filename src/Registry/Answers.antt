-- ===== src/Registry/Answers.antt =====
-- src/protocol/event-registry/storage.ts: an append that meets no fault of the file system answers.
use odin_sentinel.Base.{
  ℕ, ◌≡◌, ◌⊎◌, inl, inr, Bool, true, false, none, some, Text, Json, ap, sym, ◌∙◌, Option-cases,
}
use odin_sentinel.Registry.Lock.{
  Mkdir, made, exists, failed, World, IsWorld, Options, AreFinite, Acquisition, acquired, raised,
  Policy, lock_policy,
}
use odin_sentinel.Registry.Lock.Laws.{Reports, acquire_registry_lock-Reports}
use odin_sentinel.Registry.Event.{class_of}
use odin_sentinel.Registry.Rejections.{Result, done, rejected, Library, registry_symlink_rejection}
use odin_sentinel.Registry.Storage.{
  Files, Env, AppendOptions, Outcome, answered, threw, stuck, Prepared, released, locked_append,
  acquired_append, prepared_append, prepare_append, append_registry_event,
}

-- An environment without faults: directories can be made, waits last, writes are whole, and the
-- lock's directory can be removed. Other writers may hold the lock.
pub record IsQuiet (env : Env) : Type 0 where
  pub waits : IsWorld env.world
  pub makes : (k : ℕ) → (env.world.mkdir k ≡ made) ⊎ (env.world.mkdir k ≡ exists)
  pub directory : env.mkdir_fails ≡ false
  pub whole : env.torn ≡ none
  pub removes : env.rmdir_fails ≡ false

abbrev pub IsAnswer : Outcome → Type 0
IsAnswer (answered r) = Unit
IsAnswer threw = true ≡ false
IsAnswer stuck = true ≡ false

IsGotten : Acquisition → Type 0
IsGotten (acquired got attempts elapsed) = Unit
IsGotten raised = true ≡ false

failed_code : Mkdir → Bool
failed_code failed = true
failed_code m = false

Reports-IsGotten :
    (w : World) (policy : Policy) (from : ℕ) (a : Acquisition)
    → ((k : ℕ) → (w.mkdir k ≡ made) ⊎ (w.mkdir k ≡ exists))
    → Reports w policy from a
    → IsGotten a
unfolding IsGotten failed_code
Reports-IsGotten w policy from a ok (Reports.locked k t lt b m c) = tt
Reports-IsGotten w policy from a ok (Reports.gave_up k t lt b c) = tt
Reports-IsGotten w policy from a ok (Reports.threw k lt b m c) = elim (ok k) [
  | inl q ↦ ap failed_code (sym m) ∙ ap failed_code q
  | inr q ↦ ap failed_code (sym m) ∙ ap failed_code q
]

module _ (lib : Library) (files : Files) (env : Env) (scope : Text) (quiet : IsQuiet env) where
  locked_append-IsAnswer : (p : Prepared) → IsAnswer ((locked_append lib files env scope p).1)
  unfolding locked_append released
  locked_append-IsAnswer p =
      elim (Option-cases (registry_symlink_rejection env.raced (class_of p.event.detail))) [
        | inr (r, raced) ↦ simp (locked_append, released, raced, quiet.removes) tt
        | inl clear ↦ simp (locked_append, released, clear, quiet.removes, quiet.whole) tt
      ]

  acquired_append-IsAnswer :
      (p : Prepared) (a : Acquisition)
      → IsGotten a
      → IsAnswer ((acquired_append lib files env scope p (some a)).1)
  unfolding acquired_append IsGotten
  acquired_append-IsAnswer p (acquired true n ms) h = locked_append-IsAnswer p
  acquired_append-IsAnswer p (acquired false n ms) h = tt
  acquired_append-IsAnswer p raised h = h

  prepared_append-IsAnswer :
      (o : Options)
      → AreFinite o
      → (p : Result Prepared) → IsAnswer ((prepared_append lib files env scope o p).1)
  unfolding prepared_append
  prepared_append-IsAnswer o finite (rejected r) = tt
  prepared_append-IsAnswer o finite (done p) =
      elim (Option-cases (registry_symlink_rejection env.links (class_of p.event.detail))) [
        | inr (r, linked) ↦ simp (prepared_append, linked) tt
        | inl clear ↦
            let (a, run, reports) = acquire_registry_lock-Reports env.world quiet.waits o finite in
            simp (prepared_append, clear, quiet.directory, run)
              (acquired_append-IsAnswer p a
                (Reports-IsGotten env.world (lock_policy o) 0 a quiet.makes reports))
      ]

  -- However the lock is contended, an append whose lock options are not given or whole numbers, neither
  -- Infinity nor NaN, and that meets no fault of the file system ends with an answer, the event or its
  -- rejections: it neither throws nor waits for ever.
  pub append_registry_event-IsAnswer :
      (j : Json) (o : AppendOptions)
      → AreFinite o.lock
      → IsAnswer ((append_registry_event lib files env scope j o).1)
  unfolding append_registry_event
  append_registry_event-IsAnswer j o finite =
      prepared_append-IsAnswer o.lock finite (prepare_append lib scope j o)
