-- ===== src/Registry/Compact/Effect.antt =====
-- src/protocol/event-registry/compact.ts: what a run removes, and what it leaves of the logs.
use odin_sentinel.Base.{
  ℕ, ◌+◌, ◌<◌, ◌≡◌, ◌⊎◌, inl, inr, true, false, none, some, List, [], ◌∷◌, Text, text, sym, subst,
  arith, same, ltb→lt, filter, Bool-cases, All,
}
use odin_sentinel.Registry.Event.{class_of}
use odin_sentinel.Registry.Rejections.{done, Library}
use odin_sentinel.Registry.Storage.{Files, put}
use odin_sentinel.Registry.Appending.{IsLibrary}
use odin_sentinel.Registry.Compact.{
  Clock, Ttl, ParsedLine, Plan, ttl_of, milliseconds, is_compacted, plan_compaction,
}
use odin_sentinel.Registry.Compact.Run.{
  Env, CompactOptions, Outcome, answered, build_report, released,
}
use odin_sentinel.Registry.Compact.Keeping.{plan_compaction-Keeps}

-- An event that may be removed: not TERMINAL, and strictly older than its class's TTL.
abbrev pub IsOld : Ttl → ℕ → ParsedLine → Type 0
IsOld ttl now p =
    (same (class_of p.event.detail) (text "TERMINAL") ≡ false)
    × (p.event_ms + milliseconds (ttl_of ttl.by_class ttl.default (class_of p.event.detail)) < now)

is_compacted-IsOld :
    (ttl : Ttl) (now : ℕ) (p : ParsedLine) → is_compacted ttl now p ≡ true → IsOld ttl now p
unfolding is_compacted
is_compacted-IsOld ttl now p h =
    elim (Bool-cases (same (class_of p.event.detail) (text "TERMINAL"))) [
      | inl c ↦ ground (arith, simp c at h)
      | inr c ↦ (c, ltb→lt _ _ (simp c at h))
    ]

filter-IsOld :
    (ttl : Ttl) (now : ℕ) (ps : List ParsedLine)
    → All (IsOld ttl now) (filter (is_compacted ttl now) ps)
filter-IsOld ttl now [] = tt
filter-IsOld ttl now (p ∷ ps) = elim (Bool-cases (is_compacted ttl now p)) [
  | inl c ↦ simp c (is_compacted-IsOld ttl now p c, filter-IsOld ttl now ps)
  | inr c ↦ simp c (filter-IsOld ttl now ps)
]

module _ (lib : Library) (laws : IsLibrary lib) (clock : Clock) where
  -- A plan removes no TERMINAL event, and none that is not strictly older than the TTL of its class.
  pub plan_compaction-IsOld :
      (scope t now : Text) (now_ms : ℕ) (ttl : Ttl) (plan : Plan)
      → plan_compaction lib clock scope t now now_ms ttl ≡ done plan
      → All (IsOld ttl now_ms) plan.removed
  plan_compaction-IsOld scope t now now_ms ttl plan h =
      let k = plan_compaction-Keeps lib laws clock scope t now now_ms ttl plan h in
      subst (All (IsOld ttl now_ms)) (sym k.removes) (filter-IsOld ttl now_ms k.parsed)

module _ (lib : Library) (clock : Clock) (files : Files) (env : Env) (scope : Text)
    (o : CompactOptions) where
  -- The text of a plan for the scope's log, as it is once the lock is held, has been put in its place,
  -- and the plan is reported.
  pub record Rewrites (left : Files × Outcome) : Type 0 where
    pub before : Text
    pub after : Text
    pub now_ms : ℕ
    pub plan : Plan
    pub had : env.meanwhile files scope ≡ some before
    pub plans : plan_compaction lib clock scope before o.now now_ms o.ttl ≡ done plan
    pub writes : plan.new_text ≡ some after
    pub has :
        left ≡ (put scope after (env.meanwhile files), answered (done (build_report false plan)))
    pub written : env.write_fails ≡ false

  -- The run is not reported as done.
  abbrev pub IsRefusal : Outcome → Type 0
  IsRefusal (answered (done r)) = ⊥
  IsRefusal outcome = Unit {0}

  -- There is no log under the lock, or the plan for it writes nothing.
  abbrev pub HasNothing : Type 0
  HasNothing =
      (env.meanwhile files scope ≡ none)
      ⊎ ((before : Text) × (now_ms : ℕ) × (plan : Plan) × (env.meanwhile files scope ≡ some before)
          × (plan_compaction lib clock scope before o.now now_ms o.ttl ≡ done plan)
          × (plan.new_text ≡ none))

  pub data Compacts (left : Files × Outcome) : Type 0 where
    untouched : (o.dry_run ≡ true) ⊎ IsRefusal left.1 → left.0 ≡ files → Compacts left
    by_others :
        o.dry_run ≡ false
        → IsRefusal left.1 ⊎ HasNothing
        → left.0 ≡ env.meanwhile files
        → Compacts left
    rewritten :
        (p : Files × Outcome)
        → o.dry_run ≡ false
        → Rewrites p
        → left ≡ released lib clock env p
        → Compacts left

  -- What the section under the lock leaves.
  abbrev Writes : Files × Outcome → Type 0
  Writes p = ((IsRefusal p.1 ⊎ HasNothing) × (p.0 ≡ env.meanwhile files)) ⊎ Rewrites p
