-- ===== src/Governance/Walking.antt =====
-- src/protocol/governance.ts: the walk along a chain of audits.
use odin_sentinel.Base.{
  ℕ, zero, suc, ◌+◌, ◌≤◌, ◌<◌, ◌≡◌, refl, inl, inr, false, ◌||◌, some, List, [], ◌∷◌, ◌++◌, Text,
  same, same_iff, filter, map, length, length-append, sym, subst, arith, Bool-cases, Option-cases,
  if◌then◌else◌,
}
use odin_sentinel.Governance.Events.{Event, AuditTarget, ordinary_work, audit}
use odin_sentinel.Governance.Attempts.{listed}
use odin_sentinel.Governance.Depth.{
  is_break_glass, later_or, audit_by_id, Walk, walk_at, walk, Derivation, derivation,
}

-- How many events of the log have an id that the walk has not visited.
unfoldable pub unvisited : List Text → List Event → ℕ
unfolding listed
unvisited visited [] = 0
unvisited visited (e ∷ es) =
    let rest = unvisited visited es in if listed visited e.event_id then rest else rest + 1

unvisited_bound : (visited : List Text) (es : List Event) → unvisited visited es ≤ length es
unfolding unvisited
unvisited_bound visited [] = omega arith
unvisited_bound visited (e ∷ es) = ground (arith, unvisited_bound visited es)

unvisited_mono :
    (id : Text) (visited : List Text) (es : List Event)
    → unvisited (id ∷ visited) es ≤ unvisited visited es
unfolding unvisited listed
unvisited_mono id visited [] = omega arith
unvisited_mono id visited (e ∷ es) = ground (arith, unvisited_mono id visited es)

listed_cons :
    (id t : Text) (visited : List Text) → listed (id ∷ visited) t ≡ (same t id || listed visited t)
unfolding listed
listed_cons id t visited = refl

-- Visiting the id of an event leaves fewer of them.
unvisited-visit :
    (id : Text) (visited : List Text) (es : List Event) (found : Event)
    → audit_by_id id es ≡ some found
    → listed visited id ≡ false
    → unvisited (id ∷ visited) es < unvisited visited es
unfolding unvisited audit_by_id later_or
unvisited-visit id visited [] found h new = absurd (ground (arith, h))
unvisited-visit id visited (e ∷ es) found h new = elim (Option-cases (audit_by_id id es)) [
  | inr (later, q) ↦
      ground (arith, unvisited-visit id visited es later q new, listed_cons id e.event_id visited)
  | inl q ↦ elim (Bool-cases (same e.event_id id)) [
    | inl hit ↦
        let fresh : listed visited e.event_id ≡ false =
          subst (λ x. listed visited x ≡ false) (sym ((same_iff e.event_id id).0 hit)) new in
        ground (arith, fresh, hit, listed_cons id e.event_id visited, unvisited_mono id visited es)
    | inr miss ↦ absurd (ground (arith, h, q, miss))
  ]
]

-- The walk from a target: it ends, each layer is a link of the chain, and an audit's target adds one.
record Ends (t : AuditTarget) (depth links : ℕ) (w : Walk) : Type 0 where
  pub layers : w.depth + links ≡ depth + length w.chain
  pub deeper : depth ≤ w.depth
  pub ordinary : t ≡ ordinary_work → w.depth ≡ depth
  pub audited : (id : Text) → t ≡ audit id → depth < w.depth

audit-ne-ordinary : {A : Type 0} (id : Text) → audit id ≡ ordinary_work → A
audit-ne-ordinary id e = absurd (subst Audited e tt)
  where
    Audited : AuditTarget → Type 0
    Audited ordinary_work = ⊥
    Audited (audit id) = Unit {0}

last_layer :
    (id : Text) (depth : ℕ) (chain : List Text)
    → Ends (audit id) depth (length chain) (walk_at (depth + 1) (chain ++ (id ∷ [])))
last_layer id depth chain = record {
  layers = omega (arith, length-append chain (id ∷ []));
  deeper = omega arith;
  ordinary = λ e. audit-ne-ordinary id e;
  audited = λ j e. omega arith;
}

walk-Ends :
    (events : List Event) (fuel : ℕ) (t : AuditTarget) (depth : ℕ) (chain visited : List Text)
    → unvisited visited events < fuel
    → (w : Walk) × (walk events fuel t depth chain visited ≡ some w) × Ends t depth (length chain) w
unfolding walk
walk-Ends events zero t depth chain visited enough = absurd (omega arith)
walk-Ends events (suc fuel) ordinary_work depth chain visited enough = (
  walk_at depth chain,
  refl,
  record {
    layers = refl;
    deeper = omega arith;
    ordinary = λ e. refl;
    audited = λ id e. audit-ne-ordinary id (sym e);
  },
)
walk-Ends events (suc fuel) (audit id) depth chain visited enough =
    elim (Bool-cases (listed visited id)) [
      | inl cycle ↦ (
        walk_at (depth + 1) (chain ++ (id ∷ [])),
        simp (walk, cycle) refl,
        last_layer id depth chain,
      )
      | inr new ↦ elim (Option-cases (audit_by_id id events)) [
        | inl missing ↦ (
          walk_at (depth + 1) (chain ++ (id ∷ [])),
          simp (walk, new, missing) refl,
          last_layer id depth chain,
        )
        | inr (e, found) ↦ elim (Option-cases e.target) [
          | inl bare ↦ (
            walk_at (depth + 1) (chain ++ (id ∷ [])),
            simp (walk, new, found, bare) refl,
            last_layer id depth chain,
          )
          | inr (next, aims) ↦
              let (w, q, ends) =
                walk-Ends events fuel next (depth + 1) (chain ++ (id ∷ [])) (id ∷ visited)
                  (omega (arith, enough, unvisited-visit id visited events e found new)) in
              (
                w,
                simp (walk, new, found, aims) q,
                record {
                  layers = omega (arith, ends.layers, length-append chain (id ∷ []));
                  deeper = omega (arith, ends.deeper);
                  ordinary = λ e. audit-ne-ordinary id e;
                  audited = λ j e. omega (arith, ends.deeper);
                },
              )
        ]
      ]
    ]

-- A derivation's depth is one more than the links of its chain, and is one just for ordinary work.
pub record IsLayered (t : AuditTarget) (d : Derivation) : Type 0 where
  pub layers : d.depth ≡ length d.audit_chain + 1
  pub ordinary : t ≡ ordinary_work → d.depth ≡ 1
  pub audited : (id : Text) → t ≡ audit id → 1 < d.depth

-- For all events and targets the walk along the chain of audits ends within the fuel given, cycles
-- and missing targets included; the depth is one more than the length of the chain, it is 1 for
-- ordinary work and 2 or more for an audit.
pub derivation-IsLayered :
    (events : List Event) (t : AuditTarget)
    → (d : Derivation) × (derivation events t ≡ some d)
      × IsLayered t d
      × (d.break_glass_event_ids ≡ map (λ e. e.event_id) (filter is_break_glass events))
unfolding derivation
derivation-IsLayered events t =
    let (w, q, ends) =
      walk-Ends events (suc (length events)) t 1 [] [] (omega (arith, unvisited_bound [] events)) in
    (
      record {
        depth = w.depth;
        audit_chain = w.chain;
        break_glass_event_ids = map (λ e. e.event_id) (filter is_break_glass events);
      },
      simp (derivation, q) refl,
      record {
        layers = omega (arith, ends.layers);
        ordinary = ends.ordinary;
        audited = ends.audited;
      },
      refl,
    )
