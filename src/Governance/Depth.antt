-- ===== src/Governance/Depth.antt =====
-- src/protocol/governance.ts: the depth of meta-governance and its cap. What zod's safeParse makes
-- of the audit target and of an offered artifact is an argument.
use odin_sentinel.Base.{
  ℕ, zero, suc, ◌+◌, Bool, true, false, not, ◌&&◌, Option, none, some, List, [], ◌∷◌, ◌++◌, Text,
  text, same, is_blank, filter, map, length, leb, if◌then◌else◌,
}
use odin_sentinel.Governance.Events.{
  Event, AuditTarget, ordinary_work, audit, Answer, ok, refused, Store, then_ask, checked, required,
  require_scope, invalid_objective, invalid_scope, invalid_target,
}
use odin_sentinel.Governance.Attempts.{listed}

abbrev pub meta_governance_depth_cap : ℕ
meta_governance_depth_cap = 1

unfoldable pub is_audit : Event → Bool
unfolding same
is_audit e = same e.event_class (text "AUDIT")

unfoldable pub is_break_glass : Event → Bool
unfolding same
is_break_glass e = same e.event_class (text "BREAK_GLASS")

unfoldable pub later_or : Option Event → Option Event → Option Event
later_or (some e) o = some e
later_or none o = o

-- auditEventsById.get(id): a later event of the same id hides an earlier one.
unfoldable pub audit_by_id : Text → List Event → Option Event
unfolding is_audit same later_or
audit_by_id id [] = none
audit_by_id id (e ∷ es) =
    later_or (audit_by_id id es) (if is_audit e && same e.event_id id then some e else none)

pub record Walk : Type 0 where
  pub depth : ℕ
  pub chain : List Text

abbrev pub walk_at : ℕ → List Text → Walk
walk_at depth chain = record { depth = depth; chain = chain }

-- The loop over the chain of audits; `none` is fuel that ran out.
unfoldable pub walk : List Event → ℕ → AuditTarget → ℕ → List Text → List Text → Option Walk
unfolding audit_by_id listed
walk events fuel ordinary_work depth chain visited = some (walk_at depth chain)
walk events zero (audit id) depth chain visited = none
walk events (suc fuel) (audit id) depth chain visited = elim (listed visited id) [
  | true ↦ some (walk_at (depth + 1) (chain ++ (id ∷ [])))
  | false ↦ elim (audit_by_id id events) [
    | none ↦ some (walk_at (depth + 1) (chain ++ (id ∷ [])))
    | some e ↦ elim e.target [
      | none ↦ some (walk_at (depth + 1) (chain ++ (id ∷ [])))
      | some next ↦ walk events fuel next (depth + 1) (chain ++ (id ∷ [])) (id ∷ visited)
    ]
  ]
]

pub record Derivation : Type 0 where
  pub depth : ℕ
  pub audit_chain : List Text
  pub break_glass_event_ids : List Text

-- More fuel than events: a round that goes on has visited one more of them.
unfoldable pub derivation : List Event → AuditTarget → Option Derivation
unfolding walk is_break_glass
derivation events target = elim (walk events (suc (length events)) target 1 [] []) [
  | none ↦ none
  | some w ↦ some (record {
    depth = w.depth;
    audit_chain = w.chain;
    break_glass_event_ids = map (λ e. e.event_id) (filter is_break_glass events);
  })
]

pub data Offer : Type 0 where
  no_offer invalid_offer : Offer
  offer : Event → Offer

pub data DepthVerdict : Type 0 where
  by_depth_cap : DepthVerdict
  by_break_glass : Text → DepthVerdict
  refused_wrong_class refused_unbound_offer refused_depth : DepthVerdict

unfoldable pub under_cap : Derivation → Option Text → DepthVerdict
under_cap d offered = if leb d.depth meta_governance_depth_cap then by_depth_cap else elim offered [
  | some id ↦ by_break_glass id
  | none ↦ elim d.break_glass_event_ids [ [] ↦ refused_depth | id ∷ rest ↦ by_break_glass id ]
]

unfoldable pub judge : Text → Offer → Derivation → DepthVerdict
unfolding is_break_glass under_cap same listed
judge objective no_offer d = under_cap d none
judge objective invalid_offer d = refused_wrong_class
judge objective (offer e) d =
    if not (is_break_glass e)
    then refused_wrong_class
    else if not (same e.stable_objective_id objective && listed d.break_glass_event_ids e.event_id)
    then refused_unbound_offer
    else under_cap d (some e.event_id)

module _ {S : Type 0} (store : Store S) where
  -- `none` inside is fuel that ran out.
  unfoldable pub derive_meta_governance_depth :
      S → Text → Text → Option AuditTarget → Answer (Option Derivation)
  unfolding required checked require_scope then_ask derivation is_blank
  derive_meta_governance_depth s scope objective target = required store.query (λ f.
      checked (require_scope scope) invalid_scope (
        checked (not (is_blank objective)) invalid_objective (elim target [
          | none ↦ refused (invalid_target ∷ [])
          | some t ↦
              then_ask (f s scope (record { objective = some objective; class = none }))
                (λ events. ok (derivation events t))
        ])))

  unfoldable pub evaluate_meta_governance_depth :
      S → Text → Text → Option AuditTarget → Offer → Answer (Option DepthVerdict)
  unfolding derive_meta_governance_depth then_ask judge
  evaluate_meta_governance_depth s scope objective target offered =
      then_ask (derive_meta_governance_depth s scope objective target)
        (λ d. ok (elim d [ none ↦ none | some x ↦ some (judge objective offered x) ]))
