-- ===== src/Governance/Layers.antt =====
-- src/protocol/governance.ts: the verdicts of the depth cap, and the log.
use odin_sentinel.Base.{
  ◌≡◌, refl, ◌⊎◌, inl, inr, true, false, not, ◌&&◌, Option, none, some, List, [], ◌∷◌, Text, same,
  same_self, is_blank, filter, map, leb, ap, sym, ◌∙◌, subst, arith, Bool-cases, List-cases,
}
use odin_sentinel.Governance.Events.{
  Event, AuditTarget, ordinary_work, audit, ok, Store, IsLog, invalid_scope, invalid_objective,
  require_scope,
}
use odin_sentinel.Governance.Attempts.{listed}
use odin_sentinel.Governance.Depth.{
  is_break_glass, Derivation, Offer, no_offer, invalid_offer, offer, DepthVerdict, by_depth_cap,
  by_break_glass, refused_wrong_class, refused_unbound_offer, refused_depth, under_cap, judge,
  meta_governance_depth_cap, derive_meta_governance_depth, evaluate_meta_governance_depth,
}
use odin_sentinel.Governance.OneTerminal.{of_objective}
use odin_sentinel.Governance.Log.{then_ask-ok, required-ok, checked-ok, ok-injective}
use odin_sentinel.Governance.Walking.{IsLayered, derivation-IsLayered}

-- The ids of the objective's BREAK_GLASS events in a log.
unfoldable pub glass : Text → List Event → List Text
unfolding of_objective
glass o log = map (λ e. e.event_id) (filter is_break_glass (of_objective o log))

-- What a verdict says of the target, the offer and the log's break-glass ids.
pub data Justified (t : AuditTarget) (o : Text) (offered : Offer) (ids : List Text)
    : DepthVerdict → Type 0 where
  within : t ≡ ordinary_work → Justified t o offered ids by_depth_cap
  broken :
      (target id : Text)
      → t ≡ audit target
      → listed ids id ≡ true
      → Justified t o offered ids (by_break_glass id)
  wrong_class :
      (offered ≡ invalid_offer) ⊎ ((e : Event) × (offered ≡ offer e) × (is_break_glass e ≡ false))
      → Justified t o offered ids refused_wrong_class
  unbound :
      (e : Event)
      → offered ≡ offer e
      → same e.stable_objective_id o && listed ids e.event_id ≡ false
      → Justified t o offered ids refused_unbound_offer
  too_deep :
      (target : Text)
      → t ≡ audit target
      → offered ≡ no_offer
      → ids ≡ []
      → Justified t o offered ids refused_depth

AuditTarget-cases : (t : AuditTarget) → (t ≡ ordinary_work) ⊎ ((id : Text) × (t ≡ audit id))
AuditTarget-cases ordinary_work = inl refl
AuditTarget-cases (audit id) = inr (id, refl)

under_cap-offered :
    (t : AuditTarget) (o : Text) (offered : Offer) (d : Derivation) (id : Text)
    → IsLayered t d
    → listed d.break_glass_event_ids id ≡ true
    → Justified t o offered d.break_glass_event_ids (under_cap d (some id))
unfolding under_cap
under_cap-offered t o offered d id layered bound = elim (AuditTarget-cases t) [
  | inl plain ↦
      let flat : leb d.depth meta_governance_depth_cap ≡ true =
        ground (arith, layered.ordinary plain) in
      simp (under_cap, flat) (within plain)
  | inr (target, q) ↦
      let deep : leb d.depth meta_governance_depth_cap ≡ false =
        ground (arith, layered.audited target q) in
      simp (under_cap, deep) (broken target id q bound)
]

under_cap-no_offer :
    (t : AuditTarget) (o : Text) (d : Derivation)
    → IsLayered t d
    → Justified t o no_offer d.break_glass_event_ids (under_cap d none)
unfolding under_cap listed
under_cap-no_offer t o d layered = elim (AuditTarget-cases t) [
  | inl plain ↦
      let flat : leb d.depth meta_governance_depth_cap ≡ true =
        ground (arith, layered.ordinary plain) in
      simp (under_cap, flat) (within plain)
  | inr (target, q) ↦
      let deep : leb d.depth meta_governance_depth_cap ≡ false =
        ground (arith, layered.audited target q) in
      elim (List-cases d.break_glass_event_ids) [
        | inl bare ↦ simp (under_cap, deep, bare) (too_deep target q refl refl)
        | inr (id, more, l) ↦ simp (under_cap, deep, l) (broken target id q (first_listed id more))
      ]
]
  where
    first_listed : (id : Text) (more : List Text) → listed (id ∷ more) id ≡ true
    first_listed id more = simp (same_self id) refl

judge-Justified :
    (t : AuditTarget) (o : Text) (offered : Offer) (d : Derivation)
    → IsLayered t d
    → Justified t o offered d.break_glass_event_ids (judge o offered d)
unfolding judge
judge-Justified t o no_offer d layered = under_cap-no_offer t o d layered
judge-Justified t o invalid_offer d layered = wrong_class (inl refl)
judge-Justified t o (offer e) d layered = elim (Bool-cases (is_break_glass e)) [
  | inr other ↦ simp (judge, other) (wrong_class (inr (e, refl, other)))
  | inl glassy ↦
      elim (Bool-cases
        (same e.stable_objective_id o && listed d.break_glass_event_ids e.event_id)) [
          | inr stray ↦ simp (judge, glassy, stray) (unbound e refl stray)
          | inl bound ↦
              simp (judge, glassy, bound)
                (under_cap-offered t o (offer e) d e.event_id layered (ground (arith, bound)))
        ]
]

abbrev judged : Text → Offer → Option Derivation → Option DepthVerdict
judged o offered none = none
judged o offered (some d) = some (judge o offered d)

module _ {S : Type 0} (store : Store S) (laws : IsLog S store) where
  -- For a store that keeps a log, an evaluation that gets its answer from the store has a verdict: an
  -- audit of ordinary work is within the cap; an audit of an audit is permitted only by the id of a
  -- BREAK_GLASS event that the log has for the objective, and is refused for its depth only if there is
  -- no offer and no such event; an offer is refused as of the wrong class or as unbound only if it is.
  pub evaluate_meta_governance_depth-Justified :
      (s : S) (scope o : Text) (t : AuditTarget) (offered : Offer) (result : Option DepthVerdict)
      → evaluate_meta_governance_depth store s scope o (some t) offered ≡ ok result
      → (v : DepthVerdict) × (result ≡ some v)
        × Justified t o offered (glass o (laws.log s scope)) v
  unfolding evaluate_meta_governance_depth derive_meta_governance_depth glass of_objective
  evaluate_meta_governance_depth-Justified s scope o t offered result e =
      let (answer, derived, e1) = then_ask-ok _ _ result e in
      let (f, has, e2) = required-ok store.query _ answer derived in
      let (named, e3) = checked-ok (require_scope scope) invalid_scope _ answer e2 in
      let (valid, e4) = checked-ok (not (is_blank o)) invalid_objective _ answer e3 in
      let (events, asked, e5) = then_ask-ok _ _ answer e4 in
      let q : events ≡ of_objective o (laws.log s scope) =
        laws.queried f has s scope _ events asked in
      let (d, found, layered, ids) = derivation-IsLayered events t in
      let whole : answer ≡ some d = sym (ok-injective _ _ e5) ∙ found in
      let verdict : some (judge o offered d) ≡ result =
        sym (ap (judged o offered) whole) ∙ ok-injective _ _ e1 in
      (
        judge o offered d,
        sym verdict,
        subst (λ x. Justified t o offered x (judge o offered d))
            (ids ∙ ap (λ x. map (λ b. b.event_id) (filter is_break_glass x)) q)
            (judge-Justified t o offered d layered),
      )
