-- ===== src/Governance/Calls.antt =====
-- src/protocol/governance.ts: sequences of calls of the two guards of the overhead budget.
use odin_sentinel.Base.{
  ◌≤◌, ◌≡◌, refl, ◌⊎◌, inl, inr, true, false, not, ◌&&◌, Option, none, some, [], ◌∷◌, ◌++◌, Text,
  text, same, same_iff, is_blank, ap, sym, ◌∙◌, subst, arith, Bool-cases, Option-cases, ltb, Json,
  member, length, List-cases,
}
use mathlib.Core.Option.{some-injective}
use odin_sentinel.Governance.Events.{
  Event, Answer, ok, refused, Store, IsLog, field, string_field, require_scope,
}
use odin_sentinel.Governance.Attempts.{listed}
use odin_sentinel.Governance.Overhead.{
  with_actor, Overhead, overhead, is_overhead, is_countable, is_terminal_blocked,
  governance_overhead_budget, TerminalInput, terminal_event, Guarded, stored,
  derive_overhead_accounting, record_budget_exhaustion, candidate_field, governed_overhead,
  unless_blocked, append_governance_overhead_event,
}
use odin_sentinel.Governance.Log.{Answer-cases, then_ask-ok, ask-ok, ok-injective}
use odin_sentinel.Governance.OneTerminal.{
  of_objective, spent, terminals, overhead-count, overhead-terminals, Move, still, blocked, noted,
}

-- The fields of a stored event are the payload's.
pub record Copies (j : Json) (e : Event) : Type 0 where
  pub objective : field (text "stable_objective_id") j ≡ some e.stable_objective_id
  pub class : field (text "event_class") j ≡ some e.event_class
  pub type : field (text "event_type") j ≡ some e.event_type

terminal_event-fields :
    (o : Text) (input : TerminalInput)
    → (field (text "stable_objective_id") (Json.object (terminal_event o input)) ≡ some o)
      × (field (text "event_class") (Json.object (terminal_event o input)) ≡ some (text "TERMINAL"))
      × (field (text "event_type") (Json.object (terminal_event o input))
          ≡ some (text "TERMINAL_BLOCKED"))
unfolding field string_field terminal_event with_actor member same
terminal_event-fields o input = go input.actor_role
  where
    with_role : Option Text → Json
    with_role role = Json.object (
        terminal_event o (record {
          event_id = input.event_id;
          ts = input.ts;
          actor_role = role;
          content_hashes = input.content_hashes;
        }))

    go :
        (role : Option Text)
        → (field (text "stable_objective_id") (with_role role) ≡ some o)
          × (field (text "event_class") (with_role role) ≡ some (text "TERMINAL"))
          × (field (text "event_type") (with_role role) ≡ some (text "TERMINAL_BLOCKED"))
    go none = (refl, refl, refl)
    go (some role) = (refl, refl, refl)

terminal_event-Copies :
    (o : Text) (input : TerminalInput) (e : Event)
    → Copies (Json.object (terminal_event o input)) e
    → (o ≡ e.stable_objective_id) × (is_terminal_blocked e ≡ true) × (is_overhead e ≡ false)
unfolding is_terminal_blocked is_overhead is_countable listed same
terminal_event-Copies o input e c =
    let (q1, q2, q3) = terminal_event-fields o input in
    let class : text "TERMINAL" ≡ e.event_class = some-injective _ _ (sym q2 ∙ c.class) in
    let type : text "TERMINAL_BLOCKED" ≡ e.event_type = some-injective _ _ (sym q3 ∙ c.type) in
    (
      some-injective _ _ (sym q1 ∙ c.objective),
      subst (λ x. same x (text "TERMINAL") && same e.event_type (text "TERMINAL_BLOCKED") ≡ true)
          class (subst (λ x. same x (text "TERMINAL_BLOCKED") ≡ true) type refl),
      subst (λ x. is_countable x ≡ false) class refl,
    )

candidate_field-of : (k : Text) (j : Json) (t : Text) → field k j ≡ some t → candidate_field k j ≡ t
unfolding candidate_field
candidate_field-of k j t h = simp (candidate_field, h) refl

-- What the payload of a governed append, or of one that passes through, says of the stored event.
not_terminal :
    (j : Json) (e : Event)
    → Copies j e
    → same (candidate_field (text "event_class") j) (text "TERMINAL") ≡ false
    → is_terminal_blocked e ≡ false
unfolding is_terminal_blocked
not_terminal j e c h =
    let q : candidate_field (text "event_class") j ≡ e.event_class =
      candidate_field-of _ j _ c.class in
    let plain : same e.event_class (text "TERMINAL") ≡ false =
      subst (λ x. same x (text "TERMINAL") ≡ false) q h in
    simp (is_terminal_blocked, plain) refl

not_governed :
    (j : Json) (e : Event)
    → Copies j e
    → governed_overhead j ≡ false
    → (is_overhead e ≡ false) ⊎ (is_blank e.stable_objective_id ≡ true)
unfolding governed_overhead is_overhead
not_governed j e c h =
    let class : candidate_field (text "event_class") j ≡ e.event_class =
      candidate_field-of _ j _ c.class in
    let objective : candidate_field (text "stable_objective_id") j ≡ e.stable_objective_id =
      candidate_field-of _ j _ c.objective in
    let both : not (is_blank e.stable_objective_id) && is_countable e.event_class ≡ false =
      simp (class, objective) at h in
    ground (arith, both)

module _ {S : Type 0} (store : Store S) (laws : IsLog S store) where
  pub derived :
      (s : S) (scope o : Text) (a : Overhead)
      → derive_overhead_accounting store s scope o ≡ ok a
      → (a.count ≡ spent o (laws.log s scope))
        × (length a.terminal_blocked_event_ids ≡ terminals o (laws.log s scope))
  unfolding derive_overhead_accounting spent terminals of_objective
  derived s scope o a e =
      let (events, asked, e1) = then_ask-ok _ _ a e in
      let q : events ≡ of_objective o (laws.log s scope) =
        ask-ok store laws s scope _ _ _ events asked in
      let w : overhead (of_objective o (laws.log s scope)) 0 [] ≡ a =
        ap (λ x. overhead x 0 []) (sym q) ∙ ok-injective _ _ e1 in
      subst
        (λ x.
          (x.count ≡ spent o (laws.log s scope))
          × (length x.terminal_blocked_event_ids ≡ terminals o (laws.log s scope)))
        w
        (
          omega (arith, overhead-count (of_objective o (laws.log s scope)) 0 []),
          overhead-terminals (of_objective o (laws.log s scope)) 0 [],
        )

  stored-Move :
      (f : S → Text → Json → S × Answer Event)
      → store.append ≡ some f
      → (s : S) (scope other : Text) (j : Json)
      → ((e : Event) → Copies j e → Move (laws.log s scope) (laws.log s scope ++ (e ∷ [])))
      → Move (laws.log s other) (laws.log ((stored (f s scope j)).0) other)
  unfolding stored
  stored-Move f has s scope other j k = go (f s scope j) refl
    where
      go :
          (p : S × Answer Event)
          → f s scope j ≡ p
          → Move (laws.log s other) (laws.log ((stored p).0) other)
      go (s', refused r) q =
          subst (Move (laws.log s other)) (sym (laws.rejected f has s s' scope j r q other)) still
      go (s', ok e) q =
          let (grown, objective, class, type) = laws.appended f has s s' scope j e q in
          elim (Bool-cases (same scope other)) [
            | inl h ↦
                let here : scope ≡ other = (same_iff scope other).0 h in
                subst (λ x. Move (laws.log s x) (laws.log s' x)) here
                  (subst (Move (laws.log s scope)) (sym grown)
                    (k e (record { objective = objective; class = class; type = type })))
            | inr h ↦
                subst (Move (laws.log s other))
                  (sym (laws.elsewhere f has s s' scope other j e q h)) still
          ]

  pub exhaustion-Move :
      (s : S) (scope o other : Text) (input : TerminalInput)
      → Move
          (laws.log s other)
          (laws.log ((record_budget_exhaustion store s scope o input).0) other)
  unfolding record_budget_exhaustion
  exhaustion-Move s scope o other input =
      elim (Answer-cases (derive_overhead_accounting store s scope o)) [
        | inr (r, h) ↦ simp (record_budget_exhaustion, h) still
        | inl (a, h) ↦
            let (count, present) = derived s scope o a h in
            elim (List-cases a.terminal_blocked_event_ids) [
              | inr (id, more, l) ↦ simp (record_budget_exhaustion, h, l) still
              | inl l ↦ elim (Bool-cases (ltb a.count governance_overhead_budget)) [
                | inl under ↦ simp (record_budget_exhaustion, h, l, under) still
                | inr over ↦ elim (Option-cases store.append) [
                  | inl lacks ↦ simp (record_budget_exhaustion, h, l, over, lacks) still
                  | inr (f, has) ↦
                      simp (record_budget_exhaustion, h, l, over, has)
                        (stored-Move f has s scope other (Json.object (terminal_event o input))
                          (λ e c.
                            let (q, t, n) = terminal_event-Copies o input e c in
                            blocked e t n
                              (subst (λ x. terminals x (laws.log s scope) ≡ 0) q
                                (sym present ∙ ap length l))
                              (subst (λ x. governance_overhead_budget ≤ spent x (laws.log s scope))
                                q (ground arith))))
                ]
              ]
            ]
      ]

  unless_blocked-Move :
      (s : S) (scope other o : Text) (result : S × Answer Guarded)
      → (terminals o (laws.log s scope) ≡ 0 → Move (laws.log s other) (laws.log (result.0) other))
      → Move (laws.log s other) (laws.log ((unless_blocked store s scope o result).0) other)
  unfolding unless_blocked
  unless_blocked-Move s scope other o result k =
      elim (Answer-cases (derive_overhead_accounting store s scope o)) [
        | inr (r, h) ↦ simp (unless_blocked, h) still
        | inl (a, h) ↦ elim (List-cases a.terminal_blocked_event_ids) [
          | inr (id, more, l) ↦ simp (unless_blocked, h, l) still
          | inl l ↦ simp (unless_blocked, h, l) (k (sym ((derived s scope o a h).1) ∙ ap length l))
        ]
      ]

  pub append-Move :
      (s : S) (scope other : Text) (j : Json)
      → same (candidate_field (text "event_class") j) (text "TERMINAL") ≡ false
      → Move
          (laws.log s other)
          (laws.log ((append_governance_overhead_event store s scope j).0) other)
  unfolding append_governance_overhead_event
  append-Move s scope other j plain = elim (Option-cases store.query) [
    | inl lacks ↦ simp (append_governance_overhead_event, lacks) still
    | inr (query, asks) ↦ elim (Option-cases store.append) [
      | inl lacks ↦ simp (append_governance_overhead_event, asks, lacks) still
      | inr (f, has) ↦ elim (Bool-cases (require_scope scope)) [
        | inr bad ↦ simp (append_governance_overhead_event, asks, has, bad) still
        | inl named ↦ elim (Bool-cases (governed_overhead j)) [
          | inr free_of ↦
              simp (append_governance_overhead_event, asks, has, named, free_of)
                (stored-Move f has s scope other j (λ e c.
                  noted e (not_terminal j e c plain)
                    (elim (not_governed j e c free_of) [ inl a ↦ inl a | inr b ↦ inr (inl b) ])))
          | inl governed ↦
              simp (append_governance_overhead_event, asks, has, named, governed)
                (unless_blocked-Move s scope other (candidate_field (text "stable_objective_id") j)
                  (stored (f s scope j))
                  (λ z. stored-Move f has s scope other j (λ e c.
                    noted e (not_terminal j e c plain) (
                      inr (
                        inr (
                          subst (λ x. terminals x (laws.log s scope) ≡ 0)
                            (candidate_field-of _ j _ c.objective) z))))))
        ]
      ]
    ]
  ]
