-- ===== src/Governance/OneTerminal.antt =====
-- src/protocol/governance.ts: what the two guards of the overhead budget do to a scope's log, over
-- every sequence of calls.
use odin_sentinel.Base.{
  ℕ, ◌+◌, ◌≤◌, ◌<◌, ◌≡◌, refl, ◌⊎◌, inl, inr, Bool, true, false, ◌&&◌, none, some, List, [], ◌∷◌,
  ◌++◌, Text, same, same_iff, is_blank, filter, filter-append, length, length-append, sym, subst,
  arith, Bool-cases, if◌then◌else◌,
}
use odin_sentinel.Governance.Events.{Event, agrees, matches}
use odin_sentinel.Governance.Attempts.{bump}
use odin_sentinel.Governance.Overhead.{
  overhead, is_overhead, is_terminal_blocked, governance_overhead_budget,
}

-- The events of one objective, and how many of them are overhead or terminal.
unfoldable pub of_objective : Text → List Event → List Event
unfolding matches
of_objective o log = filter (matches (record { objective = some o; class = none })) log

unfoldable pub spent : Text → List Event → ℕ
unfolding of_objective
spent o log = length (filter is_overhead (of_objective o log))

unfoldable pub terminals : Text → List Event → ℕ
unfolding of_objective
terminals o log = length (filter is_terminal_blocked (of_objective o log))

pub overhead-count :
    (es : List Event) (n : ℕ) (counts : List (Text × ℕ))
    → (overhead es n counts).count ≡ n + length (filter is_overhead es)
unfolding overhead
overhead-count [] n counts = omega arith
overhead-count (e ∷ es) n counts =
    ground
      (arith, overhead-count es n counts, overhead-count es (n + 1) (bump e.event_class counts))

pub overhead-terminals :
    (es : List Event) (n : ℕ) (counts : List (Text × ℕ))
    → length (overhead es n counts).terminal_blocked_event_ids
      ≡ length (filter is_terminal_blocked es)
unfolding overhead
overhead-terminals [] n counts = refl
overhead-terminals (e ∷ es) n counts = ground (
  arith,
  overhead-terminals es n counts,
  overhead-terminals es (n + 1) (bump e.event_class counts),
)

of_objective-append :
    (o : Text) (log : List Event) (e : Event)
    → of_objective o (log ++ (e ∷ []))
      ≡ of_objective o log
        ++ (if matches (record { objective = some o; class = none }) e then e ∷ [] else [])
unfolding of_objective
of_objective-append o log e =
    filter-append (matches (record { objective = some o; class = none })) log (e ∷ [])

matches-same :
    (o : Text) (e : Event)
    → matches (record { objective = some o; class = none }) e ≡ same o e.stable_objective_id
unfolding matches agrees
matches-same o e = ground arith

count-one :
    (p : Event → Bool) (xs : List Event) (b : Bool) (e : Event)
    → length (filter p (xs ++ (if b then e ∷ [] else [])))
      ≡ length (filter p xs) + (if b && p e then 1 else 0)
count-one p xs true e =
    simp (filter-append p xs (e ∷ []), length-append (filter p xs) (filter p (e ∷ [])))
      (ground arith)
count-one p xs false e = simp (filter-append p xs [], length-append (filter p xs) []) (omega arith)

-- How one more event changes a count over an objective's events.
counted-append :
    (p : Event → Bool) (o : Text) (log : List Event) (e : Event)
    → length (filter p (of_objective o (log ++ (e ∷ []))))
      ≡ length (filter p (of_objective o log))
        + (if same o e.stable_objective_id && p e then 1 else 0)
counted-append p o log e =
    simp (of_objective-append o log e, matches-same o e)
      (count-one p (of_objective o log) (same o e.stable_objective_id) e)

-- How a call may change the log: not at all, by a terminal event of an objective that has none and
-- whose budget is spent, or by another event, no overhead of an objective that is blocked.
pub data Move (log : List Event) : List Event → Type 0 where
  still : Move log log
  blocked :
      (e : Event)
      → is_terminal_blocked e ≡ true
      → is_overhead e ≡ false
      → terminals e.stable_objective_id log ≡ 0
      → governance_overhead_budget ≤ spent e.stable_objective_id log
      → Move log (log ++ (e ∷ []))
  noted :
      (e : Event)
      → is_terminal_blocked e ≡ false
      → (is_overhead e ≡ false)
        ⊎ (is_blank e.stable_objective_id ≡ true)
        ⊎ (terminals e.stable_objective_id log ≡ 0)
      → Move log (log ++ (e ∷ []))

-- One terminal event at most for each objective, and only where the budget is spent.
unfoldable pub Guards : List Event → Type 0
Guards log =
    (o : Text)
    → (terminals o log ≤ 1) × (0 < terminals o log → governance_overhead_budget ≤ spent o log)

pub Move-Guards : (log next : List Event) → Move log next → Guards log → Guards next
unfolding Guards terminals spent
Move-Guards log next still g o = g o
Move-Guards log next (blocked e t n z b) g o = elim (Bool-cases (same o e.stable_objective_id)) [
  | inl h ↦
      let q : e.stable_objective_id ≡ o = sym ((same_iff o e.stable_objective_id).0 h) in
      let none_yet : terminals o log ≡ 0 = subst (λ x. terminals x log ≡ 0) q z in
      let used : governance_overhead_budget ≤ spent o log =
        subst (λ x. governance_overhead_budget ≤ spent x log) q b in
      simp (counted-append is_terminal_blocked o log e, counted-append is_overhead o log e, h, t, n)
        (omega (arith, none_yet), λ h. omega (arith, used))
  | inr h ↦
      let (one, cause) = g o in
      simp (counted-append is_terminal_blocked o log e, counted-append is_overhead o log e, h)
        (omega (arith, one), λ k. omega (arith, cause (omega (arith, k))))
]
Move-Guards log next (noted e t n) g o =
    let (one, cause) = g o in
    elim (Bool-cases (same o e.stable_objective_id)) [
      | inl h ↦
          simp
            (counted-append is_terminal_blocked o log e, counted-append is_overhead o log e, t, h)
            (omega (arith, one), λ k. ground (arith, cause (omega (arith, k))))
      | inr h ↦
          simp
            (counted-append is_terminal_blocked o log e, counted-append is_overhead o log e, t, h)
            (omega (arith, one), λ k. omega (arith, cause (omega (arith, k))))
    ]

-- An objective that is blocked stays so, and gets no more overhead.
pub Move-frozen :
    (log next : List Event)
    → Move log next
    → (o : Text) → is_blank o ≡ false
    → 0 < terminals o log
    → (spent o next ≡ spent o log) × (terminals o next ≡ terminals o log)
unfolding terminals spent
Move-frozen log next still o c k = (refl, refl)
Move-frozen log next (blocked e t n z b) o c k = elim (Bool-cases (same o e.stable_objective_id)) [
  | inl h ↦
      let q : e.stable_objective_id ≡ o = sym ((same_iff o e.stable_objective_id).0 h) in
      let none_yet : terminals o log ≡ 0 = subst (λ x. terminals x log ≡ 0) q z in
      absurd (omega (arith, none_yet))
  | inr h ↦
      simp (counted-append is_terminal_blocked o log e, counted-append is_overhead o log e, h)
        (omega arith, omega arith)
]
Move-frozen log next (noted e t n) o c k = elim (Bool-cases (same o e.stable_objective_id)) [
  | inl h ↦
      let q : e.stable_objective_id ≡ o = sym ((same_iff o e.stable_objective_id).0 h) in
      elim n [
        | inl plain ↦
            simp
              (
                counted-append is_terminal_blocked o log e,
                counted-append is_overhead o log e,
                h,
                t,
                plain,
              )
              (omega arith, omega arith)
        | inr (inl blank) ↦
            let clash : is_blank o ≡ true = subst (λ x. is_blank x ≡ true) q blank in
            absurd (ground (arith, clash))
        | inr (inr z) ↦
            let none_yet : terminals o log ≡ 0 = subst (λ x. terminals x log ≡ 0) q z in
            absurd (omega (arith, none_yet))
      ]
  | inr h ↦
      simp (counted-append is_terminal_blocked o log e, counted-append is_overhead o log e, h)
        (omega arith, omega arith)
]
