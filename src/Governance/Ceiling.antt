-- ===== src/Governance/Ceiling.antt =====
-- src/protocol/governance.ts: the attempt ceiling and the attempts in the log.
use odin_sentinel.Base.{
  ℕ, ◌+◌, ◌≤◌, ◌<◌, ◌≡◌, refl, inl, inr, ◌&&◌, Option, some, List, [], ◌∷◌, Text, text, same,
  same_comm, filter, length, leb, ap, sym, ◌∙◌, subst, arith, Bool-cases, if◌then◌else◌,
}
use odin_sentinel.Governance.Events.{Event, ok, Store, IsLog, agrees, matches, Query}
use odin_sentinel.Governance.Attempts.{
  Accounting, accounting, tally, bump, attempt_trigger_key, is_attempt_increment, Verdict,
  permitted, refusal, attempt_ceiling, normalized_trigger, derive_attempt_accounting,
  evaluate_attempt_ceiling,
}
use odin_sentinel.Governance.Log.{then_ask-ok, ask-ok, ok-injective}

pub total : List (Text × ℕ) → ℕ
total [] = 0
total ((k, n) ∷ rest) = n + total rest

total-bump : (k : Text) (counts : List (Text × ℕ)) → total (bump k counts) ≡ total counts + 1
unfolding bump total
total-bump k [] = omega arith
total-bump k ((j, n) ∷ rest) = ground (arith, total-bump k rest)

tally-count :
    (es : List Event) (a : Accounting)
    → (tally es a).count ≡ a.count + length (filter is_attempt_increment es)
unfolding tally
tally-count [] a = omega arith
tally-count (e ∷ es) a = ground (
  arith,
  tally-count es a,
  tally-count es (accounting (a.count + 1) (bump (attempt_trigger_key e) a.per_trigger)),
)

tally-total :
    (es : List Event) (a : Accounting)
    → total (tally es a).per_trigger ≡ total a.per_trigger + length (filter is_attempt_increment es)
unfolding tally
tally-total [] a = omega arith
tally-total (e ∷ es) a = ground (
  arith,
  tally-total es a,
  tally-total es (accounting (a.count + 1) (bump (attempt_trigger_key e) a.per_trigger)),
  total-bump (attempt_trigger_key e) a.per_trigger,
)

-- How many attempts a log has for an objective.
unfoldable pub attempts : Text → List Event → ℕ
attempts o [] = 0
attempts o (e ∷ es) =
    let rest = attempts o es in
    if same o e.stable_objective_id && is_attempt_increment e then rest + 1 else rest

abbrev attempt_query : Text → Query
attempt_query o = record { objective = some o; class = some (text "ATTEMPT") }

attempts-filter :
    (o : Text) (log : List Event)
    → length (filter is_attempt_increment (filter (matches (attempt_query o)) log)) ≡ attempts o log
unfolding attempts matches agrees is_attempt_increment
attempts-filter o [] = refl
attempts-filter o (e ∷ es) =
    ground (arith, attempts-filter o es, same_comm (text "ATTEMPT") e.event_class)

-- What a verdict says when the log has `n` attempts.
pub Decides : Verdict → ℕ → Type 0
Decides (permitted index trigger) n = (index ≡ n + 1) × (n < 3)
Decides (refusal index trigger) n = (index ≡ n + 1) × (3 ≤ n)

abbrev decide : ℕ → Option Text → Verdict
decide count trigger =
    if leb (count + 1) attempt_ceiling
    then permitted (count + 1) (normalized_trigger trigger)
    else refusal (count + 1) (normalized_trigger trigger)

decide-Decides :
    (count n : ℕ) (trigger : Option Text) → count ≡ n → Decides (decide count trigger) n
unfolding Decides
decide-Decides count n trigger q = elim (Bool-cases (leb (count + 1) attempt_ceiling)) [
  | inl h ↦ simp (h) (omega (arith, q), ground (arith, q))
  | inr h ↦ simp (h) (omega (arith, q), ground (arith, q))
]

module _ {S : Type 0} (store : Store S) (laws : IsLog S store) where
  derive-count :
      (s : S) (scope o : Text) (a : Accounting)
      → derive_attempt_accounting store s scope o ≡ ok a
      → (a.count ≡ attempts o (laws.log s scope)) × (total a.per_trigger ≡ a.count)
  unfolding derive_attempt_accounting total
  derive-count s scope o a e =
      let (events, asked, e1) = then_ask-ok _ _ a e in
      let q : events ≡ filter (matches (attempt_query o)) (laws.log s scope) =
        ask-ok store laws s scope _ _ _ events asked in
      let kept : List Event = filter (matches (attempt_query o)) (laws.log s scope) in
      let w : tally kept (accounting 0 []) ≡ a =
        ap (λ x. tally x (accounting 0 [])) (sym q) ∙ ok-injective _ _ e1 in
      let counts : (tally kept (accounting 0 [])).count
          ≡ length (filter is_attempt_increment kept) =
        omega (arith, tally-count kept (accounting 0 [])) in
      let totals : total (tally kept (accounting 0 [])).per_trigger
          ≡ length (filter is_attempt_increment kept) =
        omega (arith, tally-total kept (accounting 0 [])) in
      subst (λ x. (x.count ≡ attempts o (laws.log s scope)) × (total x.per_trigger ≡ x.count)) w
        (counts ∙ attempts-filter o (laws.log s scope), totals ∙ sym counts)

  -- For a store that keeps a log: an attempt is permitted if the log has fewer than three attempts
  -- for the objective, and is refused if it has three or more, whatever the trigger; its index is one
  -- more than that number, and the counts by trigger add up to it.
  pub evaluate_attempt_ceiling-ok :
      (s : S) (scope o : Text) (trigger : Option Text) (v : Verdict) (a : Accounting)
      → evaluate_attempt_ceiling store s scope o trigger ≡ ok (v, a)
      → Decides v (attempts o (laws.log s scope))
        × (a.count ≡ attempts o (laws.log s scope))
        × (total a.per_trigger ≡ attempts o (laws.log s scope))
  unfolding evaluate_attempt_ceiling
  evaluate_attempt_ceiling-ok s scope o trigger v a e =
      let (b, derived, e1) = then_ask-ok _ _ (v, a) e in
      let (count, sum) = derive-count s scope o b derived in
      let both : (decide b.count trigger, b) ≡ (v, a) = ok-injective _ _ e1 in
      let (counted, summed) =
        subst
          (λ x.
            (x.count ≡ attempts o (laws.log s scope))
            × (total x.per_trigger ≡ attempts o (laws.log s scope)))
          (ap (λ x. x.1) both) (count, sum ∙ count) in
      (
        subst (λ x. Decides x (attempts o (laws.log s scope))) (ap (λ x. x.0) both)
            (decide-Decides b.count (attempts o (laws.log s scope)) trigger count),
        counted,
        summed,
      )
