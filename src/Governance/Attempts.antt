-- ===== src/Governance/Attempts.antt =====
-- src/protocol/governance.ts: attempt accounting and the attempt ceiling.
use odin_sentinel.Base.{
  ℕ, ◌+◌, Bool, not, ◌&&◌, ◌||◌, Option, none, some, List, [], ◌∷◌, Text, text, same, is_blank, any,
  leb, if◌then◌else◌,
}
use odin_sentinel.Governance.Events.{Event, Answer, ok, Store, then_ask, ask, invalid_objective}

abbrev pub attempt_ceiling : ℕ
attempt_ceiling = 3

abbrev attempt_trigger_values : List Text
attempt_trigger_values =
    text "start" ∷ text "reset" ∷ text "restaff" ∷ text "rename" ∷ text "cure" ∷ text "rerun" ∷ []

-- values.includes(t)
unfoldable pub listed : List Text → Text → Bool
unfolding same
listed values t = any (same t) values

unfoldable pub is_attempt_increment : Event → Bool
unfolding same
is_attempt_increment e =
    same e.event_class (text "ATTEMPT")
    && (same e.event_type (text "ATTEMPT_STARTED") || same e.event_type (text "ATTEMPT_COUNTED"))

unfoldable pub normalized_trigger : Option Text → Text
unfolding listed
normalized_trigger none = text "unknown"
normalized_trigger (some t) = if listed attempt_trigger_values t then t else text "unknown"

unfoldable pub attempt_trigger_key : Event → Text
unfolding normalized_trigger same
attempt_trigger_key e =
    if same e.event_class (text "ATTEMPT") then normalized_trigger e.trigger else text "unknown"

-- counts[key] = (counts[key] ?? 0) + 1, for counts in the order of their first increments.
unfoldable pub bump : Text → List (Text × ℕ) → List (Text × ℕ)
unfolding same
bump key [] = (key, 1) ∷ []
bump key ((k, n) ∷ rest) =
    let later = bump key rest in if same k key then (k, n + 1) ∷ rest else (k, n) ∷ later

pub record Accounting : Type 0 where
  pub count : ℕ
  pub per_trigger : List (Text × ℕ)

abbrev pub accounting : ℕ → List (Text × ℕ) → Accounting
accounting count per_trigger = record { count = count; per_trigger = per_trigger }

-- The loop over the events, `acc` so far.
unfoldable pub tally : List Event → Accounting → Accounting
unfolding is_attempt_increment attempt_trigger_key bump
tally [] acc = acc
tally (e ∷ es) acc =
    let counted =
      tally es (accounting (acc.count + 1) (bump (attempt_trigger_key e) acc.per_trigger)) in
    let skipped = tally es acc in if is_attempt_increment e then counted else skipped

pub data Verdict : Type 0 where
  permitted : ℕ → Text → Verdict
  refusal : ℕ → Text → Verdict

module _ {S : Type 0} (store : Store S) where
  unfoldable pub derive_attempt_accounting : S → Text → Text → Answer Accounting
  unfolding tally ask then_ask is_blank
  derive_attempt_accounting s scope objective =
      then_ask
        (ask store s scope (not (is_blank objective)) invalid_objective
          (record { objective = some objective; class = some (text "ATTEMPT") }))
        (λ events. ok (tally events (accounting 0 [])))

  -- The verdict carries the index of the attempt and its trigger.
  unfoldable pub evaluate_attempt_ceiling :
      S → Text → Text → Option Text → Answer (Verdict × Accounting)
  unfolding derive_attempt_accounting then_ask normalized_trigger
  evaluate_attempt_ceiling s scope objective trigger =
      then_ask (derive_attempt_accounting s scope objective) (λ a.
        let index : ℕ = a.count + 1 in
        ok (
          if leb index attempt_ceiling
              then permitted index (normalized_trigger trigger)
              else refusal index (normalized_trigger trigger),
          a,
        ))
