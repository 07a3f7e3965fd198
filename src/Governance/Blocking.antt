-- ===== src/Governance/Blocking.antt =====
-- src/protocol/governance.ts: sequences of calls of the two guards, and the blocking of objectives.
use odin_sentinel.Base.{
  ◌<◌, ◌≡◌, refl, false, List, [], ◌∷◌, Text, text, same, is_blank, All, ◌∙◌, Json, arith,
}
use odin_sentinel.Governance.Events.{Store, IsLog}
use odin_sentinel.Governance.Overhead.{
  TerminalInput, record_budget_exhaustion, candidate_field, append_governance_overhead_event,
}
use odin_sentinel.Governance.OneTerminal.{Move, spent, terminals, Guards, Move-Guards, Move-frozen}
use odin_sentinel.Governance.Calls.{exhaustion-Move, append-Move}

-- A call of the terminal guard, or of the append guard with a payload.
pub data Call : Type 0 where
  exhaustion : Text → Text → TerminalInput → Call
  overhead_append : Text → Json → Call

-- A payload for the append guard that is of any class but TERMINAL, which that guard passes through.
abbrev pub IsNonterminal : Call → Type 0
IsNonterminal (exhaustion scope o input) = Unit
IsNonterminal (overhead_append scope j) =
    same (candidate_field (text "event_class") j) (text "TERMINAL") ≡ false

module _ {S : Type 0} (store : Store S) where
  unfoldable pub after_call : Call → S → S
  unfolding record_budget_exhaustion append_governance_overhead_event
  after_call (exhaustion scope o input) s = (record_budget_exhaustion store s scope o input).0
  after_call (overhead_append scope j) s = (append_governance_overhead_event store s scope j).0

  unfoldable pub after_calls : List Call → S → S
  unfolding after_call
  after_calls [] s = s
  after_calls (c ∷ cs) s = after_calls cs (after_call c s)

module _ {S : Type 0} (store : Store S) (laws : IsLog S store) where
  call-Move :
      (c : Call) (s : S) (scope : Text)
      → IsNonterminal c
      → Move (laws.log s scope) (laws.log (after_call store c s) scope)
  unfolding after_call
  call-Move (exhaustion named o input) s scope h = exhaustion-Move store laws s named o scope input
  call-Move (overhead_append named j) s scope h = append-Move store laws s named scope j h

  -- Over every sequence of calls of the two guards on a store that keeps a log, the append guard with
  -- payloads of any class but TERMINAL: if a scope's log has one TERMINAL_BLOCKED event at most for each
  -- objective, and only for objectives with 25 overhead events or more, then it still does.
  pub after_calls-Guards :
      (calls : List Call) (s : S) (scope : Text)
      → All IsNonterminal calls
      → Guards (laws.log s scope)
      → Guards (laws.log (after_calls store calls s) scope)
  unfolding after_calls
  after_calls-Guards [] s scope h g = g
  after_calls-Guards (c ∷ cs) s scope (h, later) g =
      after_calls-Guards cs (after_call store c s) scope later (
        Move-Guards (laws.log s scope) (laws.log (after_call store c s) scope)
          (call-Move c s scope h) g)

  -- Over every sequence of calls of the two guards on a store that keeps a log, the append guard with
  -- payloads of any class but TERMINAL (which it passes through): an objective whose id is not blank and that has a
  -- TERMINAL_BLOCKED event in a scope's log keeps its number of these events and of overhead events.
  pub after_calls-frozen :
      (calls : List Call) (s : S) (scope o : Text)
      → All IsNonterminal calls
      → is_blank o ≡ false
      → 0 < terminals o (laws.log s scope)
      → (spent o (laws.log (after_calls store calls s) scope) ≡ spent o (laws.log s scope))
        × (terminals o (laws.log (after_calls store calls s) scope)
            ≡ terminals o (laws.log s scope))
  unfolding after_calls
  after_calls-frozen [] s scope o h named blocked = (refl, refl)
  after_calls-frozen (c ∷ cs) s scope o (h, later) named blocked =
      let next : S = after_call store c s in
      let (q1, q2) =
        Move-frozen (laws.log s scope) (laws.log next scope) (call-Move c s scope h) o named
          blocked in
      let (r1, r2) = after_calls-frozen cs next scope o later named (omega (arith, q2, blocked)) in
      (r1 ∙ q1, r2 ∙ q2)
