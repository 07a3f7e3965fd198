-- ===== src/Registry/Compact/Keeping.antt =====
-- src/protocol/event-registry/compact.ts: what a compaction keeps.
use odin_sentinel.Base.{
  ℕ, suc, ◌≡◌, refl, inl, inr, Bool, true, false, not, none, some, List, [], ◌∷◌, map, Text, ap,
  sym, ◌∙◌, subst, arith, Json, is_empty, filter, Bool-cases, Option-cases,
}
use odin_sentinel.Registry.Schema.{GovdispEvent}
use odin_sentinel.Registry.Lines.{split_log_lines}
use odin_sentinel.Registry.Rejections.{
  EventRejection, Result, done, rejected, Library, validate_govdisp_event,
}
use odin_sentinel.Registry.Storage.{numbered, read_value, read_line}
use odin_sentinel.Registry.Query.{unless_rejected-done}
use odin_sentinel.Registry.Appending.{IsLibrary, done-injective, rejected-ne-done}
use odin_sentinel.Registry.Reading.{read_value-rejected, some_rejected, done-ne-rejected}
use odin_sentinel.Registry.Compact.{
  Clock, Ttl, ParsedLine, Plan, is_compacted, parted, timed, parse_line, add_parsed, parse_lines,
  summary_event, compacted_text, summarized, plan_of, plan_compaction,
}

-- Parting a list is filtering it twice.
parted-filter :
    (old : ParsedLine → Bool) (ps : List ParsedLine)
    → ((parted old ps).0 ≡ filter (λ p. not (old p)) ps) × ((parted old ps).1 ≡ filter old ps)
unfolding parted
parted-filter old [] = (refl, refl)
parted-filter old (p ∷ ps) =
    let (a, b) = parted-filter old ps in
    elim (Bool-cases (old p)) [
      | inl h ↦ simp (parted, h) (a, ap (λ x. p ∷ x) b)
      | inr h ↦ simp (parted, h) (ap (λ x. p ∷ x) a, b)
    ]

module _ (lib : Library) (laws : IsLibrary lib) (clock : Clock) where
  -- Each line is parsed to its event and the event's age.
  abbrev pub Parses : ℕ → List Text → List ParsedLine → Type 0
  Parses n [] [] = Unit
  Parses n [] (p ∷ ps) = true ≡ false
  Parses n (line ∷ lines) [] = true ≡ false
  Parses n (line ∷ lines) (p ∷ ps) =
      (p.line ≡ line)
      × (read_line lib n line ≡ done p.event)
      × (clock.date_parse p.event.head.ts ≡ some p.event_ms)
      × Parses (suc n) lines ps

  timed-done :
      (n : ℕ) (line : Text) (r : Result GovdispEvent) (p : ParsedLine)
      → timed lib clock n line r ≡ done p
      → (p.line ≡ line) × (r ≡ done p.event) × (clock.date_parse p.event.head.ts ≡ some p.event_ms)
  unfolding timed
  timed-done n line (rejected r) p h = rejected-ne-done r p h
  timed-done n line (done e) p h = elim (Option-cases (clock.date_parse e.head.ts)) [
    | inl q ↦ rejected-ne-done _ p (simp (timed, q) at h)
    | inr (ms, q) ↦
        let s = done-injective _ p (simp (timed, q) at h) in
        (
          sym (ap (λ x. x.line) s),
          ap (λ x. done x.event) s,
          ap (λ x. clock.date_parse x.event.head.ts) (sym s) ∙ q ∙ ap (λ x. some x.event_ms) s,
        )
  ]

  parse_line-done :
      (n : ℕ) (line : Text) (p : ParsedLine)
      → parse_line lib clock n line ≡ done p
      → (p.line ≡ line)
        × (read_line lib n line ≡ done p.event)
        × (clock.date_parse p.event.head.ts ≡ some p.event_ms)
  unfolding parse_line read_line read_value
  parse_line-done n line p h = elim (Option-cases (lib.json_parse line)) [
    | inl q ↦ rejected-ne-done _ p (simp (parse_line, q) at h)
    | inr (v, q) ↦
        simp (read_line, q)
          (timed-done n line (numbered lib n (validate_govdisp_event lib v)) p
            (simp (parse_line, q) at h))
  ]

  timed-rejected :
      (n : ℕ) (line : Text) (v : Json) (x : Result GovdispEvent) (r : List EventRejection)
      → numbered lib n (validate_govdisp_event lib v) ≡ x
      → timed lib clock n line x ≡ rejected r
      → is_empty r ≡ false
  unfolding timed read_value
  timed-rejected n line v (rejected y) r q h =
      some_rejected _ r h (read_value-rejected lib laws n (some v) y q)
  timed-rejected n line v (done e) r q h = elim (Option-cases (clock.date_parse e.head.ts)) [
    | inl c ↦ some_rejected _ r (simp (timed, c) at h) refl
    | inr (ms, c) ↦ done-ne-rejected _ r (simp (timed, c) at h)
  ]

  parse_line-rejected :
      (n : ℕ) (line : Text) (r : List EventRejection)
      → parse_line lib clock n line ≡ rejected r
      → is_empty r ≡ false
  unfolding parse_line
  parse_line-rejected n line r h = elim (Option-cases (lib.json_parse line)) [
    | inl c ↦ some_rejected _ r (simp (parse_line, c) at h) refl
    | inr (v, c) ↦ timed-rejected n line v _ r refl (simp (parse_line, c) at h)
  ]

  parse_lines-Parses :
      (n : ℕ) (lines : List Text)
      → (parse_lines lib clock n lines).1 ≡ []
      → Parses n lines ((parse_lines lib clock n lines).0)
  unfolding parse_lines add_parsed
  parse_lines-Parses n [] h = tt
  parse_lines-Parses n (line ∷ rest) h =
      go (parse_line lib clock n line) refl h (parse_lines-Parses (suc n) rest)
    where
      go :
          (a : Result ParsedLine)
          → parse_line lib clock n line ≡ a
          → (add_parsed lib clock a (parse_lines lib clock (suc n) rest)).1 ≡ []
          → ((parse_lines lib clock (suc n) rest).1 ≡ []
              → Parses (suc n) rest ((parse_lines lib clock (suc n) rest).0))
          → Parses n (line ∷ rest) ((add_parsed lib clock a (parse_lines lib clock (suc n) rest)).0)
      go (done p) q h further = let (a, b, c) = parse_line-done n line p q in (a, b, c, further h)
      go (rejected []) q h further = ground (arith, parse_line-rejected n line [] q)
      go (rejected (x ∷ xs)) q h further = ground (arith, ap is_empty h)

  summarized-kept :
      (t : Text) (kept : List Text) (removed : List ParsedLine) (s : GovdispEvent)
      (v : Result GovdispEvent) (plan : Plan)
      → summarized lib clock t kept removed s v ≡ done plan
      → (plan.kept_lines ≡ kept)
        × (plan.removed ≡ removed)
        × (plan.new_text ≡ some (compacted_text lib clock kept s))
        × (plan.summary ≡ some s)
  unfolding summarized
  summarized-kept t kept removed s (done e) plan h =
      let q = sym (done-injective _ plan h) in
      (
        ap (λ x. x.kept_lines) q,
        ap (λ x. x.removed) q,
        ap (λ x. x.new_text) q,
        ap (λ x. x.summary) q,
      )
  summarized-kept t kept removed s (rejected r) plan h = rejected-ne-done r plan h

  -- What a plan writes: nothing where nothing is removed, or the kept lines and the summary.
  abbrev pub Writes : Text → Text → List Text → List ParsedLine → Plan → Type 0
  Writes scope now kept [] plan = (plan.new_text ≡ none) × (plan.summary ≡ none)
  Writes scope now kept (r ∷ rest) plan =
      (plan.new_text
        ≡ some (compacted_text lib clock kept (summary_event lib clock scope now (r ∷ rest))))
      × (plan.summary ≡ some (summary_event lib clock scope now (r ∷ rest)))

  plan_of-Writes :
      (scope t now : Text) (kept removed : List ParsedLine) (plan : Plan)
      → plan_of lib clock scope t now (kept, removed) ≡ done plan
      → (plan.kept_lines ≡ map (λ p. p.line) kept)
        × (plan.removed ≡ removed)
        × Writes scope now (map (λ p. p.line) kept) removed plan
  unfolding plan_of
  plan_of-Writes scope t now kept [] plan h =
      let q = sym (done-injective _ plan h) in
      (
        ap (λ x. x.kept_lines) q,
        ap (λ x. x.removed) q,
        (ap (λ x. x.new_text) q, ap (λ x. x.summary) q),
      )
  plan_of-Writes scope t now kept (r ∷ rest) plan h =
      let (a, b, c, d) = summarized-kept t _ (r ∷ rest) _ _ plan h in (a, b, (c, d))

  -- What a compaction keeps and removes: every line of the log is parsed; those removed are, in their
  -- order, the ones that are not TERMINAL and strictly older than the cutoff of their class, and all
  -- others are kept as they stand.
  pub record Keeps (scope t now : Text) (now_ms : ℕ) (ttl : Ttl) (plan : Plan) : Type 0 where
    pub parsed : List ParsedLine
    pub parses : Parses 1 (split_log_lines t) parsed
    pub removes : plan.removed ≡ filter (is_compacted ttl now_ms) parsed
    pub keeps :
        plan.kept_lines ≡ map (λ p. p.line) (filter (λ p. not (is_compacted ttl now_ms p)) parsed)
    pub writes : Writes scope now plan.kept_lines plan.removed plan

  pub plan_compaction-Keeps :
      (scope t now : Text) (now_ms : ℕ) (ttl : Ttl) (plan : Plan)
      → plan_compaction lib clock scope t now now_ms ttl ≡ done plan
      → Keeps scope t now now_ms ttl plan
  unfolding plan_compaction
  plan_compaction-Keeps scope t now now_ms ttl plan h =
      let (sound, h1) =
        unless_rejected-done lib ((parse_lines lib clock 1 (split_log_lines t)).1) _ plan h in
      let old = is_compacted ttl now_ms in
      let parsed = (parse_lines lib clock 1 (split_log_lines t)).0 in
      let (a, b, c) = plan_of-Writes scope t now _ _ plan h1 in
      let (p, q) = parted-filter old parsed in
      record {
        parsed = parsed;
        parses = parse_lines-Parses 1 (split_log_lines t) sound;
        removes = b ∙ q;
        keeps = a ∙ ap (map (λ x. x.line)) p;
        writes =
            subst (λ x. Writes scope now x plan.removed plan) (sym a)
              (subst (λ x. Writes scope now (map (λ p. p.line) ((parted old parsed).0)) x plan)
                (sym b) c);
      }
