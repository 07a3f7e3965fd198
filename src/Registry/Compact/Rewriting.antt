-- ===== src/Registry/Compact/Rewriting.antt =====
-- src/protocol/event-registry/compact.ts: the compacted log, read again.
use odin_sentinel.Base.{
  ℕ, suc, ◌≡◌, refl, inl, inr, Bool, false, not, some, List, [], ◌∷◌, ◌++◌, map, Text, ap, sym, ◌∙◌,
  subst, arith, Json, is_empty, filter, Bool-cases, Option-cases, All, split, push_head, ◌==◌,
}
use mathlib.Core.Option.{some-injective}
use odin_sentinel.Registry.Schema.{GovdispEvent, one_of}
use odin_sentinel.Registry.Event.{event_fields}
use odin_sentinel.Registry.Event.WellFormed.{IsNamed, IsHash, IsEvent, parse_event-IsParsed}
use odin_sentinel.Registry.Lines.{
  split_log_lines, pop_empty, IsOneLine, split-append, split-one, split_log_lines-end,
}
use odin_sentinel.Registry.Rejections.{
  Result, done, rejected, Library, join, validate_govdisp_event,
}
use odin_sentinel.Registry.Storage.{numbered, read_value, read_line, read_text}
use odin_sentinel.Registry.Appending.{IsLibrary, rejected-ne-done, validate_govdisp_event-done}
use odin_sentinel.Registry.Reading.{Reads, read_line-event_line}
use odin_sentinel.Registry.Log.{read_text-Reads}
use odin_sentinel.Registry.Compact.{
  Clock, Ttl, ParsedLine, Plan, is_compacted, content_hashes_of, summary_event, compacted_text,
  plan_compaction,
}
use odin_sentinel.Registry.Compact.Keeping.{Parses, Writes, Keeps, plan_compaction-Keeps}

-- The digest of a text is not empty.
pub record IsClock (clock : Clock) : Type 0 where
  pub digest : (t : Text) → is_empty (clock.sha256 t) ≡ false

-- Lines, joined and split again.
split-join :
    (x : Text) (xs : List Text)
    → All IsOneLine (x ∷ xs)
    → split 10 (join (10 ∷ []) (x ∷ xs)) ≡ x ∷ xs
unfolding join
split-join x [] (h, t) = split-one x h
split-join x (y ∷ ys) (h, t) =
    split-append x (join (10 ∷ []) (y ∷ ys))
    ∙ ap (λ z. z ++ split 10 (join (10 ∷ []) (y ∷ ys))) (split-one x h)
    ∙ ap (λ z. x ∷ z) (split-join y ys t)

push_head-IsOneLine :
    (c : ℕ) (xs : List Text) → (c == 10) ≡ false → All IsOneLine xs → All IsOneLine (push_head c xs)
unfolding push_head
push_head-IsOneLine c [] h a = (ground (arith, h), tt)
push_head-IsOneLine c (x ∷ xs) h (p, a) = (ground (arith, h, p), a)

split-IsOneLine : (t : Text) → All IsOneLine (split 10 t)
unfolding split
split-IsOneLine [] = (refl, tt)
split-IsOneLine (c ∷ cs) = elim (Bool-cases (c == 10)) [
  | inl h ↦ simp h (refl, split-IsOneLine cs)
  | inr h ↦ simp h (push_head-IsOneLine c (split 10 cs) h (split-IsOneLine cs))
]

pop_empty-IsOneLine : (xs : List Text) → All IsOneLine xs → All IsOneLine (pop_empty xs)
unfolding pop_empty
pop_empty-IsOneLine [] a = a
pop_empty-IsOneLine (x ∷ []) a = elim (Bool-cases (is_empty x)) [
  | inl h ↦ simp h tt
  | inr h ↦ simp h a
]
pop_empty-IsOneLine (x ∷ y ∷ rest) (p, a) = (p, pop_empty-IsOneLine (y ∷ rest) a)

module _ (lib : Library) (laws : IsLibrary lib) (clock : Clock) where
  -- A line that stands by itself: it reads as its event wherever it stands.
  abbrev Stands : ParsedLine → Type 0
  Stands p = IsOneLine p.line × ((n : ℕ) → read_line lib n p.line ≡ done p.event) × IsEvent p.event

  numbered-done :
      (n : ℕ) (v : Result GovdispEvent) (e : GovdispEvent) → numbered lib n v ≡ done e → v ≡ done e
  unfolding numbered
  numbered-done n (done d) e h = h
  numbered-done n (rejected r) e h = rejected-ne-done _ e h

  read_line-anywhere :
      (n : ℕ) (line : Text) (e : GovdispEvent)
      → read_line lib n line ≡ done e
      → ((k : ℕ) → read_line lib k line ≡ done e) × IsEvent e
  unfolding read_line read_value numbered
  read_line-anywhere n line e h = elim (Option-cases (lib.json_parse line)) [
    | inl c ↦ rejected-ne-done _ e (simp (read_line, c) at h)
    | inr (v, c) ↦
        let q = numbered-done n (validate_govdisp_event lib v) e (simp (read_line, c) at h) in
        let (f, o, parsed) = validate_govdisp_event-done lib v e q in
        (
          λ k. simp (read_line, c, q) refl,
          (parse_event-IsParsed f e (sym (laws.schema f) ∙ parsed)).allowed,
        )
  ]

  Parses-Stands :
      (n : ℕ) (lines : List Text) (ps : List ParsedLine)
      → All IsOneLine lines
      → Parses lib laws clock n lines ps
      → All Stands ps
  Parses-Stands n [] [] a h = tt
  Parses-Stands n [] (p ∷ ps) a h = ground arith
  Parses-Stands n (line ∷ lines) [] a h = ground arith
  Parses-Stands n (line ∷ lines) (p ∷ ps) (one, a) (q, r, t, h) =
      let (anywhere, allowed) = read_line-anywhere n line p.event r in
      (
        (subst IsOneLine (sym q) one, λ k. ap (read_line lib k) q ∙ anywhere k, allowed),
        Parses-Stands (suc n) lines ps a h,
      )

  filter-Stands :
      (p : ParsedLine → Bool) (ps : List ParsedLine) → All Stands ps → All Stands (filter p ps)
  filter-Stands p [] a = tt
  filter-Stands p (x ∷ ps) (h, a) = elim (Bool-cases (p x)) [
    | inl c ↦ simp c (h, filter-Stands p ps a)
    | inr c ↦ simp c (filter-Stands p ps a)
  ]

  -- Standing lines and one more, as a list of lines that reads.
  Stands-Reads :
      (n : ℕ) (ps : List ParsedLine) (line : Text) (e : GovdispEvent)
      → All Stands ps
      → ((k : ℕ) → read_line lib k line ≡ done e)
      → Reads lib laws n (map (λ p. p.line) ps ++ (line ∷ [])) (map (λ p. p.event) ps ++ (e ∷ []))
  Stands-Reads n [] line e a h = (h n, tt)
  Stands-Reads n (p ∷ ps) line e ((one, r, v), a) h = (r n, Stands-Reads (suc n) ps line e a h)

  Stands-IsOneLine :
      (ps : List ParsedLine) (line : Text)
      → All Stands ps
      → IsOneLine line
      → All IsOneLine (map (λ p. p.line) ps ++ (line ∷ []))
  Stands-IsOneLine [] line a h = (h, tt)
  Stands-IsOneLine (p ∷ ps) line ((one, r, v), a) h = (one, Stands-IsOneLine ps line a h)

  joined-lines :
      (xs : List Text) (line : Text)
      → All IsOneLine (xs ++ (line ∷ []))
      → split_log_lines (join (10 ∷ []) (xs ++ (line ∷ [])) ++ (10 ∷ [])) ≡ xs ++ (line ∷ [])
  joined-lines [] line a = split_log_lines-end _ ∙ split-join line [] a
  joined-lines (x ∷ xs) line a = split_log_lines-end _ ∙ split-join x (xs ++ (line ∷ [])) a

  module _ (valid : IsClock clock) where
    hashes-named :
        (ps : List ParsedLine) → All Stands ps → All IsHash (content_hashes_of lib clock ps)
    unfolding content_hashes_of
    hashes-named [] a = tt
    hashes-named (p ∷ ps) ((one, r, v), a) = ((v.0.0, valid.digest p.line), hashes-named ps a)

    summary_event-IsEvent :
        (scope now : Text) (r : ParsedLine) (rest : List ParsedLine)
        → IsNamed scope
        → IsNamed now
        → All Stands (r ∷ rest)
        → IsEvent (summary_event lib clock scope now (r ∷ rest))
    unfolding summary_event content_hashes_of one_of
    summary_event-IsEvent scope now r rest s n a =
        ((refl, n, s, tt), (refl, refl, hashes-named (r ∷ rest) a))

    compacted-Reads :
        (scope now : Text) (kept : List ParsedLine) (r : ParsedLine) (rest : List ParsedLine)
        → IsNamed scope
        → IsNamed now
        → All Stands kept
        → All Stands (r ∷ rest)
        → read_text lib (
            compacted_text lib clock
              (map (λ p. p.line) kept)
              (summary_event lib clock scope now (r ∷ rest)))
          ≡ done (map (λ p. p.event) kept ++ (summary_event lib clock scope now (r ∷ rest) ∷ []))
    unfolding compacted_text
    compacted-Reads scope now kept r rest s n a b =
        let e = summary_event lib clock scope now (r ∷ rest) in
        let allowed = summary_event-IsEvent scope now r rest s n b in
        let line = lib.json_text (Json.object (event_fields e)) in
        let lines = map (λ p. p.line) kept in
        let events = map (λ p. p.event) kept ++ (e ∷ []) in
        (read_text-Reads lib laws _ events).1 (
          subst (λ x. Reads lib laws 1 x events)
            (sym (joined-lines lines line (Stands-IsOneLine kept line a (laws.one_line e allowed))))
            (Stands-Reads 1 kept line e a (λ k. read_line-event_line lib laws k e allowed)))

    -- A plan that writes: the new text reads as the events that are kept, in their order, and then
    -- the summary.
    pub plan_compaction-rereads :
        (scope t now : Text) (now_ms : ℕ) (ttl : Ttl) (plan : Plan) (after : Text)
        → IsNamed scope
        → IsNamed now
        → plan_compaction lib clock scope t now now_ms ttl ≡ done plan
        → plan.new_text ≡ some after
        → (parsed : List ParsedLine) × Parses lib laws clock 1 (split_log_lines t) parsed
          × ((summary : GovdispEvent) × (plan.summary ≡ some summary)
              × (read_text lib after
                  ≡ done (
                      map (λ p. p.event) (filter (λ p. not (is_compacted ttl now_ms p)) parsed)
                      ++ (summary ∷ []))))
    unfolding split_log_lines
    plan_compaction-rereads scope t now now_ms ttl plan after s n h new =
        (k.parsed, k.parses, go (filter (is_compacted ttl now_ms) k.parsed) refl written)
      where
        k : Keeps lib laws clock scope t now now_ms ttl plan
        k = plan_compaction-Keeps lib laws clock scope t now now_ms ttl plan h

        kept : List ParsedLine
        kept = filter (λ p. not (is_compacted ttl now_ms p)) k.parsed

        written :
            Writes lib laws clock scope now
              (map (λ p. p.line) kept)
              (filter (is_compacted ttl now_ms) k.parsed)
              plan
        written =
            subst
              (λ x.
                Writes lib laws clock scope now x (filter (is_compacted ttl now_ms) k.parsed) plan)
              k.keeps
              (subst (λ x. Writes lib laws clock scope now plan.kept_lines x plan) k.removes
                k.writes)

        stands : All Stands k.parsed
        stands =
            Parses-Stands 1 (split_log_lines t) k.parsed
              (pop_empty-IsOneLine (split 10 t) (split-IsOneLine t)) k.parses

        go :
            (removed : List ParsedLine)
            → filter (is_compacted ttl now_ms) k.parsed ≡ removed
            → Writes lib laws clock scope now (map (λ p. p.line) kept) removed plan
            → (summary : GovdispEvent) × (plan.summary ≡ some summary)
              × (read_text lib after ≡ done (map (λ p. p.event) kept ++ (summary ∷ [])))
        go [] q (w, v) = ground (arith, sym w ∙ new)
        go (r ∷ rest) q (w, v) = (
          summary_event lib clock scope now (r ∷ rest),
          v,
          ap (read_text lib) (some-injective _ _ (sym new ∙ w))
              ∙ compacted-Reads scope now kept r rest s n
                  (filter-Stands (λ p. not (is_compacted ttl now_ms p)) k.parsed stands)
                  (subst (All Stands) q (filter-Stands (is_compacted ttl now_ms) k.parsed stands)),
        )
