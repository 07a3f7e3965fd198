-- ===== src/Registry/Reading.antt =====
-- src/protocol/event-registry/storage.ts: what a read says of the lines, and a read after an append.
use odin_sentinel.Base.{
  ℕ, suc, ◌≡◌, refl, inl, inr, true, false, Option, none, some, List, [], ◌∷◌, ◌++◌, Text, ap, sym,
  subst, arith, Json, Fields, is_empty, List-cases,
}
use odin_sentinel.Registry.Schema.{GovdispEvent}
use odin_sentinel.Registry.Event.{event_fields}
use odin_sentinel.Registry.Event.WellFormed.{IsEvent}
use odin_sentinel.Registry.Event.RoundTrip.{parse_event-event_fields}
use odin_sentinel.Registry.Rejections.{
  EventRejection, Result, done, rejected, Library, validated, validate_govdisp_event,
}
use odin_sentinel.Registry.Storage.{numbered, read_value, read_line, add_line, read_lines}
use odin_sentinel.Registry.Appending.{IsLibrary, rejected-ne-done}

rejections_of {ℓ} : {A : Type ℓ} → Result A → List EventRejection
rejections_of (done x) = []
rejections_of (rejected r) = r

-- An answer that is accepted is not refused.
pub done-ne-rejected {ℓ κ} :
    {A : Type ℓ} {C : Type κ} (x : A) (r : List EventRejection) → done x ≡ rejected r → C
done-ne-rejected x r h = rejected-ne-done r x (sym h)

pub some_rejected {ℓ} :
    {A : Type ℓ} (r s : List EventRejection)
    → ◌≡◌ {A = Result A} (rejected r) (rejected s)
    → is_empty r ≡ false
    → is_empty s ≡ false
unfolding rejections_of
some_rejected r s h q = subst (λ x. is_empty x ≡ false) (ap rejections_of h) q

module _ (lib : Library) (laws : IsLibrary lib) where
  -- The line of an event that the schema allows reads back as the event.
  pub read_line-event_line :
      (n : ℕ) (e : GovdispEvent)
      → IsEvent e
      → read_line lib n (lib.json_text (Json.object (event_fields e))) ≡ done e
  unfolding read_line read_value numbered validate_govdisp_event validated
  read_line-event_line n e valid =
      simp (laws.round e valid, laws.schema (event_fields e), parse_event-event_fields e valid) refl

  validated-issues :
      (f : Fields) (p : Option GovdispEvent)
      → lib.safe_parse f ≡ p
      → (r : List EventRejection) → validated lib f p ≡ rejected r
      → is_empty r ≡ false
  unfolding validated
  validated-issues f (some e) h r q = done-ne-rejected e r q
  validated-issues f none h r q = elim (List-cases (lib.issues f)) [
    | inl none_left ↦ ground (arith, laws.reports f h, ap is_empty none_left)
    | inr (i, is, some_left) ↦ some_rejected _ r (simp some_left at q) refl
  ]

  validate_govdisp_event-rejected :
      (j : Json) (r : List EventRejection)
      → validate_govdisp_event lib j ≡ rejected r
      → is_empty r ≡ false
  unfolding validate_govdisp_event
  validate_govdisp_event-rejected (Json.object f) r h =
      validated-issues f (lib.safe_parse f) refl r h
  validate_govdisp_event-rejected Json.null r h = some_rejected _ r h refl
  validate_govdisp_event-rejected (Json.bool b) r h = some_rejected _ r h refl
  validate_govdisp_event-rejected (Json.number n) r h = some_rejected _ r h refl
  validate_govdisp_event-rejected (Json.string t) r h = some_rejected _ r h refl
  validate_govdisp_event-rejected (Json.array a) r h = some_rejected _ r h refl

  -- A line that is refused has a rejection.
  pub read_value-rejected :
      (n : ℕ) (v : Option Json) (r : List EventRejection)
      → read_value lib n v ≡ rejected r
      → is_empty r ≡ false
  unfolding read_value numbered
  read_value-rejected n none r h = some_rejected _ r h refl
  read_value-rejected n (some v) r h = go (validate_govdisp_event lib v) refl h
    where
      go :
          (a : Result GovdispEvent)
          → validate_govdisp_event lib v ≡ a
          → numbered lib n a ≡ rejected r
          → is_empty r ≡ false
      go (done e) q h = done-ne-rejected e r h
      go (rejected []) q h = ground (arith, validate_govdisp_event-rejected v [] q)
      go (rejected (x ∷ xs)) q h = some_rejected _ r h refl

  -- Each line reads as its event.
  abbrev pub Reads : ℕ → List Text → List GovdispEvent → Type 0
  Reads n [] [] = Unit
  Reads n [] (e ∷ events) = true ≡ false
  Reads n (line ∷ lines) [] = true ≡ false
  Reads n (line ∷ lines) (e ∷ events) = (read_line lib n line ≡ done e) × Reads (suc n) lines events

  pub read_lines-Reads :
      (n : ℕ) (lines : List Text)
      → (read_lines lib n lines).1 ≡ []
      → Reads n lines ((read_lines lib n lines).0)
  unfolding read_lines read_line add_line
  read_lines-Reads n [] h = tt
  read_lines-Reads n (line ∷ rest) h =
      go (read_line lib n line) refl h (read_lines-Reads (suc n) rest)
    where
      go :
          (a : Result GovdispEvent)
          → read_line lib n line ≡ a
          → (add_line lib a (read_lines lib (suc n) rest)).1 ≡ []
          → ((read_lines lib (suc n) rest).1 ≡ []
              → Reads (suc n) rest ((read_lines lib (suc n) rest).0))
          → Reads n (line ∷ rest) ((add_line lib a (read_lines lib (suc n) rest)).0)
      go (done e) q h further = (q, further h)
      go (rejected []) q h further = ground (arith, read_value-rejected n _ [] q)
      go (rejected (x ∷ xs)) q h further = ground (arith, ap is_empty h)

  pub Reads-read_lines :
      (n : ℕ) (lines : List Text) (events : List GovdispEvent)
      → Reads n lines events
      → read_lines lib n lines ≡ (events, [])
  unfolding read_lines
  Reads-read_lines n [] [] h = refl
  Reads-read_lines n [] (e ∷ events) h = ground arith
  Reads-read_lines n (line ∷ lines) [] h = ground arith
  Reads-read_lines n (line ∷ lines) (e ∷ events) (q, h) =
      simp (read_lines, q, Reads-read_lines (suc n) lines events h) refl

  -- One more line, read after the others.
  pub read_lines-append :
      (n : ℕ) (lines : List Text) (line : Text) (e : GovdispEvent)
      → ((k : ℕ) → read_line lib k line ≡ done e)
      → ((read_lines lib n (lines ++ (line ∷ []))).0 ≡ (read_lines lib n lines).0 ++ (e ∷ []))
        × ((read_lines lib n (lines ++ (line ∷ []))).1 ≡ (read_lines lib n lines).1)
  unfolding read_lines add_line
  read_lines-append n [] line e h =
      (ap (λ a. (add_line lib a ([], [])).0) (h n), ap (λ a. (add_line lib a ([], [])).1) (h n))
  read_lines-append n (l ∷ lines) line e h =
      let (a, b) = read_lines-append (suc n) lines line e h in go (read_line lib n l) a b
    where
      go :
          (r : Result GovdispEvent)
          → (read_lines lib (suc n) (lines ++ (line ∷ []))).0
            ≡ (read_lines lib (suc n) lines).0 ++ (e ∷ [])
          → (read_lines lib (suc n) (lines ++ (line ∷ []))).1 ≡ (read_lines lib (suc n) lines).1
          → ((add_line lib r (read_lines lib (suc n) (lines ++ (line ∷ [])))).0
              ≡ (add_line lib r (read_lines lib (suc n) lines)).0 ++ (e ∷ []))
            × ((add_line lib r (read_lines lib (suc n) (lines ++ (line ∷ [])))).1
                ≡ (add_line lib r (read_lines lib (suc n) lines)).1)
      go (done d) a b = (ap (λ x. d ∷ x) a, b)
      go (rejected r) a b = (a, ap (λ x. r ++ x) b)
