-- ===== src/Registry/Appending.antt =====
-- src/protocol/event-registry/storage.ts: what an append leaves in the log.
use odin_sentinel.Base.{
  ◌≡◌, refl, ◌⊎◌, inl, inr, Bool, true, false, Option, none, some, List, ◌++◌, Text, ap, subst,
  arith, Json, Fields, is_empty, Bool-cases, Option-cases,
}
use odin_sentinel.Registry.Lock.{Acquisition, acquired, raised, Number, at_least, exceeds}
use odin_sentinel.Registry.Schema.{GovdispEvent}
use odin_sentinel.Registry.Event.{class_of, event_fields, parse_event}
use odin_sentinel.Registry.Event.WellFormed.{IsEvent}
use odin_sentinel.Registry.Lines.{byte_length, IsOneLine}
use odin_sentinel.Registry.Rejections.{
  EventRejection, Result, done, rejected, Library, validated, validate_govdisp_event,
  is_safe_registry_scope, registry_symlink_rejection,
}
use odin_sentinel.Registry.Storage.{
  Files, put, text_of, Env, AppendOptions, Outcome, answered, threw, stuck, Prepared,
  govdisp_event_max_bytes, event_line, sized, prepare_append, append_line, released, locked_append,
  acquired_append, prepared_append, append_registry_event,
}

-- What the module relies on: JSON gives the object of an event back, on one line; safeParse follows
-- the schema as its combinators are documented; and an object that it refuses has an issue.
pub record IsLibrary (lib : Library) : Type 0 where
  pub round :
      (e : GovdispEvent)
      → IsEvent e
      → lib.json_parse (lib.json_text (Json.object (event_fields e)))
        ≡ some (Json.object (event_fields e))
  pub one_line :
      (e : GovdispEvent) → IsEvent e → IsOneLine (lib.json_text (Json.object (event_fields e)))
  pub schema : (f : Fields) → lib.safe_parse f ≡ parse_event f
  pub reports : (f : Fields) → lib.safe_parse f ≡ none → is_empty (lib.issues f) ≡ false

result_of {ℓ} : {A : Type ℓ} → A → Result A → A
result_of a (done x) = x
result_of a (rejected r) = a

pub done-injective {ℓ} : {A : Type ℓ} (a b : A) → done a ≡ done b → a ≡ b
unfolding result_of
done-injective a b h = ap (result_of a) h

refuses {ℓ} : {A : Type ℓ} → Result A → Bool
refuses (done x) = false
refuses (rejected r) = true

pub rejected-ne-done {ℓ κ} :
    {A : Type ℓ} {C : Type κ} (r : List EventRejection) (x : A) → rejected r ≡ done x → C
unfolding refuses
rejected-ne-done r x h = ground (arith, ap refuses h)

pub Result-cases {ℓ} :
    {A : Type ℓ} (a : Result A)
    → ((x : A) × (a ≡ done x)) ⊎ ((r : List EventRejection) × (a ≡ rejected r))
Result-cases (done x) = inl (x, refl)
Result-cases (rejected r) = inr (r, refl)

module _ (lib : Library) where
  -- What an append accepts: an object that the schema makes this event of, whose line fits.
  pub record Accepts (scope : Text) (j : Json) (o : AppendOptions) (e : GovdispEvent) : Type 0 where
    pub fields : Fields
    pub object : j ≡ Json.object fields
    pub parsed : lib.safe_parse fields ≡ some e
    pub safe : is_safe_registry_scope scope ≡ true
    pub fits :
        exceeds
          (byte_length (event_line lib e))
          (at_least 1 o.max_event_bytes govdisp_event_max_bytes)
        ≡ false

  validated-done :
      (f : Fields) (p : Option GovdispEvent) (e : GovdispEvent)
      → validated lib f p ≡ done e
      → p ≡ some e
  unfolding validated
  validated-done f (some d) e h = ap some (done-injective d e h)
  validated-done f none e h = rejected-ne-done _ e h

  pub validate_govdisp_event-done :
      (j : Json) (e : GovdispEvent)
      → validate_govdisp_event lib j ≡ done e
      → (f : Fields) × (j ≡ Json.object f) × (lib.safe_parse f ≡ some e)
  unfolding validate_govdisp_event
  validate_govdisp_event-done (Json.object f) e h =
      (f, refl, validated-done f (lib.safe_parse f) e h)
  validate_govdisp_event-done Json.null e h = rejected-ne-done _ e h
  validate_govdisp_event-done (Json.bool b) e h = rejected-ne-done _ e h
  validate_govdisp_event-done (Json.number n) e h = rejected-ne-done _ e h
  validate_govdisp_event-done (Json.string t) e h = rejected-ne-done _ e h
  validate_govdisp_event-done (Json.array a) e h = rejected-ne-done _ e h

  sized-done :
      (limit : Option Number) (v : Result GovdispEvent) (p : Prepared)
      → sized lib limit v ≡ done p
      → (v ≡ done p.event)
        × (p.line ≡ event_line lib p.event)
        × (exceeds (byte_length (event_line lib p.event)) (at_least 1 limit govdisp_event_max_bytes)
            ≡ false)
  unfolding sized
  sized-done limit (rejected r) p h = rejected-ne-done r p h
  sized-done limit (done e) p h =
      elim (Bool-cases
        (exceeds (byte_length (event_line lib e)) (at_least 1 limit govdisp_event_max_bytes))) [
          | inl c ↦ rejected-ne-done _ p (simp c at h)
          | inr c ↦
              let h' = simp c at h in
              let q = done-injective _ p h' in
              let all : (done e ≡ done e)
                  × (event_line lib e ≡ event_line lib e)
                  × (exceeds (byte_length (event_line lib e))
                        (at_least 1 limit govdisp_event_max_bytes)
                      ≡ false) =
                (refl, refl, c) in
              subst
                (λ x.
                  (done e ≡ done x.event)
                  × (x.line ≡ event_line lib x.event)
                  × (exceeds (byte_length (event_line lib x.event))
                        (at_least 1 limit govdisp_event_max_bytes)
                      ≡ false))
                q all
        ]

  prepare_append-Accepts :
      (scope : Text) (j : Json) (o : AppendOptions) (p : Prepared)
      → prepare_append lib scope j o ≡ done p
      → Accepts scope j o p.event × (p.line ≡ event_line lib p.event)
  unfolding prepare_append
  prepare_append-Accepts scope j o p h = elim (Bool-cases (is_safe_registry_scope scope)) [
    | inr c ↦ rejected-ne-done _ p (simp c at h)
    | inl c ↦
        let (v, line, fits) = sized-done o.max_event_bytes _ p (simp c at h) in
        let (f, is_object, parsed) = validate_govdisp_event-done j p.event v in
        (record { fields = f; object = is_object; parsed = parsed; safe = c; fits = fits }, line)
  ]

  -- What a call leaves of the files, by its outcome: the event's line at the end of its log, or
  -- nothing changed; where it throws, a part of the line may stand there, or the whole line.
  abbrev pub Leaves : Files → Env → Text → Json → AppendOptions → Files × Outcome → Type 0
  Leaves files env scope j o (left, answered (done e)) =
      Accepts scope j o e
      × (left ≡ put scope (text_of (files scope) ++ event_line lib e) files)
      × (env.torn ≡ none)
  Leaves files env scope j o (left, answered (rejected r)) = left ≡ files
  Leaves files env scope j o (left, threw) =
      (left ≡ files)
      ⊎ ((e : GovdispEvent) × Accepts scope j o e
          × (left ≡ append_line lib files env scope (event_line lib e)))
  Leaves files env scope j o (left, stuck) = left ≡ files

  pub append_line-whole :
      (files : Files) (env : Env) (scope line : Text)
      → env.torn ≡ none
      → append_line lib files env scope line ≡ put scope (text_of (files scope) ++ line) files
  unfolding append_line
  append_line-whole files env scope line t = simp (append_line, t) refl

  module _ (files : Files) (env : Env) (scope : Text) (j : Json) (o : AppendOptions) where
    locked_append-Leaves :
        (p : Prepared)
        → Accepts scope j o p.event
        → p.line ≡ event_line lib p.event
        → Leaves files env scope j o (locked_append lib files env scope p)
    unfolding locked_append released
    locked_append-Leaves p a q =
        elim (Option-cases (registry_symlink_rejection env.raced (class_of p.event.detail))) [
          | inr (r, raced) ↦ elim (Bool-cases env.rmdir_fails) [
            | inl c ↦ simp (locked_append, released, raced, c) (inl refl)
            | inr c ↦ simp (locked_append, released, raced, c) refl
          ]
          | inl clear ↦ elim (Bool-cases env.rmdir_fails) [
            | inl c ↦ simp (locked_append, released, clear, c, q) (inr (p.event, a, refl))
            | inr c ↦ elim (Option-cases env.torn) [
              | inl t ↦
                  simp (locked_append, released, clear, c, t, q)
                    (a, append_line-whole files env scope _ t, refl)
              | inr (n, t) ↦ simp (locked_append, released, clear, c, t, q) (inr (p.event, a, refl))
            ]
          ]
        ]

    acquired_append-Leaves :
        (p : Prepared) (lock : Option Acquisition)
        → Accepts scope j o p.event
        → p.line ≡ event_line lib p.event
        → Leaves files env scope j o (acquired_append lib files env scope p lock)
    unfolding acquired_append
    acquired_append-Leaves p none a q = refl
    acquired_append-Leaves p (some raised) a q = inl refl
    acquired_append-Leaves p (some (acquired false n ms)) a q = refl
    acquired_append-Leaves p (some (acquired true n ms)) a q = locked_append-Leaves p a q

    -- An event that is accepted stands at the end of its log, as one line; a refusal leaves every log
    -- as it was, and so does an exception, unless the write or what comes after it throws.
    pub append_registry_event-Leaves :
        Leaves files env scope j o (append_registry_event lib files env scope j o)
    unfolding append_registry_event prepared_append
    append_registry_event-Leaves = go (prepare_append lib scope j o) refl
      where
        go :
            (p : Result Prepared)
            → prepare_append lib scope j o ≡ p
            → Leaves files env scope j o (prepared_append lib files env scope o.lock p)
        go (rejected r) h = refl
        go (done p) h =
            let (a, q) = prepare_append-Accepts scope j o p h in
            elim (Option-cases (registry_symlink_rejection env.links (class_of p.event.detail))) [
              | inr (r, linked) ↦ simp (prepared_append, linked) refl
              | inl clear ↦ elim (Bool-cases env.mkdir_fails) [
                | inl c ↦ simp (prepared_append, clear, c) (inl refl)
                | inr c ↦ simp (prepared_append, clear, c) (acquired_append-Leaves p _ a q)
              ]
            ]
