-- ===== src/Registry/Log.antt =====
-- src/protocol/event-registry/storage.ts: the log over sequences of appends.
use odin_sentinel.Base.{
  ◌≡◌, refl, ◌↔◌, ◌⊎◌, inl, inr, true, false, Option, none, some, List, [], ◌∷◌, ◌++◌, Text, text,
  ap, sym, ◌∙◌, subst, arith, Json, Bool-cases, Option-cases, same, same_self, same_iff, All, split,
  is_empty,
}
use odin_sentinel.Registry.Schema.{GovdispEvent}
use odin_sentinel.Registry.Event.{event_fields}
use odin_sentinel.Registry.Event.WellFormed.{IsEvent, parse_event-IsParsed}
use odin_sentinel.Registry.Lines.{
  split_log_lines, IsTerminated, pop_empty, split_log_lines-append, append-IsTerminated,
  append_assoc, append_nil,
}
use odin_sentinel.Registry.Rejections.{
  EventRejection, done, rejected, Library, Links, is_safe_registry_scope,
  registry_symlink_rejection,
}
use odin_sentinel.Registry.Storage.{
  Files, put, text_of, Env, AppendOptions, Outcome, answered, threw, stuck, event_line,
  append_registry_event, read_lines, whole_or_none, read_text, read_log, read_unlinked,
  read_registry_events,
}
use odin_sentinel.Registry.Appending.{
  IsLibrary, done-injective, rejected-ne-done, Accepts, Leaves, append_line-whole,
  append_registry_event-Leaves,
}
use odin_sentinel.Registry.Reading.{
  Reads, read_line-event_line, read_lines-Reads, Reads-read_lines, read_lines-append,
}

pub put_same : (scope t : Text) (files : Files) → put scope t files scope ≡ some t
unfolding put
put_same scope t files = simp (same_self scope) refl

pub put_other :
    (scope other t : Text) (files : Files)
    → same other scope ≡ false
    → put scope t files other ≡ files other
unfolding put
put_other scope other t files h = simp h refl

abbrev pub AreTerminated : Files → Type 0
AreTerminated files = (scope : Text) → IsTerminated (text_of (files scope))

-- One append.
pub record Call : Type 0 where
  pub env : Env
  pub scope : Text
  pub event : Json
  pub options : AppendOptions

module _ (lib : Library) (laws : IsLibrary lib) where
  -- A log is read just if each of its lines reads, and then it is the lines' events, in their order.
  pub read_text-Reads :
      (t : Text) (events : List GovdispEvent)
      → (read_text lib t ≡ done events) ↔ Reads lib laws 1 (split_log_lines t) events
  unfolding read_text whole_or_none
  read_text-Reads t events = (
    λ h. go (read_lines lib 1 (split_log_lines t)) refl h,
    λ r. ap (whole_or_none lib) (Reads-read_lines lib laws 1 (split_log_lines t) events r),
  )
    where
      go :
          (p : List GovdispEvent × List EventRejection)
          → read_lines lib 1 (split_log_lines t) ≡ p
          → whole_or_none lib p ≡ done events
          → Reads lib laws 1 (split_log_lines t) events
      go (found, []) q h =
          subst (Reads lib laws 1 (split_log_lines t))
            (ap (λ x. x.0) q ∙ done-injective found events h)
            (read_lines-Reads lib laws 1 (split_log_lines t) (ap (λ x. x.1) q))
      go (found, r ∷ rest) q h = rejected-ne-done _ events h

  abbrev pub events_in : Option Text → List GovdispEvent
  events_in t = (read_lines lib 1 (split_log_lines (text_of t))).0

  abbrev pub faults_in : Option Text → List EventRejection
  faults_in t = (read_lines lib 1 (split_log_lines (text_of t))).1

  Accepts-IsEvent :
      (scope : Text) (j : Json) (o : AppendOptions) (e : GovdispEvent)
      → Accepts lib scope j o e
      → IsEvent e
  Accepts-IsEvent scope j o e a =
      (parse_event-IsParsed a.fields e (sym (laws.schema a.fields) ∙ a.parsed)).allowed

  -- The line of an event, after a terminated text.
  pub one_more :
      (t : Text) (e : GovdispEvent)
      → IsTerminated t
      → IsEvent e
      → (events_in (some (t ++ event_line lib e)) ≡ events_in (some t) ++ (e ∷ []))
        × (faults_in (some (t ++ event_line lib e)) ≡ faults_in (some t))
        × IsTerminated (t ++ event_line lib e)
  unfolding event_line text_of
  one_more t e ends valid =
      let line = lib.json_text (Json.object (event_fields e)) in
      let q = split_log_lines-append t line ends (laws.one_line e valid) in
      let (a, b) =
        read_lines-append lib laws 1 (split_log_lines t) line e
          (λ k. read_line-event_line lib laws k e valid) in
      (
        ap (λ x. (read_lines lib 1 x).0) q ∙ a,
        ap (λ x. (read_lines lib 1 x).1) q ∙ b,
        append-IsTerminated t line,
      )

  -- What an append whose write is not torn does to the files: nothing, or one more line.
  pub append_registry_event-Grows :
      (files : Files) (c : Call)
      → c.env.torn ≡ none
      → ((append_registry_event lib files c.env c.scope c.event c.options).0 ≡ files)
        ⊎ ((e : GovdispEvent) × Accepts lib c.scope c.event c.options e
            × ((append_registry_event lib files c.env c.scope c.event c.options).0
                ≡ put c.scope (text_of (files c.scope) ++ event_line lib e) files))
  append_registry_event-Grows files c whole =
      go (append_registry_event lib files c.env c.scope c.event c.options)
        (append_registry_event-Leaves lib files c.env c.scope c.event c.options)
    where
      go :
          (p : Files × Outcome)
          → Leaves lib files c.env c.scope c.event c.options p
          → (p.0 ≡ files)
            ⊎ ((e : GovdispEvent) × Accepts lib c.scope c.event c.options e
                × (p.0 ≡ put c.scope (text_of (files c.scope) ++ event_line lib e) files))
      go (left, answered (done e)) (a, q, t) = inr (e, a, q)
      go (left, answered (rejected r)) q = inl q
      go (left, threw) (inl q) = inl q
      go (left, threw) (inr (e, a, q)) =
          inr (e, a, q ∙ append_line-whole lib files c.env c.scope (event_line lib e) whole)
      go (left, stuck) q = inl q

  -- A log still ends with a newline, has the events it had, and after them only events that the
  -- schema allows; no line that was readable is lost, and no fault is added.
  pub record Extends (before after : Option Text) : Type 0 where
    pub terminated : IsTerminated (text_of after)
    pub more : List GovdispEvent
    pub added : events_in after ≡ events_in before ++ more
    pub allowed : All IsEvent more
    pub faults : faults_in after ≡ faults_in before

  Extends-refl : (t : Option Text) → IsTerminated (text_of t) → Extends t t
  Extends-refl t ends = record {
    terminated = ends;
    more = [];
    added = sym (append_nil _);
    allowed = tt;
    faults = refl;
  }

  All-append :
      (xs ys : List GovdispEvent) → All IsEvent xs → All IsEvent ys → All IsEvent (xs ++ ys)
  All-append [] ys a b = b
  All-append (x ∷ xs) ys (p, a) b = (p, All-append xs ys a b)

  Extends-trans : (a b c : Option Text) → Extends a b → Extends b c → Extends a c
  Extends-trans a b c x y = record {
    terminated = y.terminated;
    more = x.more ++ y.more;
    added = y.added ∙ ap (λ z. z ++ y.more) x.added ∙ append_assoc _ x.more y.more;
    allowed = All-append x.more y.more x.allowed y.allowed;
    faults = y.faults ∙ x.faults;
  }

  Extends-line :
      (t : Option Text) (e : GovdispEvent)
      → IsTerminated (text_of t)
      → IsEvent e
      → Extends t (some (text_of t ++ event_line lib e))
  unfolding text_of
  Extends-line t e ends valid =
      let (a, b, c) = one_more (text_of t) e ends valid in
      record { terminated = c; more = e ∷ []; added = a; allowed = (valid, tt); faults = b }

  Extends-put :
      (files : Files) (scope other : Text) (e : GovdispEvent)
      → AreTerminated files
      → IsEvent e
      → Extends (files other) (put scope (text_of (files scope) ++ event_line lib e) files other)
  unfolding text_of
  Extends-put files scope other e ends valid = elim (Bool-cases (same other scope)) [
    | inr h ↦
        subst (Extends (files other)) (sym (put_other scope other _ files h))
          (Extends-refl (files other) (ends other))
    | inl h ↦
        let q = (same_iff other scope).0 h in
        subst
          (λ o. Extends (files o) (put scope (text_of (files scope) ++ event_line lib e) files o))
          (sym q)
          (subst (Extends (files scope)) (sym (put_same scope _ files))
            (Extends-line (files scope) e (ends scope) valid))
  ]

  pub append_registry_event-Extends :
      (files : Files) (c : Call)
      → c.env.torn ≡ none
      → AreTerminated files
      → (scope : Text)
      → Extends
          (files scope)
          ((append_registry_event lib files c.env c.scope c.event c.options).0 scope)
  append_registry_event-Extends files c whole ends scope =
      elim (append_registry_event-Grows files c whole) [
        | inl q ↦
            subst (λ x. Extends (files scope) (x scope)) (sym q)
              (Extends-refl (files scope) (ends scope))
        | inr (e, a, q) ↦
            subst (λ x. Extends (files scope) (x scope)) (sym q)
              (Extends-put files c.scope scope e ends
                (Accepts-IsEvent c.scope c.event c.options e a))
      ]

  abbrev pub after_appends : List Call → Files → Files
  after_appends [] files = files
  after_appends (c ∷ calls) files =
      after_appends calls ((append_registry_event lib files c.env c.scope c.event c.options).0)

  -- Over every sequence of appends, by whatever callers, refused or accepted ones, of which none is
  -- torn in its write, every log keeps its events and their order, and is extended by events that
  -- the schema allows only; it stays terminated, and keeps the faults it had and gets no other.
  pub after_appends-Extends :
      (calls : List Call) (files : Files)
      → All (λ c. c.env.torn ≡ none) calls
      → AreTerminated files
      → (scope : Text) → Extends (files scope) (after_appends calls files scope)
  after_appends-Extends [] files whole ends scope = Extends-refl (files scope) (ends scope)
  after_appends-Extends (c ∷ calls) files (w, whole) ends scope =
      let step = append_registry_event-Extends files c w ends in
      Extends-trans _ _ _ (step scope)
        (after_appends-Extends calls _ whole (λ s. (step s).terminated) scope)

  read_log-done :
      (t : Option Text) (events : List GovdispEvent)
      → (read_log lib t ≡ done events) ↔ ((events_in t ≡ events) × (faults_in t ≡ []))
  unfolding read_log read_text whole_or_none split_log_lines split pop_empty read_lines text_of
  read_log-done none events = (λ h. (done-injective [] events h, refl), λ p. ap done p.0)
  read_log-done (some t) events = go (read_lines lib 1 (split_log_lines t))
    where
      go :
          (p : List GovdispEvent × List EventRejection)
          → (whole_or_none lib p ≡ done events) ↔ ((p.0 ≡ events) × (p.1 ≡ []))
      go (found, []) = (λ h. (done-injective found events h, refl), λ q. ap done q.0)
      go (found, r ∷ rest) =
          (λ h. rejected-ne-done _ events h, λ q. ground (arith, ap is_empty q.1))

  -- What a read that succeeds says: its scope is safe and no symbolic link, and every line read.
  pub read_registry_events-done :
      (files : Files) (links : Links) (scope : Text) (events : List GovdispEvent)
      → (read_registry_events lib files links scope ≡ done events) ↔ (
          (is_safe_registry_scope scope ≡ true)
          × (registry_symlink_rejection links (text "<store>") ≡ none)
          × (events_in (files scope) ≡ events)
          × (faults_in (files scope) ≡ []))
  unfolding read_registry_events read_unlinked
  read_registry_events-done files links scope events =
      elim (Bool-cases (is_safe_registry_scope scope)) [
        | inr c ↦ (λ h. rejected-ne-done _ events (simp c at h), λ p. ground (arith, p.0, c))
        | inl c ↦ elim (Option-cases (registry_symlink_rejection links (text "<store>"))) [
          | inr (r, linked) ↦ (
            λ h. rejected-ne-done (r ∷ []) events (simp (c, linked) at h),
            λ p. ground (arith, p.1, linked),
          )
          | inl clear ↦ (
            λ h.
                let (a, b) = (read_log-done (files scope) events).0 (simp (c, clear) at h) in
                (c, clear, a, b),
            λ p. simp (c, clear) ((read_log-done (files scope) events).1 (p.2, p.3)),
          )
        ]
      ]

  -- Where every log is missing, empty or ends with a newline: a log that is read reads, after an
  -- accepted append to it, as its events and then the event.
  pub read_registry_events-append :
      (files left : Files) (c : Call) (links : Links) (events : List GovdispEvent)
      (e : GovdispEvent)
      → AreTerminated files
      → read_registry_events lib files links c.scope ≡ done events
      → append_registry_event lib files c.env c.scope c.event c.options ≡ (left, answered (done e))
      → read_registry_events lib left links c.scope ≡ done (events ++ (e ∷ []))
  unfolding text_of
  read_registry_events-append files left c links events e ends r q =
      let (a, leaves, whole) =
        subst (Leaves lib files c.env c.scope c.event c.options) q
          (append_registry_event-Leaves lib files c.env c.scope c.event c.options) in
      let (safe, clear, found, sound) =
        (read_registry_events-done files links c.scope events).0 r in
      let valid = Accepts-IsEvent c.scope c.event c.options e a in
      let (more, same_faults, again) = one_more (text_of (files c.scope)) e (ends c.scope) valid in
      let now : left c.scope ≡ some (text_of (files c.scope) ++ event_line lib e) =
        ap (λ x. x c.scope) leaves ∙ put_same c.scope _ files in
      (read_registry_events-done left links c.scope (events ++ (e ∷ []))).1 (
        safe,
        clear,
        ap events_in now ∙ more ∙ ap (λ x. x ++ (e ∷ [])) found,
        ap faults_in now ∙ same_faults ∙ sound,
      )
