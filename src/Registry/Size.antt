-- ===== src/Registry/Size.antt =====
-- src/protocol/event-registry/storage.ts: how much a log grows.
use odin_sentinel.Base.{
  ◌+◌, ◌*◌, ◌≤◌, ◌≡◌, inl, inr, none, List, [], ◌∷◌, ◌++◌, Text, subst, arith, Bool-cases, same,
  false, not_ltb→le, same_iff, length, All,
}
use odin_sentinel.Registry.Lock.{at_least, exceeds}
use odin_sentinel.Registry.Schema.{GovdispEvent}
use odin_sentinel.Registry.Lines.{byte_length, byte_length-append}
use odin_sentinel.Registry.Rejections.{Library}
use odin_sentinel.Registry.Storage.{
  Files, put, text_of, govdisp_event_max_bytes, event_line, append_registry_event,
}
use odin_sentinel.Registry.Appending.{IsLibrary, Accepts}
use odin_sentinel.Registry.Log.{
  Call, put_same, put_other, append_registry_event-Grows, after_appends,
}

-- A write that is whole, under the default cap.
abbrev pub IsCapped : Call → Type 0
IsCapped c = (c.env.torn ≡ none) × (c.options.max_event_bytes ≡ none)

module _ (lib : Library) (laws : IsLibrary lib) where
  default_cap :
      (c : Call) (e : GovdispEvent)
      → IsCapped c
      → Accepts lib c.scope c.event c.options e
      → byte_length (event_line lib e) ≤ 65536
  unfolding at_least exceeds
  default_cap c e (whole, capped) a = not_ltb→le 65536 (byte_length (event_line lib e)) (
      subst
        (λ x.
          exceeds (byte_length (event_line lib e)) (at_least 1 x govdisp_event_max_bytes) ≡ false)
        capped a.fits)

  put_bytes :
      (files : Files) (scope other line : Text)
      → byte_length line ≤ 65536
      → byte_length (text_of (put scope (text_of (files scope) ++ line) files other))
        ≤ byte_length (text_of (files other)) + 65536
  unfolding text_of
  put_bytes files scope other line h = elim (Bool-cases (same other scope)) [
    | inr miss ↦ rw (put_other scope other (text_of (files scope) ++ line) files miss) (omega arith)
    | inl hit ↦
        let q = (same_iff other scope).0 hit in
        rw q (
          rw (put_same scope (text_of (files scope) ++ line) files)
            (omega (arith, byte_length-append (text_of (files scope)) line)))
  ]

  append_registry_event-bytes :
      (files : Files) (c : Call)
      → IsCapped c
      → (scope : Text)
      → byte_length
          (text_of ((append_registry_event lib files c.env c.scope c.event c.options).0 scope))
        ≤ byte_length (text_of (files scope)) + 65536
  append_registry_event-bytes files c capped scope =
      elim (append_registry_event-Grows lib laws files c capped.0) [
        | inl q ↦ rw q (omega arith)
        | inr (e, a, q) ↦
            rw q (put_bytes files c.scope scope (event_line lib e) (default_cap c e capped a))
      ]

  -- Under the default cap, a log grows by 65,536 bytes at most for each append that is made, to
  -- whatever scope and with whatever outcome, if no write is torn.
  pub after_appends-bytes :
      (calls : List Call) (files : Files)
      → All IsCapped calls
      → (scope : Text)
      → byte_length (text_of (after_appends lib laws calls files scope))
        ≤ byte_length (text_of (files scope)) + 65536 * length calls
  after_appends-bytes [] files capped scope = omega arith
  after_appends-bytes (c ∷ calls) files (h, capped) scope = omega (
    arith,
    append_registry_event-bytes files c h scope,
    after_appends-bytes calls ((append_registry_event lib files c.env c.scope c.event c.options).0)
        capped scope,
  )
