-- ===== src/Lease/Fencing.antt =====
-- src/protocol/lease/store.ts: the fencing contract of the slots of a directory, and what a call
-- relies on of the other processes while it waits.
use odin_sentinel.Base.{
  ◌≡◌, refl, inl, inr, Option, none, some, Text, same, same_iff, is_segment, subst, sym, ◌∙◌,
  Bool-cases,
}
use mathlib.Core.Option.{some-injective}
use odin_sentinel.Lease.Record.{LeaseRecord, Platform}
use odin_sentinel.Lease.Directory.{
  Env, Directory, Outcome-cases, Lock-cases, Body, decoded, on_record, decode, read_lease,
  write_lease, with_slot_lock, with_allowed_slot_lock, ensure_slot_allowed,
}
use odin_sentinel.Lease.Codec.{IsPlatform, decode-IsWellFormed, decode-write_self, decode-write_ne}
use odin_sentinel.Lease.Effect.{Extends, Extends-refl, Extends-trans, Successor, Effect}

module _ {File : Type 0} (p : Platform File) where
  -- Each readable record of `d` is followed in `d'` by a readable record that extends it.
  pub record Evolves (d d' : Directory File) : Type 0 where
    pub at :
        (slot : Text) (r : LeaseRecord)
        → decode p slot (d.lease slot) ≡ some r
        → (s : LeaseRecord) × (decode p slot (d'.lease slot) ≡ some s) × Extends r s

  pub Evolves-refl : (d : Directory File) → Evolves d d
  Evolves-refl d = record { at = λ slot r h. (r, h, Extends-refl r) }

  pub Evolves-trans : (a b c : Directory File) → Evolves a b → Evolves b c → Evolves a c
  Evolves-trans a b c x y = record {
    at = λ slot r h.
        let (s, hs, e) = x.at slot r h in
        let (t, ht, f) = y.at slot s hs in (t, ht, Extends-trans r s t e f);
  }

  -- The rely condition: while a call waits for the lock, the others keep every slot's contract.
  abbrev pub Relies : Env File → Type 0
  Relies env = (d : Directory File) → Evolves d (env.meanwhile d)

module _ {File : Type 0} (p : Platform File) (valid : IsPlatform p) where
  -- Writing a successor of the slot's record.
  write-Evolves :
      (d : Directory File) (slot : Text) (r next : LeaseRecord)
      → decode p slot (d.lease slot) ≡ some r
      → Successor p r next
      → Evolves p d (write_lease p d next)
  write-Evolves d slot r next h s = record {
    at = λ other old q. elim (Bool-cases (same next.slot other)) [
      | inl hit ↦
          let here : next.slot ≡ other = (same_iff next.slot other).0 hit in
          let home : next.slot ≡ slot =
            s.same_slot ∙ (decode-IsWellFormed p slot (d.lease slot) r h).1 in
          let old_here : decode p other (d.lease other) ≡ some r =
            subst (λ t. decode p t (d.lease t) ≡ some r) (sym home ∙ here) h in
          (
            next,
            subst (λ t. decode p t ((write_lease p d next).lease t) ≡ some next) here
                (decode-write_self p valid d next s.formed),
            subst (λ o. Extends o next) (some-injective _ _ (sym old_here ∙ q)) s.extends,
          )
      | inr miss ↦ (old, decode-write_ne p d next other miss ∙ q, Extends-refl old)
    ];
  }

  Effect-Evolves :
      (d d' : Directory File) (slot : Text) (r : LeaseRecord)
      → decode p slot (d.lease slot) ≡ some r
      → Effect p r d d'
      → Evolves p d d'
  Effect-Evolves d d' slot r h (inl e) = subst (Evolves p d) (sym e) (Evolves-refl p d)
  Effect-Evolves d d' slot r h (inr (next, s, e)) =
      subst (Evolves p d) (sym e) (write-Evolves d slot r next h s)

module _ {File A : Type 0} (p : Platform File) (valid : IsPlatform p) (slot : Text) where
  -- What the proofs need of a locked section.
  abbrev pub WritesSuccessor : Body File A → Type 0
  WritesSuccessor body = (r : LeaseRecord) (d : Directory File) → Effect p r d (body r d).1

  decoded-Evolves :
      (d : Directory File) (o : Option LeaseRecord) (body : Body File A)
      → decode p slot (d.lease slot) ≡ o
      → WritesSuccessor body
      → Evolves p d (on_record (decoded p o) d body).1
  decoded-Evolves d none body h e = Evolves-refl p d
  decoded-Evolves d (some r) body h e = Effect-Evolves p valid d (body r d).1 slot r h (e r d)

  under_lock-Evolves :
      (d : Directory File) (body : Body File A)
      → WritesSuccessor body
      → Evolves p d (on_record (read_lease p d slot) d body).1
  unfolding read_lease
  under_lock-Evolves d body e = elim (Bool-cases (is_segment slot)) [
    | inl good ↦
        simp (read_lease, good)
          (elim (Outcome-cases (ensure_slot_allowed d.allow slot)) [
            | inl (t, listed) ↦
                simp listed (decoded-Evolves d (decode p slot (d.lease slot)) body refl e)
            | inr (inl (c, hs, q)) ↦ simp q (Evolves-refl p d)
            | inr (inr q) ↦ simp q (Evolves-refl p d)
          ])
    | inr bad ↦ simp (read_lease, bad) (Evolves-refl p d)
  ]

  pub with_slot_lock-Evolves :
      (env : Env File) (d : Directory File) (body : Body File A)
      → Relies p env
      → WritesSuccessor body
      → Evolves p d (with_slot_lock p env d slot body).1
  unfolding with_slot_lock
  with_slot_lock-Evolves env d body rely e = elim (Bool-cases env.mkdir_fails) [
    | inl fails ↦ simp (fails, with_slot_lock) (Evolves-refl p d)
    | inr made ↦
        simp (made, with_slot_lock)
          (elim (Lock-cases env.lock) [
            | inl free ↦ simp free (
                Evolves-trans p d (env.meanwhile d) _ (rely d)
                  (under_lock-Evolves (env.meanwhile d) body e))
            | inr (inl taken) ↦ simp taken (rely d)
            | inr (inr broken) ↦ simp broken (rely d)
          ])
  ]

  pub with_allowed_slot_lock-Evolves :
      (env : Env File) (d : Directory File) (body : Body File A)
      → Relies p env
      → WritesSuccessor body
      → Evolves p d (with_allowed_slot_lock p env d slot body).1
  unfolding with_allowed_slot_lock
  with_allowed_slot_lock-Evolves env d body rely e =
      elim (Outcome-cases (ensure_slot_allowed d.allow slot)) [
        | inl (t, listed) ↦
            simp (with_allowed_slot_lock, listed) (with_slot_lock-Evolves env d body rely e)
        | inr (inl (c, hs, q)) ↦ simp (with_allowed_slot_lock, q) (Evolves-refl p d)
        | inr (inr q) ↦ simp (with_allowed_slot_lock, q) (Evolves-refl p d)
      ]
