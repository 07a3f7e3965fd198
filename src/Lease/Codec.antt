-- ===== src/Lease/Codec.antt =====
-- src/protocol/lease/store.ts: the records that are written and read.
use odin_sentinel.Base.{
  ℕ, ◌≡◌, ◌⊎◌, inl, inr, false, text, Option, none, some, Text, same, same_self, Json, member, ◌&&◌,
  Option-cases, Bool-cases, arith,
}
use odin_sentinel.Lease.Record.{
  LeaseRecord, Platform, empty_record, to_json, as_record, header_part, held_part, record_part,
  is_null, as_string,
}
use odin_sentinel.Lease.Directory.{Directory, decode, write_lease}

-- What the module relies on: Date.parse reads back what toISOString printed, and JSON.parse what
-- JSON.stringify printed of a record.
pub record IsPlatform {File : Type 0} (p : Platform File) : Type 0 where
  pub date_round :
      (ms : ℕ) (s : Text) → Platform.iso p ms ≡ some s → Platform.date_parse p s ≡ some ms
  pub json_round :
      (r : LeaseRecord)
      → Platform.json_parse p (Platform.json_text p (to_json r)) ≡ some (to_json r)

module _ {File : Type 0} (p : Platform File) where
  -- A free slot has neither holder nor times; a held slot has all three, with a readable expiry.
  abbrev pub IsWellFormed : LeaseRecord → Type 0
  IsWellFormed r =
      ((r.holder ≡ none) × (r.acquired_at ≡ none) × (r.expires_at ≡ none))
      ⊎ ((h a e : Text) × (ms : ℕ) × (r.holder ≡ some h)
          × (r.acquired_at ≡ some a)
          × (r.expires_at ≡ some e)
          × (Platform.date_parse p e ≡ some ms))

  -- A well-formed record is read back from what is written of it.
  pub as_record-to_json :
      (r : LeaseRecord) → IsWellFormed r → as_record p r.slot (to_json r) ≡ some r
  unfolding as_record record_part to_json same
  as_record-to_json r (inl (a, b, c)) = ground (arith, same_self r.slot)
  as_record-to_json r (inr (h, a, e, ms, eh, ea, ee, em)) = ground (arith, same_self r.slot)

  held_part-IsWellFormed :
      (slot : Text) (token : ℕ) (h a e : Option Text) (r : LeaseRecord)
      → held_part p slot token h a e ≡ some r
      → IsWellFormed r × (r.slot ≡ slot)
  unfolding held_part
  held_part-IsWellFormed slot token (some h) (some a) (some e) r q =
      elim (Option-cases (Platform.date_parse p e)) [
        | inl bad ↦ ground arith
        | inr (ms, good) ↦
            (inr (h, a, e, ms, ground arith, ground arith, ground arith, good), ground arith)
      ]
  held_part-IsWellFormed slot token _ _ _ r q = cc

  record_part-IsWellFormed :
      (slot : Text) (token : ℕ) (h a e : Option Json) (r : LeaseRecord)
      → record_part p slot token h a e ≡ some r
      → IsWellFormed r × (r.slot ≡ slot)
  unfolding record_part
  record_part-IsWellFormed slot token h a e r q =
      elim (Bool-cases (is_null h && is_null a && is_null e)) [
        | inl free ↦ ground arith
        | inr held ↦
            held_part-IsWellFormed slot token (as_string h) (as_string a) (as_string e) r
              (rw held at q)
      ]

  pub as_record-IsWellFormed :
      (slot : Text) (j : Json) (r : LeaseRecord)
      → as_record p slot j ≡ some r
      → IsWellFormed r × (r.slot ≡ slot)
  unfolding as_record
  as_record-IsWellFormed slot (Json.object fs) r h = elim (Option-cases (header_part slot fs)) [
    | inl bad ↦ ground arith
    | inr (token, good) ↦
        record_part-IsWellFormed slot token (member (text "holder") fs)
          (member (text "acquired_at") fs) (member (text "expires_at") fs) r
          (rw (good, as_record) at h)
  ]
  as_record-IsWellFormed slot _ r h = ground arith

  pub decode-IsWellFormed :
      (slot : Text) (f : Option File) (r : LeaseRecord)
      → decode p slot f ≡ some r
      → IsWellFormed r × (r.slot ≡ slot)
  unfolding decode empty_record
  decode-IsWellFormed slot none r h = ground arith
  decode-IsWellFormed slot (some f) r h = elim (Option-cases (Platform.json_parse p f)) [
    | inl bad ↦ ground arith
    | inr (j, good) ↦ as_record-IsWellFormed slot j r (rw (good, decode) at h)
  ]

  pub decode-write_self :
      IsPlatform p
      → (d : Directory File) (r : LeaseRecord) → IsWellFormed r
      → decode p r.slot ((write_lease p d r).lease r.slot) ≡ some r
  unfolding decode write_lease
  decode-write_self ok d r w = rw (same_self r.slot, ok.json_round r) (as_record-to_json r w)

  pub decode-write_ne :
      (d : Directory File) (r : LeaseRecord) (slot : Text)
      → same r.slot slot ≡ false
      → decode p slot ((write_lease p d r).lease slot) ≡ decode p slot (d.lease slot)
  unfolding write_lease
  decode-write_ne d r slot h = rw h
