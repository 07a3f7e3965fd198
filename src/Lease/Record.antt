-- ===== src/Lease/Record.antt =====
-- src/protocol/lease/store.ts: the lease record and its JSON form.
use odin_sentinel.Base.{
  ℕ, ◌+◌, ◌%◌, ◌<◌, ◌≤◌, ◌≡◌, ltb, ◌==◌, arith, Bool, true, false, ◌&&◌, Option, none, some, Text,
  text, same, pos, int, Json, Fields, end, entry, member, if◌then◌else◌, ◌>>=◌, only_if,
}

-- The token is the exact value of a JavaScript number: below 2^53 every integer is one, then only the
-- even ones up to 2^54, and so on.
pub record LeaseRecord : Type 0 where
  pub slot : Text
  pub token : ℕ
  pub holder : Option Text
  pub acquired_at : Option Text
  pub expires_at : Option Text

-- What the module takes from JavaScript: instants as text, and files as JSON. `File` is the text
-- of a file; `iso` fails (RangeError) on an instant outside the range of Date, and `date_parse`
-- on a text that is no date (NaN).
pub record Platform (File : Type 0) : Type 0 where
  pub iso : ℕ → Option Text
  pub date_parse : Text → Option ℕ
  pub json_parse : File → Option Json
  pub json_text : Json → File

-- 2^53, up to which counting by one is exact.
abbrev pub exact_limit : ℕ
exact_limit = 9007199254740992

-- token + 1 as a number: from 2^53 to 2^54 the sum lies halfway between two numbers, of which the one
-- that 4 divides is taken, and from 2^54 on it is rounded down.
unfoldable pub next_token : ℕ → ℕ
next_token t =
    if ltb t exact_limit
    then t + 1
    else if ltb t 18014398509481984 && (t % 4) == 2
    then t + 2
    else t

pub next_token_le : (t : ℕ) → t ≤ next_token t
unfolding next_token
next_token_le t = ground arith

pub next_token_exact : (t : ℕ) → t < exact_limit → next_token t ≡ t + 1
unfolding next_token
next_token_exact t h = ground arith

abbrev pub schema_version : Text
schema_version = text "odin.lease.v1"

unfoldable pub empty_record : Text → LeaseRecord
empty_record slot = record {
  slot = slot;
  token = 0;
  holder = none;
  acquired_at = none;
  expires_at = none;
}

abbrev pub nullable : Option Text → Json
nullable none = Json.null
nullable (some t) = Json.string t

-- What JSON.stringify is given.
unfoldable pub to_json : LeaseRecord → Json
to_json r = Json.object (
    entry (text "schema_version") (Json.string schema_version) (
      entry (text "slot") (Json.string r.slot) (
        entry (text "token") (Json.number (int (pos r.token))) (
          entry (text "holder") (nullable r.holder) (
            entry (text "acquired_at") (nullable r.acquired_at)
              (entry (text "expires_at") (nullable r.expires_at) end))))))

unfoldable pub as_string : Option Json → Option Text
as_string (some (Json.string t)) = some t
as_string _ = none

unfoldable pub as_natural : Option Json → Option ℕ
as_natural (some (Json.number (int (pos n)))) = some n
as_natural _ = none

unfoldable pub is_null : Option Json → Bool
is_null (some Json.null) = true
is_null _ = false

-- The schema, the slot and the token of a parsed object, which gives the token.
unfoldable pub header_part : Text → Fields → Option ℕ
unfolding as_string as_natural member
header_part slot fs = do
  version ← as_string (member (text "schema_version") fs)
  known ← only_if (same version schema_version) version
  name ← as_string (member (text "slot") fs)
  mine ← only_if (same name slot) name
  as_natural (member (text "token") fs)

module _ {File : Type 0} (p : Platform File) where
  -- Number.isFinite(Date.parse(record.expires_at))
  unfoldable pub held_part : Text → ℕ → Option Text → Option Text → Option Text → Option LeaseRecord
  held_part slot token (some holder) (some acquired_at) (some expires_at) =
      Platform.date_parse p expires_at >>= λ _. some (record {
        slot = slot;
        token = token;
        holder = some holder;
        acquired_at = some acquired_at;
        expires_at = some expires_at;
      })
  held_part slot token _ _ _ = none

  unfoldable pub record_part :
      Text → ℕ → Option Json → Option Json → Option Json → Option LeaseRecord
  unfolding held_part is_null as_string
  record_part slot token holder acquired_at expires_at =
      if is_null holder && is_null acquired_at && is_null expires_at
      then some (record {
        slot = slot;
        token = token;
        holder = none;
        acquired_at = none;
        expires_at = none;
      })
      else held_part slot token (as_string holder) (as_string acquired_at) (as_string expires_at)

  -- isRecord: the record that a parsed file holds, if it holds one for this slot.
  unfoldable pub as_record : Text → Json → Option LeaseRecord
  unfolding header_part member
  as_record slot (Json.object fs) = do
    token ← header_part slot fs
    record_part slot token (member (text "holder") fs) (member (text "acquired_at") fs)
        (member (text "expires_at") fs)
  as_record slot _ = none
