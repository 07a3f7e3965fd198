-- ===== src/Pacing.antt =====
-- src/harness-pacing/recommend.ts and types.ts: the recommendation for a harness, and its crash
-- override. The profiles are those that readProfile and loadSeed return.
pub mod Crashes
pub mod Examples
use odin_sentinel.Base.{
  ℕ, zero, suc, ◌+◌, ◌-◌, ◌*◌, ◌/◌, ◌%◌, max, Bool, true, false, ◌&&◌, Option, none, some, List, [],
  ◌∷◌, ◌++◌, Text, text, same, length, includes, is_segment, leb, ltb, ◌==◌, Fields, end,
  if◌then◌else◌,
}

pub data Bundling : Type 0 where
  allowed avoid unknown : Bundling

-- `extra` has the optional fields, which the override passes on.
pub record PacingRecommendation : Type 0 where
  pub harness_id : Text
  pub max_word_bucket : Text
  pub min_idle_wait_seconds : ℕ
  pub slash_command_bundling : Bundling
  pub multi_phase_prompting : Bundling
  pub notes : Text
  pub extra : Fields

pub record HarnessProfile : Type 0 where
  pub crash_signatures : List Text
  pub recommended : PacingRecommendation

unfoldable pub is_safe_harness_id : Text → Bool
unfolding is_segment
is_safe_harness_id id = leb (length id) 128 && is_segment id

-- The decimal digits of a number, with a bound on their number.
unfoldable pub digits : ℕ → ℕ → Text
digits zero n = []
digits (suc fuel) n =
    let front = digits fuel (n / 10) in
    if ltb n 10 then (48 + n) ∷ [] else front ++ ((48 + n % 10) ∷ [])

unfoldable pub if_allowed : Bundling → Bundling
if_allowed allowed = avoid
if_allowed avoid = avoid
if_allowed unknown = unknown

unfoldable pub crash_notes : Text → ℕ → Text
unfolding includes digits
crash_notes notes count =
    if includes notes (text "crash")
    then notes
    else notes
      ++ (text "; crash override applied ("
          ++ (digits (count + 1) count ++ text " known crash signature(s))"))

unfoldable pub apply_crash_override : PacingRecommendation → ℕ → PacingRecommendation
unfolding if_allowed crash_notes
apply_crash_override rec zero = rec
apply_crash_override rec (suc n) = record {
  harness_id = rec.harness_id;
  max_word_bucket = text "0-100 words";
  min_idle_wait_seconds = max rec.min_idle_wait_seconds 5;
  slash_command_bundling = avoid;
  multi_phase_prompting = if_allowed rec.multi_phase_prompting;
  notes = crash_notes rec.notes (suc n);
  extra = rec.extra;
}

abbrev pub is_avoid : Bundling → Bool
is_avoid allowed = false
is_avoid avoid = true
is_avoid unknown = false

unfoldable pub is_conservative_recommendation : PacingRecommendation → Bool
unfolding same
is_conservative_recommendation rec =
    same rec.max_word_bucket (text "0-100 words")
    && is_avoid rec.slash_command_bundling
    && leb 5 rec.min_idle_wait_seconds

unfoldable pub conservative_fallback : Text → PacingRecommendation
conservative_fallback id = record {
  harness_id = id;
  max_word_bucket = text "0-100 words";
  min_idle_wait_seconds = 5;
  slash_command_bundling = unknown;
  multi_phase_prompting = unknown;
  notes = text "No profile data available; using conservative defaults";
  extra = end;
}

-- profile?.crash_signatures?.length ?? 0
unfoldable pub crashes : Option HarnessProfile → ℕ
crashes none = 0
crashes (some p) = length p.crash_signatures

unfoldable pub recommended :
    Text → Option HarnessProfile → Option HarnessProfile → PacingRecommendation
unfolding apply_crash_override conservative_fallback crashes
recommended id (some p) seed =
    apply_crash_override p.recommended (max (crashes (some p)) (crashes seed))
recommended id none (some p) =
    apply_crash_override p.recommended (max (crashes none) (crashes (some p)))
recommended id none none = conservative_fallback id

-- The local profile and the seed of each harness.
module _ (read_profile load_seed : Text → Option HarnessProfile) where
  unfoldable pub recommend : Text → PacingRecommendation
  unfolding recommended conservative_fallback is_safe_harness_id
  recommend id =
      if is_safe_harness_id id
      then recommended id (read_profile id) (load_seed id)
      else conservative_fallback (text "unsafe-harness")
