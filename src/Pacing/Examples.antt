-- ===== src/Pacing/Examples.antt =====
-- src/harness-pacing/recommend.ts: a permissive local profile beside a seed with a crash.
use odin_sentinel.Base.{◌≡◌, refl, inr, true, false, Option, some, [], ◌∷◌, Text, text, end, arith}
use odin_sentinel.Pacing.{
  HarnessProfile, PacingRecommendation, allowed, avoid, recommend, is_conservative_recommendation,
  conservative_fallback, is_safe_harness_id,
}
use odin_sentinel.Pacing.Crashes.{recommend-conservative}

abbrev permissive : HarnessProfile
permissive = record {
  crash_signatures = [];
  recommended = record {
    harness_id = text "crush";
    max_word_bucket = text "400+ words";
    min_idle_wait_seconds = 1;
    slash_command_bundling = allowed;
    multi_phase_prompting = allowed;
    notes = text "fast";
    extra = end;
  };
}

abbrev crashed : HarnessProfile
crashed = record { crash_signatures = text "f943" ∷ []; recommended = permissive.recommended }

abbrev locally : Text → Option HarnessProfile
locally id = some permissive

abbrev seeded : Text → Option HarnessProfile
seeded id = some crashed

recommend-conservative_example :
    is_conservative_recommendation (recommend locally seeded (text "crush")) ≡ true
unfolding is_safe_harness_id odin_sentinel.Pacing.crashes
recommend-conservative_example =
    recommend-conservative locally seeded (text "crush") refl (inr (omega arith))

-- The fallback leaves the bundling of slash commands open, which the test does not accept.
fallback_is_open : is_conservative_recommendation (conservative_fallback (text "new")) ≡ false
unfolding is_conservative_recommendation conservative_fallback
fallback_is_open = refl
