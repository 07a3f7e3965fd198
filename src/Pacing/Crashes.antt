-- ===== src/Pacing/Crashes.antt =====
-- src/harness-pacing/recommend.ts: a harness that has crashed gets a conservative recommendation.
use odin_sentinel.Base.{ℕ, zero, suc, ◌<◌, ◌≡◌, true, Option, none, some, Text, arith, ◌⊎◌}
use odin_sentinel.Pacing.{
  HarnessProfile, PacingRecommendation, is_safe_harness_id, apply_crash_override,
  is_conservative_recommendation, crashes, recommended, recommend,
}

apply_crash_override-conservative :
    (rec : PacingRecommendation) (n : ℕ)
    → 0 < n
    → is_conservative_recommendation (apply_crash_override rec n) ≡ true
unfolding apply_crash_override is_conservative_recommendation
apply_crash_override-conservative rec zero h = ground arith
apply_crash_override-conservative rec (suc n) h = ground arith

recommended-conservative :
    (id : Text) (local seed : Option HarnessProfile)
    → (0 < crashes local) ⊎ (0 < crashes seed)
    → is_conservative_recommendation (recommended id local seed) ≡ true
unfolding recommended crashes
recommended-conservative id (some p) seed h =
    apply_crash_override-conservative p.recommended _ (ground arith)
recommended-conservative id none (some p) h =
    apply_crash_override-conservative p.recommended _ (ground arith)
recommended-conservative id none none h = ground arith

module _ (read_profile load_seed : Text → Option HarnessProfile) where
  -- Where the local profile or the seed of a safe harness id has a crash signature, the
  -- recommendation is conservative: the smallest bucket, five seconds of waiting at least, and no
  -- bundling of slash commands, whatever the other of the two says.
  pub recommend-conservative :
      (id : Text)
      → is_safe_harness_id id ≡ true
      → (0 < crashes (read_profile id)) ⊎ (0 < crashes (load_seed id))
      → is_conservative_recommendation (recommend read_profile load_seed id) ≡ true
  unfolding recommend
  recommend-conservative id safe h =
      simp (recommend, safe) (recommended-conservative id (read_profile id) (load_seed id) h)
