-- ===== src/Config/Checks.antt =====
-- config.py: which settings pass Field's bounds.
use inference_forge.Base.{ℕ, ◌≤◌, ◌≡◌, refl, Bool, true, false, ◌&&◌, List, [], ◌∷◌, All, arith}
use inference_forge.Config.{ℤ, pos, negsuc, Settings, ge, le, all_of, checks, in_ranges}

abbrev pub From : ℕ → ℤ → Type 0
From a z = (n : ℕ) × ((z ≡ pos n) × (a ≤ n))

abbrev pub Between : ℕ → ℕ → ℤ → Type 0
Between a b z = (n : ℕ) × ((z ≡ pos n) × ((a ≤ n) × (n ≤ b)))

-- The bounds of each field that has some.
pub record InRanges (s : Settings) : Type 0 where
  pub min_interval : From 0 s.sarvam_min_interval_ms
  pub mock_latency : From 0 s.sarvam_mock_latency_ms
  pub calls : Between 1 50 s.max_concurrent_api_calls
  pub threshold : From 1 s.cb_failure_threshold
  pub window : From 5 s.cb_window_seconds
  pub timeout : From 5 s.cb_recovery_timeout
  pub retries : Between 1 5 s.max_retries

ge-From : (a : ℕ) (z : ℤ) → ge a z ≡ true → From a z
ge-From a (pos n) h = (n, (refl, ground arith))
ge-From a (negsuc n) h = cc

From-ge : (a : ℕ) (z : ℤ) → From a z → ge a z ≡ true
From-ge a z (n, (e, h)) = ground arith

both-Between : (a b : ℕ) (z : ℤ) → ge a z && le b z ≡ true → Between a b z
both-Between a b (pos n) h = (n, (refl, (ground arith, ground arith)))
both-Between a b (negsuc n) h = cc

Between-both : (a b : ℕ) (z : ℤ) → Between a b z → ge a z && le b z ≡ true
Between-both a b z (n, (e, (h, k))) = ground arith

both_true : (x y : Bool) → x && y ≡ true → (x ≡ true) × (y ≡ true)
both_true true true h = (refl, refl)
both_true true false h = cc
both_true false y h = cc

all_of-All : (bs : List Bool) → all_of bs ≡ true → All (λ b. b ≡ true) bs
all_of-All [] h = tt
all_of-All (b ∷ bs) h = let (x, y) = both_true b (all_of bs) h in (x, all_of-All bs y)

All-all_of : (bs : List Bool) → All (λ b. b ≡ true) bs → all_of bs ≡ true
All-all_of [] h = refl
All-all_of (b ∷ bs) (x, xs) = rw (all_of, x) (All-all_of bs xs)

pub in_ranges-InRanges : (s : Settings) → in_ranges s ≡ true → InRanges s
unfolding in_ranges
in_ranges-InRanges s h =
    let (a, (b, (c, (d, (e, (f, (g, _))))))) = all_of-All (checks s) h in
    record {
      min_interval = ge-From 0 s.sarvam_min_interval_ms a;
      mock_latency = ge-From 0 s.sarvam_mock_latency_ms b;
      calls = both-Between 1 50 s.max_concurrent_api_calls c;
      threshold = ge-From 1 s.cb_failure_threshold d;
      window = ge-From 5 s.cb_window_seconds e;
      timeout = ge-From 5 s.cb_recovery_timeout f;
      retries = both-Between 1 5 s.max_retries g;
    }

pub InRanges-in_ranges : (s : Settings) → InRanges s → in_ranges s ≡ true
unfolding in_ranges
InRanges-in_ranges s v = All-all_of (checks s) (
  From-ge 0 s.sarvam_min_interval_ms v.min_interval,
  (
    From-ge 0 s.sarvam_mock_latency_ms v.mock_latency,
    (
      Between-both 1 50 s.max_concurrent_api_calls v.calls,
      (
        From-ge 1 s.cb_failure_threshold v.threshold,
        (
          From-ge 5 s.cb_window_seconds v.window,
          (
            From-ge 5 s.cb_recovery_timeout v.timeout,
            (Between-both 1 5 s.max_retries v.retries, tt),
          ),
        ),
      ),
    ),
  ),
)
