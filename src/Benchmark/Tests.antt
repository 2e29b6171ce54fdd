-- ===== src/Benchmark/Tests.antt =====
-- benchmarks/run_benchmark.py: a sweep of two sizes.
use inference_forge.Base.{ℕ, ◌≡◌, refl, false, true, [], ◌∷◌}
use inference_forge.Base.Fraction.{whole}
use inference_forge.Benchmark.{Summary, best_from, mark_optimal}

-- Ten tickets a second with no failure, and sixteen with one in ten.
abbrev row : ℕ → ℕ → ℕ → Summary
row size throughput failures = record {
  batch_size = size;
  avg_duration_s = whole 1;
  avg_throughput = whole throughput;
  avg_failure_rate = whole failures;
  reps_ok = 3;
  optimal = false;
}

-- The second row has too many failures.
marked :
    mark_optimal (row 10 10 0 ∷ row 50 16 10 ∷ [])
    ≡ record (row 10 10 0) { optimal = true } ∷ row 50 16 10 ∷ []
unfolding mark_optimal best_from
marked = refl
