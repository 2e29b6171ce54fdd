-- ===== src/Caller/DownTests.antt =====
-- pipeline/caller.py: two tickets whose calls of the API all fail.
use inference_forge.Base.{◌+◌, ◌≤◌, ◌≡◌, refl, true, none, [], ◌∷◌, arith}
use inference_forge.Base.Fraction.{whole}
use inference_forge.Errors.{http_status, raise}
use inference_forge.Text.{codes}
use inference_forge.Breaker.{Breaker, new, on_failure, maybe_transition, drop_old}
use inference_forge.Breaker.Call.{call, execute, settle}
use inference_forge.Caller.Retry.{
  World, handle, on_status, server_error, try_once, loop, call_with_retry,
}
use inference_forge.Caller.Metered.{metered}
use inference_forge.Caller.Failures.{IsDown}
use inference_forge.Caller.Down.{metered_in_turn, down_api_spared}
use inference_forge.Metrics.{Metrics, record_api_call}

abbrev refusing : World
refusing = record {
  settings = record { max_retries = 3; retry_backoff_base = whole 1; cb_enabled = true };
  clock = λ i. i;
  wait = λ b. b;
  api = λ attempt b. (raise (http_status 503 none), b);
  sleep = λ d b. b;
  uniform = λ i. whole 0;
  to_float = λ s. none;
}

abbrev quiet : Breaker
quiet = new (λ i. i) 5 20 30 0

abbrev totals : Metrics
totals = record {
  latency_window = [];
  total_tokens = 40;
  total_api_calls = 7;
  total_cache_hits = 0;
  total_cache_misses = 0;
}

refusing-IsDown : IsDown refusing quiet 0 24
unfolding new
refusing-IsDown = record {
  enabled = refl;
  refuses = λ attempt b. (503, none, refl);
  undisturbed = λ d b. refl;
  readings = λ i after before. (omega arith, omega (arith, before), omega (arith, before));
}

-- The fifth of six attempts opens the breaker.
five_calls :
    (metered_in_turn refusing
      (λ i. whole 9)
      (codes "a" ∷ codes "b" ∷ [])
      quiet
      totals).total_api_calls
    ≡ 12
unfolding metered_in_turn metered call_with_retry loop handle on_status server_error try_once call
    new on_failure maybe_transition execute settle drop_old record_api_call
five_calls = refl

down_api_spared_example :
    (metered_in_turn refusing
      (λ i. whole 9)
      (codes "a" ∷ codes "b" ∷ [])
      quiet
      totals).total_api_calls
    ≤ 7 + 5
unfolding new
down_api_spared_example =
    down_api_spared refusing (λ i. whole 9) (codes "a" ∷ codes "b" ∷ []) quiet totals 0
      refusing-IsDown refl refl (omega arith)
