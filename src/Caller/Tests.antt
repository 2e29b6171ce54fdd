-- ===== src/Caller/Tests.antt =====
-- pipeline/caller.py: its theorems at work on concrete answers and outages.
use inference_forge.Base.{
  ℕ, zero, suc, ◌≡◌, inl, inr, Bool-cases, refl, true, false, none, some, [], ◌∷◌, length, ltb,
  if◌then◌else◌, arith,
}
use inference_forge.Base.Fraction.{Fraction, whole}
use inference_forge.Errors.{Error, http_status, value_error, Result, ok, raise}
use inference_forge.Text.{Text, codes}
use inference_forge.Json.{Json, natural, object, Fields, put}
use inference_forge.Breaker.{Breaker, new}
use inference_forge.Cache.Example.{answer}
use inference_forge.Caller.Request.{Api, Throttle}
use inference_forge.Caller.Spacing.{Paced, after_calls, posts-Paced}
use inference_forge.Caller.Retry.{
  World, handle, on_status, server_error, try_once, call_with_retry, failure_result,
}
use inference_forge.Caller.Verdicts.{status, Decides, classified}
use inference_forge.Caller.Attempts.{
  AllTransient, after, call_with_retry_decided, call_with_retry_exhausted,
}
use inference_forge.Metrics.{Metrics, record_api_call, record_latency}
use inference_forge.Caller.Metered.{IsOutcome, Counted, metered, call_with_retry-Counted}
use inference_forge.Caller.Service.{process_batch, take}
use inference_forge.Caller.Batches.{process_batch_lem, get_elem?}

-- Two attempts meet a 503; the third is answered.
abbrev outcome : ℕ → Result (Json × Json)
outcome n = if ltb n 3 then raise (http_status 503 none) else ok (object answer, natural 7)

abbrev world : World
world = record {
  settings = record { max_retries = 3; retry_backoff_base = whole 1; cb_enabled = false };
  clock = λ i. i;
  wait = λ b. b;
  api = λ attempt b. (outcome attempt, b);
  sleep = λ d b. b;
  uniform = λ i. record { num = 1; den = 2 };
  to_float = λ s. none;
}

abbrev breaker : Breaker
breaker = new (λ i. i) 5 20 30 0

two_transient : AllTransient world 2 1 breaker
unfolding try_once
two_transient = (
  status 503 none refl (λ e. omega (arith, e)),
  (status 503 none refl (λ e. omega (arith, e)), tt),
)

third :
    Decides world
      (codes "t")
      3
      (try_once world 3 (after world 2 1 breaker)).0
      (ok (put (codes "tokens") (natural 7) answer))
unfolding try_once
third = classified answer (natural 7)

third_a :
    Decides world
      (codes "a")
      3
      (try_once world 3 (after world 2 1 breaker)).0
      (ok (put (codes "tokens") (natural 7) answer))
unfolding try_once
third_a = classified answer (natural 7)

call_with_retry_decided_example :
    ((call_with_retry world (codes "t") breaker).result
      ≡ ok (put (codes "tokens") (natural 7) answer))
    × ((call_with_retry world (codes "t") breaker).attempts ≡ 3)
call_with_retry_decided_example =
    call_with_retry_decided world (codes "t") 2 0 breaker
      (ok (put (codes "tokens") (natural 7) answer)) refl two_transient third

-- A breaker-guarded API that always answers 429 with a date.
abbrev dated : World
dated = record world { api = λ attempt b. (raise (http_status 429 (some "Wed, 21 Oct")), b) }

-- An API that is always down.
abbrev down : World
down = record world { api = λ attempt b. (raise (http_status 503 none), b) }

all_transient : AllTransient down 3 1 breaker
unfolding try_once
all_transient = (
  status 503 none refl (λ e. omega (arith, e)),
  (
    status 503 none refl (λ e. omega (arith, e)),
    (status 503 none refl (λ e. omega (arith, e)), tt),
  ),
)

exhausted :
    ((call_with_retry down (codes "t") breaker).result
      ≡ ok (failure_result (codes "t") (codes "max_retries_exceeded")))
    × ((call_with_retry down (codes "t") breaker).attempts ≡ 3)
exhausted = call_with_retry_exhausted down (codes "t") breaker all_transient

-- The answer with the tokens of the API, as it is stored.
abbrev with_tokens : Fields
with_tokens = put (codes "tokens") (natural 7) answer

decided : (call_with_retry world (codes "a") breaker).result ≡ ok with_tokens
decided =
    (call_with_retry_decided world (codes "a") 2 0 breaker (ok with_tokens) refl two_transient
      third_a).0

abbrev task : ℕ → Text → Result Fields
task zero t = ok answer
task (suc i) t = raise value_error

process_batch_lem_example :
    let describe = λ (e : Error). codes "ValueError: x" in
    let results = process_batch describe task (codes "a" ∷ codes "b" ∷ []) in
    (length results ≡ 2)
    × ((i : ℕ) (t : Text) (d : Fields)
        → get_elem? (codes "a" ∷ codes "b" ∷ []) i ≡ some t
        → task i t ≡ ok d
        → get_elem? results i ≡ some d)
    × ((i : ℕ) (t : Text) (e : Error)
        → get_elem? (codes "a" ∷ codes "b" ∷ []) i ≡ some t
        → task i t ≡ raise e
        → get_elem? results i ≡ some (failure_result t (take 500 (describe e))))
process_batch_lem_example =
    process_batch_lem (λ e. codes "ValueError: x") task (codes "a" ∷ codes "b" ∷ [])

abbrev throttled : Api
throttled = record {
  sarvam_api_base = codes "https://api";
  sarvam_model = codes "m";
  sarvam_api_key = codes "k";
  mock_mode = false;
  mock_latency_ms = 0;
  min_interval_ms = 200;
  delay = λ i. 5;
  client = λ t now. raise value_error;
  is_success = λ n. true;
  loads = λ t. ok (object answer);
  inc = λ v. ok tt;
}

abbrev idle : Throttle
idle = record { last_call_ts = 0; posts = []; time = 0; reads = 0 }

posts-Paced_example :
    Paced throttled 200000000 0 (after_calls throttled (codes "a" ∷ codes "b" ∷ []) idle).posts
posts-Paced_example =
    posts-Paced throttled (codes "a" ∷ codes "b" ∷ []) idle refl (omega arith) refl

abbrev latency : ℕ → Fraction
latency i = whole 120

abbrev metrics : Metrics
metrics = record {
  latency_window = [];
  total_tokens = 40;
  total_api_calls = 1;
  total_cache_hits = 0;
  total_cache_misses = 0;
}

outcomes : (i : ℕ) (b : Breaker) → IsOutcome world latency (try_once world i b).0
unfolding try_once
outcomes i b = elim (Bool-cases (ltb i 3)) [
  | inl e ↦ inr (http_status 503 none, rw e refl)
  | inr e ↦ inl (answer, 7, rw e refl)
]

call_with_retry-Counted_example :
    Counted world latency
      (call_with_retry world (codes "t") breaker)
      metrics
      (metered world latency 3 1 breaker metrics)
call_with_retry-Counted_example =
    call_with_retry-Counted world latency (codes "t") breaker metrics outcomes

-- The three calls are counted, and the tokens of the third.
totals :
    ((metered world latency 3 1 breaker metrics).total_tokens ≡ 47)
    × ((metered world latency 3 1 breaker metrics).total_api_calls ≡ 4)
unfolding metered try_once handle on_status server_error record_api_call record_latency
totals = (refl, refl)
