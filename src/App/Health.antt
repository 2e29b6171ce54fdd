-- ===== src/App/Health.antt =====
-- api/routes.py and api/schemas.py: health_check, and _active_job_count, which it shows.
--
-- `_active_job_count` and the gauge active_jobs change together. A job's task is in its first steps
-- until job_store.start returns, behind the increment and outside of the try statement. The
-- percentage, the cost and the latency are not rounded.
pub mod Active
use inference_forge.Base.{ℕ, ◌*◌, ◌+◌, ◌≡◌, ◌≢◌, ◌≤◌, refl, List, arith}
use inference_forge.Base.Fraction.{Fraction, ◌≤ℚ◌}
use inference_forge.Errors.{
  Error, circuit_breaker_open, http_status, json_decode, value_error, other_exception, cancelled,
  Result, ok, raise,
}
use inference_forge.Text.{Text, codes}
use inference_forge.Breaker.{CbState, closed, opened, half_open, Breaker}
use inference_forge.Metrics.{Metrics, Summary, Percentiles, get_percentiles, get_summary}

pub record HealthMetrics : Type 0 where
  pub total_api_calls : ℕ
  pub total_tokens_used : ℕ
  pub estimated_cost_usd : Fraction
  pub p95_latency_ms : Fraction

pub record HealthResponse : Type 0 where
  pub status : Text
  pub circuit_breaker : Text
  pub redis : Text
  pub cache_hit_rate : Fraction
  pub queue_depth : ℕ
  pub active_jobs : ℕ
  pub metrics : HealthMetrics

-- What the handler reads of the process: the module's metrics, the breaker, the gauge of the queue
-- and the count of jobs.
pub record Process : Type 0 where
  pub metrics : Metrics
  pub breaker : Breaker
  pub queue_depth : ℕ
  pub active_job_count : ℕ

-- CBState's values.
abbrev pub value : CbState → Text
value closed = codes "CLOSED"
value opened = codes "OPEN"
value half_open = codes "HALF_OPEN"

-- except Exception, which a cancellation passes.
abbrev pub redis_status : Result (Unit {0}) → Result Text
redis_status (ok _) = ok (codes "connected")
redis_status (raise cancelled) = raise cancelled
redis_status (raise _) = ok (codes "disconnected")

module _ (percentile : ℕ → List Fraction → Fraction) (cost_per_1k_tokens : Fraction) where
  abbrev pub response : Text → Process → HealthResponse
  response redis p =
      let summary = get_summary percentile cost_per_1k_tokens p.metrics in
      record {
        status = codes "ok";
        circuit_breaker = value p.breaker.state;
        redis = redis;
        cache_hit_rate = summary.cache_hit_rate;
        queue_depth = p.queue_depth;
        active_jobs = p.active_job_count;
        metrics = record {
          total_api_calls = summary.total_api_calls;
          total_tokens_used = summary.total_tokens_used;
          estimated_cost_usd = summary.estimated_cost_usd;
          p95_latency_ms = summary.percentiles.p95_ms;
        };
      }

  abbrev pub answered : Result Text → Process → Result HealthResponse
  answered (ok redis) p = ok (response redis p)
  answered (raise e) p = raise e

  unfoldable pub health_check : Result (Unit {0}) → Process → Result HealthResponse
  health_check ping p = answered (redis_status ping) p

  rate-le :
      (redis : Text) (p : Process)
      → (response redis p).cache_hit_rate ≤ℚ record { num = 1; den = 1 }
  unfolding get_summary
  rate-le redis p = ground arith

  redis_status-ok :
      (ping : Result (Unit {0}))
      → ping ≢ raise cancelled
      → (redis : Text) × (redis_status ping ≡ ok redis)
  redis_status-ok (ok x) n = (codes "connected", refl)
  redis_status-ok (raise cancelled) n = absurd (n refl)
  redis_status-ok (raise circuit_breaker_open) n = (codes "disconnected", refl)
  redis_status-ok (raise (http_status _ _)) n = (codes "disconnected", refl)
  redis_status-ok (raise json_decode) n = (codes "disconnected", refl)
  redis_status-ok (raise value_error) n = (codes "disconnected", refl)
  redis_status-ok (raise (other_exception _)) n = (codes "disconnected", refl)

  -- Whatever Redis answers to the ping, an exception included, the health check is answered with
  -- status ok, with the state of the breaker, the counts of the process and a cache hit rate of at
  -- most 1; only the field of Redis depends on the ping. A cancellation alone passes.
  pub health_check_lem :
      (ping : Result (Unit {0})) (p : Process)
      → ping ≢ raise cancelled
      → (r : HealthResponse) × (health_check ping p ≡ ok r)
        × (r ≡ record (response (codes "connected") p) { redis = r.redis })
        × (r.status ≡ codes "ok")
        × (r.circuit_breaker ≡ value p.breaker.state)
        × (r.active_jobs ≡ p.active_job_count)
        × (r.cache_hit_rate ≤ℚ record { num = 1; den = 1 })
  unfolding health_check
  health_check_lem ping p n =
      let (redis, e) = redis_status-ok ping n in
      (response redis p, rw e refl, refl, refl, refl, refl, rate-le redis p)
