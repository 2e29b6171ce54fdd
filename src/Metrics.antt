-- ===== src/Metrics.antt =====
-- observability/metrics.py: the window of latencies, the running totals and the summary.
--
-- Registry.antt has the Prometheus objects beside them. The percentiles are numpy's: any function
-- of the window. Nothing is rounded.
pub mod Registry
pub mod Window
mod Tests
use mathlib.Core.List.{append-nil, append_assoc}
use inference_forge.Base.{
  ℕ, zero, suc, ◌+◌, ◌-◌, ◌*◌, ◌≡◌, ◌≤◌, refl, sym, ◌∙◌, ap, Bool-cases, inl, inr, Bool, true,
  false, Option, none, some, List, [], ◌∷◌, ◌++◌, ltb, leb, ◌==◌, length, length-append,
  if◌then◌else◌, arith,
}
use inference_forge.Base.Fraction.{Fraction, ◌*ℚ◌}

pub record Metrics : Type 0 where
  pub latency_window : List Fraction
  pub total_tokens : ℕ
  pub total_api_calls : ℕ
  pub total_cache_hits : ℕ
  pub total_cache_misses : ℕ

abbrev pub maxlen : ℕ
maxlen = 1000

abbrev pub popleft : List Fraction → List Fraction
popleft [] = []
popleft (_ ∷ xs) = xs

-- append on a deque with a maxlen: a full one drops its left end.
unfoldable pub push : ℕ → Fraction → List Fraction → List Fraction
push bound x xs = let ys = xs ++ x ∷ [] in if ltb bound (length ys) then popleft ys else ys

unfoldable pub record_latency : Fraction → Metrics → Metrics
unfolding push
record_latency ms m = record m { latency_window = push maxlen ms m.latency_window }

unfoldable pub record_api_call : ℕ → Metrics → Metrics
record_api_call token_count m = record m {
  total_tokens = m.total_tokens + token_count;
  total_api_calls = suc m.total_api_calls;
}

unfoldable pub record_cache_hit : Metrics → Metrics
record_cache_hit m = record m { total_cache_hits = suc m.total_cache_hits }

unfoldable pub record_cache_miss : Metrics → Metrics
record_cache_miss m = record m { total_cache_misses = suc m.total_cache_misses }

pub record Percentiles : Type 0 where
  pub p50_ms : Fraction
  pub p95_ms : Fraction
  pub p99_ms : Fraction

abbrev pub no_latency : Fraction
no_latency = record { num = 0; den = 1 }

unfoldable pub get_percentiles : (ℕ → List Fraction → Fraction) → Metrics → Percentiles
get_percentiles percentile m = elim m.latency_window [
  | [] ↦ record { p50_ms = no_latency; p95_ms = no_latency; p99_ms = no_latency }
  | x ∷ xs ↦ record {
    p50_ms = percentile 50 (x ∷ xs);
    p95_ms = percentile 95 (x ∷ xs);
    p99_ms = percentile 99 (x ∷ xs);
  }
]

pub record Summary : Type 0 where
  pub total_api_calls : ℕ
  pub total_tokens_used : ℕ
  pub estimated_cost_usd : Fraction
  pub cache_hit_rate : Fraction
  pub percentiles : Percentiles

unfoldable pub get_summary : (ℕ → List Fraction → Fraction) → Fraction → Metrics → Summary
unfolding get_percentiles
get_summary percentile cost_per_1k_tokens m =
    let total_requests = m.total_cache_hits + m.total_cache_misses in
    record {
      total_api_calls = m.total_api_calls;
      total_tokens_used = m.total_tokens;
      estimated_cost_usd = record { num = m.total_tokens; den = 1000 } *ℚ cost_per_1k_tokens;
      cache_hit_rate =
          if total_requests == 0
          then record { num = 0; den = 1 }
          else record { num = m.total_cache_hits; den = total_requests };
      percentiles = get_percentiles percentile m;
    }
