-- ===== src/Metrics/Tests.antt =====
-- observability/metrics.py: its window at work.
use inference_forge.Base.{ℕ, suc, ◌+◌, ◌≡◌, refl, List, [], ◌∷◌}
use inference_forge.Base.Fraction.{Fraction, whole}
use inference_forge.Text.{codes}
use inference_forge.Metrics.{Metrics, record_latency}
use inference_forge.Metrics.Registry.{Prometheus, Event, latency, api_call, cache_hit, cache_miss}
use inference_forge.Metrics.Window.{record_all}

abbrev fresh : Metrics
fresh = record {
  latency_window = [];
  total_tokens = 0;
  total_api_calls = 0;
  total_cache_hits = 0;
  total_cache_misses = 0;
}

abbrev samples : List Fraction
samples = whole 120 ∷ whole 80 ∷ []

fresh_window : (record_all samples fresh).latency_window ≡ samples
unfolding record_latency
fresh_window = refl

-- Objects that keep one number each.
abbrev numbers : Prometheus
numbers = record {
  Counter = ℕ;
  counter = 0;
  inc = λ n c. c + n;
  value = λ c. c;
  Labelled = ℕ;
  labelled = 0;
  inc_labels = λ status model l. suc l;
  total = λ l. l;
  Histogram = ℕ;
  histogram = λ buckets. 0;
  observe = λ x h. suc h;
  count = λ h. h;
  value-counter = refl;
  value-inc = λ n c. refl;
  total-labelled = refl;
  total-inc_labels = λ status model l. refl;
  count-histogram = λ buckets. refl;
  count-observe = λ x h. refl;
}

abbrev events : List Event
events =
    cache_miss
    ∷ latency (whole 120)
    ∷ api_call (codes "success") (codes "sarvam-m") 90
    ∷ api_call (codes "error") (codes "sarvam-m") 0
    ∷ cache_hit
    ∷ []
