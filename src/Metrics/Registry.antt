-- ===== src/Metrics/Registry.antt =====
-- observability/metrics.py: the Prometheus objects of REGISTRY beside the running totals.
--
-- prometheus_client is an interface: its objects, and what is documented of `inc` and `observe`.
-- The gauges are set elsewhere, and stand in the models of the code that sets them.
use inference_forge.Base.{ℕ, suc, ◌+◌, ◌≡◌, List, [], ◌∷◌, ltb, ◌==◌, length, if◌then◌else◌}
use inference_forge.Base.Fraction.{Fraction}
use inference_forge.Text.{Text}
use inference_forge.Metrics.{
  Metrics, maxlen, record_latency, record_api_call, record_cache_hit, record_cache_miss,
}

-- A counter, a counter with the labels `status` and `model`, whose `total` is the sum over their
-- values, and a histogram with the upper bounds of its buckets.
pub record Prometheus : Type 1 where
  pub Counter : Type 0
  pub counter : Counter
  pub inc : ℕ → Counter → Counter
  pub value : Counter → ℕ
  pub Labelled : Type 0
  pub labelled : Labelled
  pub inc_labels : (status model : Text) → Labelled → Labelled
  pub total : Labelled → ℕ
  pub Histogram : Type 0
  pub histogram : List ℕ → Histogram
  pub observe : Fraction → Histogram → Histogram
  pub count : Histogram → ℕ
  pub value-counter : value counter ≡ 0
  pub value-inc : (n : ℕ) (c : Counter) → value (inc n c) ≡ value c + n
  pub total-labelled : total labelled ≡ 0
  pub total-inc_labels :
      (status model : Text) (l : Labelled) → total (inc_labels status model l) ≡ suc (total l)
  pub count-histogram : (buckets : List ℕ) → count (histogram buckets) ≡ 0
  pub count-observe : (x : Fraction) (h : Histogram) → count (observe x h) ≡ suc (count h)

-- A call of one of the four functions that record.
pub data Event : Type 0 where
  latency : Fraction → Event
  api_call : (status model : Text) (token_count : ℕ) → Event
  cache_hit : Event
  cache_miss : Event

abbrev up_to : ℕ → ℕ → ℕ
up_to bound n = if ltb bound n then bound else n

abbrev hit_rate : ℕ → ℕ → Fraction
hit_rate hits misses =
    if hits + misses == 0
    then record { num = 0; den = 1 }
    else record { num = hits; den = hits + misses }

module _ (p : Prometheus) where
  -- The state of the module: its Prometheus objects, and its window and totals.
  pub record State : Type 0 where
    pub api_calls_total : p.Labelled
    pub tokens_total : p.Counter
    pub cache_hits_total : p.Counter
    pub cache_misses_total : p.Counter
    pub latency_ms : p.Histogram
    pub metrics : Metrics

  abbrev pub buckets : List ℕ
  buckets = 100 ∷ 250 ∷ 500 ∷ 1000 ∷ 2000 ∷ 5000 ∷ []

  -- The state when the module is imported.
  abbrev pub imported : State
  imported = record {
    api_calls_total = p.labelled;
    tokens_total = p.counter;
    cache_hits_total = p.counter;
    cache_misses_total = p.counter;
    latency_ms = p.histogram buckets;
    metrics = record {
      latency_window = [];
      total_tokens = 0;
      total_api_calls = 0;
      total_cache_hits = 0;
      total_cache_misses = 0;
    };
  }

  unfoldable pub recorded : Event → State → State
  recorded (latency ms) s = record s {
    metrics = record_latency ms s.metrics;
    latency_ms = p.observe ms s.latency_ms;
  }
  recorded (api_call status model token_count) s = record s {
    api_calls_total = p.inc_labels status model s.api_calls_total;
    tokens_total = p.inc token_count s.tokens_total;
    metrics = record_api_call token_count s.metrics;
  }
  recorded cache_hit s = record s {
    cache_hits_total = p.inc 1 s.cache_hits_total;
    metrics = record_cache_hit s.metrics;
  }
  recorded cache_miss s = record s {
    cache_misses_total = p.inc 1 s.cache_misses_total;
    metrics = record_cache_miss s.metrics;
  }

  abbrev pub all_recorded : List Event → State → State
  all_recorded [] s = s
  all_recorded (e ∷ es) s = all_recorded es (recorded e s)

  -- The totals are those of the counters, and the window holds the samples of the histogram, or
  -- `maxlen` of them.
  pub record IsMirror (s : State) : Type 0 where
    pub calls : s.metrics.total_api_calls ≡ p.total s.api_calls_total
    pub tokens : s.metrics.total_tokens ≡ p.value s.tokens_total
    pub hits : s.metrics.total_cache_hits ≡ p.value s.cache_hits_total
    pub misses : s.metrics.total_cache_misses ≡ p.value s.cache_misses_total
    pub window : length s.metrics.latency_window ≡ up_to maxlen (p.count s.latency_ms)
