-- ===== src/Jobs/Process.antt =====
-- api/routes.py: _process_job, over the batcher of Batcher and the store of Store.
--
-- The batcher is the job's own, so the loop runs over the batches that draining it gives.
-- `process_batch i` is what caller.process_batch returns for the batch number `i`, or raises;
-- `duration i` is how long it takes, and `plus` is the sum of two values of Python. `cost_usd` is the
-- cost of the tokens, `percentiles` those of the process when the job ends, and `job_seconds` how
-- long the job took. The updates
-- that other jobs make to the shared estimator, the count of active jobs and the logs are left out.
use inference_forge.Base.{
  ℕ, zero, suc, ◌+◌, ◌-◌, Bool, true, false, not, Option, none, some, List, [], ◌∷◌, ◌++◌, ◌==◌,
  ◌&&◌, ◌||◌, if◌then◌else◌,
}
use inference_forge.Base.Fraction.{Fraction}
use inference_forge.Errors.{Error, value_error, cancelled, Result, ok, raise}
use inference_forge.Json.{
  Json, null, boolean, natural, number, text, array, object, item, end, done, field, Fields, get,
  put,
}
use inference_forge.Text.{Text, codes}
use inference_forge.Batcher.{Batch}
use inference_forge.Estimator.Eta.{EtaEstimator, update, estimate}
use inference_forge.Metrics.{Percentiles}
use inference_forge.Jobs.Store.{
  Job, Stats, start, increment_progress, publish_progress, publish_done, finish, fail,
}

-- Whether a number's literal is a zero: its digits before an exponent are.
abbrev pub is_zero : Text → Bool
is_zero [] = true
is_zero (c ∷ cs) =
    let rest = is_zero cs in
    if c == 0x65 || c == 0x45 then true else (c == 0x2d || c == 0x2e || c == 0x30) && rest

-- The truth value of d.get(key).
abbrev pub truthy : Option Json → Bool
truthy none = false
truthy (some null) = false
truthy (some (boolean b)) = b
truthy (some (natural zero)) = false
truthy (some (natural (suc _))) = true
truthy (some (number literal)) = not (is_zero literal)
truthy (some (text [])) = false
truthy (some (text (_ ∷ _))) = true
truthy (some (array end)) = false
truthy (some (array (item _ _))) = true
truthy (some (object done)) = false
truthy (some (object (field _ _ _))) = true

abbrev pub is_error : Fields → Bool
is_error d = truthy (get (codes "error") d)

abbrev pub is_hit : Fields → Bool
is_hit d = truthy (get (codes "cache_hit") d)

abbrev pub add_if : Bool → ℕ → ℕ
add_if b n = if b then suc n else n

pub record Tally : Type 0 where
  pub results : List Fields
  pub completed : ℕ
  pub failed : ℕ
  pub hits : ℕ

abbrev pub add_result : Fields → Tally → Tally
add_result d t = record {
  results = d ∷ t.results;
  completed = add_if (not (is_error d)) t.completed;
  failed = add_if (is_error d) t.failed;
  hits = add_if (is_hit d) t.hits;
}

abbrev pub counted : Fields → Option Tally → Option Tally
counted d none = none
counted d (some t) = some (add_result d t)

-- The loop over zip(batch.tickets, batch_results, strict=True), none where their lengths differ.
unfoldable pub tally : List Text → List Fields → Option Tally
tally [] [] = some (record { results = []; completed = 0; failed = 0; hits = 0 })
tally [] (_ ∷ _) = none
tally (_ ∷ _) [] = none
tally (t ∷ ts) (r ∷ rs) = counted (put (codes "ticket") (text t) r) (tally ts rs)

pub record Round : Type 0 where
  pub all_results : List Fields
  pub completed : ℕ
  pub failed_count : ℕ
  pub cache_hits : ℕ
  pub job : Job
  pub estimator : EtaEstimator

pub record Env : Type 0 where
  pub process_batch : ℕ → List Text → Result (List Fields)
  pub duration : ℕ → Fraction
  pub plus : Json → Json → Result Json
  pub describe : Error → Text
  pub cost_usd : Json → Fraction
  pub percentiles : Percentiles
  pub job_seconds : Fraction
  pub job_ttl_seconds : ℕ
  pub started_at : ℕ
  pub ended_at : ℕ

abbrev pub or_zero : Option Json → Json
or_zero none = natural 0
or_zero (some v) = v

-- d.get("tokens", 0)
abbrev pub tokens_of : Fields → Json
tokens_of d = or_zero (get (codes "tokens") d)

-- sum(r.get("tokens", 0) for r in results)
unfoldable pub sum_tokens : (Json → Json → Result Json) → Json → List Fields → Result Json
sum_tokens plus sum [] = ok sum
sum_tokens plus sum (d ∷ ds) = elim (plus sum (tokens_of d)) [
  | raise e ↦ raise e
  | ok sum' ↦ sum_tokens plus sum' ds
]

-- n / total_tickets if total_tickets else 0.0
abbrev pub rate : ℕ → ℕ → Fraction
rate total_tickets n =
    if total_tickets == 0
    then record { num = 0; den = 1 }
    else record { num = n; den = total_tickets }

module _ (env : Env) (total_tickets : ℕ) where
  -- The rest of the loop's body, behind the loop over the results.
  abbrev pub advance : Batch → Tally → EtaEstimator → Round → Round
  advance batch t e r =
      let completed = r.completed + (t.completed + t.failed) in
      let failed_count = r.failed_count + t.failed in
      let hits = r.cache_hits + t.hits in
      let eta = estimate (total_tickets - completed) (some batch.complexity) e in
      record {
        all_results = r.all_results ++ t.results;
        completed = completed;
        failed_count = failed_count;
        cache_hits = hits;
        job =
            publish_progress completed total_tickets hits failed_count eta
              (increment_progress t.completed t.failed t.hits r.job);
        estimator = e;
      }

  abbrev pub tallied : Batch → Option Tally → EtaEstimator → Round → Result Round
  tallied batch none e r = raise value_error
  tallied batch (some t) e r = ok (advance batch t e r)

  abbrev pub received : ℕ → Batch → Result (List Fields) → Round → Result Round
  received i batch (raise e) r = raise e
  received i batch (ok results) r =
      tallied batch (tally batch.tickets results) (update (env.duration i) r.estimator) r

  unfoldable pub one_round : ℕ → Batch → Round → Result Round
  one_round i batch r = received i batch (env.process_batch i batch.tickets) r

  -- The state at the end of the loop, and the exception that ended it.
  abbrev pub and_next : (Round → Option Error × Round) → Round → Result Round → Option Error × Round
  and_next rest r (raise e) = (some e, r)
  and_next rest r (ok r') = rest r'

  unfoldable pub rounds : ℕ → List Batch → Round → Option Error × Round
  rounds i [] r = (none, r)
  rounds i (b ∷ bs) r = and_next (rounds (suc i) bs) r (one_round i b r)

  abbrev pub stats_of : Json → Round → Stats
  stats_of tokens r = record {
    total_tokens = tokens;
    cost_usd = env.cost_usd tokens;
    p50_ms = env.percentiles.p50_ms;
    p95_ms = env.percentiles.p95_ms;
    p99_ms = env.percentiles.p99_ms;
    duration_seconds = env.job_seconds;
    failure_rate = rate total_tickets r.failed_count;
    cache_hit_rate = rate total_tickets r.cache_hits;
  }

  -- except Exception, which a cancellation passes.
  abbrev pub on_exception : Error → Job → Job
  on_exception cancelled j = j
  on_exception e j = fail env.ended_at (env.describe e) j

  abbrev pub complete : Result Json → Round → Job
  complete (raise e) r = on_exception e r.job
  complete (ok tokens) r =
      publish_done r.all_results (stats_of tokens r)
        (finish env.job_ttl_seconds env.ended_at r.all_results r.job)

  abbrev pub conclude : Option Error × Round → Job
  conclude (some e, r) = on_exception e r.job
  conclude (none, r) = complete (sum_tokens env.plus (natural 0) r.all_results) r

  abbrev pub first_round : ℕ → List Fields → EtaEstimator → Job → Round
  first_round pre_cached pre_cached_results estimator j = record {
    all_results = pre_cached_results;
    completed = pre_cached;
    failed_count = 0;
    cache_hits = pre_cached;
    job = start env.started_at j;
    estimator = estimator;
  }

  unfoldable pub process_job : List Batch → ℕ → List Fields → EtaEstimator → Job → Job
  process_job batches pre_cached pre_cached_results estimator j =
      conclude (rounds 0 batches (first_round pre_cached pre_cached_results estimator j))
