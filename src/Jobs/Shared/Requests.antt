-- ===== src/Jobs/Shared/Requests.antt =====
-- api/routes.py: the commands that a request and its job send to the server that all jobs share, and
-- get_results on that server.
use inference_forge.Base.{ℕ, suc, ◌-◌, ◌≡◌, refl, sym, ◌∙◌, ap, Option, none, some, List, [], ◌∷◌}
use inference_forge.Errors.{
  Error, circuit_breaker_open, http_status, json_decode, value_error, other_exception, cancelled,
  Result, ok, raise,
}
use inference_forge.Json.{Json, natural, Fields}
use inference_forge.Batcher.{Batch}
use inference_forge.Estimator.Eta.{EtaEstimator, update, estimate}
use inference_forge.Jobs.Store
use inference_forge.Jobs.Store.{Hash, Job, JobStatus, pending, processing, done, failed, no_job}
use inference_forge.Jobs.Process.{
  Env, Round, Tally, tally, sum_tokens, stats_of, advance, first_round, process_job, rounds,
  one_round, conclude, received, tallied, and_next, complete, on_exception,
}
use inference_forge.Jobs.Shared.Traces.{
  Call, start_call, progress_call, finish_call, fail_call, publish_call, done_call, all_alone,
}

module _ (env : Env) (total_tickets : ℕ) where
  abbrev pub exception_calls : Error → List Call
  exception_calls cancelled = []
  exception_calls e = fail_call env.ended_at (env.describe e) ∷ []

  abbrev pub end_calls : Result Json → Round → List Call
  end_calls (raise e) r = exception_calls e
  end_calls (ok tokens) r =
      finish_call env.ended_at r.all_results
      ∷ done_call r.all_results (stats_of env total_tickets tokens r)
      ∷ []

  abbrev pub tallied_calls :
      Batch → Option Tally → EtaEstimator → Round → (Round → List Call) → List Call
  tallied_calls batch none e r rest = exception_calls value_error
  tallied_calls batch (some t) e r rest =
      let r' = advance env total_tickets batch t e r in
      progress_call t.completed t.failed t.hits
      ∷ publish_call r'.completed total_tickets r'.cache_hits r'.failed_count
          (estimate (total_tickets - r'.completed) (some batch.complexity) e)
      ∷ rest r'

  abbrev pub received_calls :
      ℕ → Batch → Result (List Fields) → Round → (Round → List Call) → List Call
  received_calls i batch (raise e) r rest = exception_calls e
  received_calls i batch (ok results) r rest =
      tallied_calls batch (tally batch.tickets results) (update (env.duration i) r.estimator) r rest

  unfoldable pub round_calls : ℕ → List Batch → Round → List Call
  round_calls i [] r = end_calls (sum_tokens env.plus (natural 0) r.all_results) r
  round_calls i (b ∷ bs) r =
      received_calls i b (env.process_batch i b.tickets) r (round_calls (suc i) bs)

  -- What a job calls; the job in the first round is not used.
  unfoldable pub job_calls : List Batch → ℕ → List Fields → EtaEstimator → List Call
  job_calls batches pre_cached pre_cached_results estimator =
      start_call env.started_at
      ∷ round_calls 0 batches
          (first_round env total_tickets pre_cached pre_cached_results estimator no_job)

  exception_calls_lem :
      (e : Error) (j : Job)
      → all_alone env.job_ttl_seconds (exception_calls e) j ≡ on_exception env total_tickets e j
  exception_calls_lem circuit_breaker_open j = refl
  exception_calls_lem (http_status code after) j = refl
  exception_calls_lem json_decode j = refl
  exception_calls_lem value_error j = refl
  exception_calls_lem (other_exception name) j = refl
  exception_calls_lem cancelled j = refl

  end_calls_lem :
      (x : Result Json) (r : Round)
      → all_alone env.job_ttl_seconds (end_calls x r) r.job ≡ complete env total_tickets x r
  end_calls_lem (raise e) r = exception_calls_lem e r.job
  end_calls_lem (ok tokens) r = refl

  -- The calls go by the local variables alone.
  abbrev IgnoresJob : (Round → List Call) → Type 0
  IgnoresJob f = (r : Round) (j : Job) → f (record r { job = j }) ≡ f r

  end_calls-IgnoresJob : (x : Result Json) → IgnoresJob (end_calls x)
  end_calls-IgnoresJob (raise e) r j = refl
  end_calls-IgnoresJob (ok tokens) r j = refl

  tallied_calls-IgnoresJob :
      (b : Batch) (o : Option Tally) (e : EtaEstimator) (rest : Round → List Call)
      → IgnoresJob rest
      → IgnoresJob (λ r. tallied_calls b o e r rest)
  tallied_calls-IgnoresJob b none e rest h r j = refl
  tallied_calls-IgnoresJob b (some t) e rest h r j =
      let r' = advance env total_tickets b t e r in
      ap
        (λ cs.
          progress_call t.completed t.failed t.hits
          ∷ publish_call r'.completed total_tickets r'.cache_hits r'.failed_count
              (estimate (total_tickets - r'.completed) (some b.complexity) e)
          ∷ cs)
        (h r' _)

  received_calls-IgnoresJob :
      (i : ℕ) (b : Batch) (x : Result (List Fields)) (rest : Round → List Call)
      → IgnoresJob rest
      → IgnoresJob (λ r. received_calls i b x r rest)
  received_calls-IgnoresJob i b (raise e) rest h r j = refl
  received_calls-IgnoresJob i b (ok rs) rest h r j =
      tallied_calls-IgnoresJob b (tally b.tickets rs) (update (env.duration i) r.estimator) rest h r
        j

  round_calls-IgnoresJob : (i : ℕ) (bs : List Batch) → IgnoresJob (round_calls i bs)
  unfolding round_calls
  round_calls-IgnoresJob i [] r j =
      end_calls-IgnoresJob (sum_tokens env.plus (natural 0) r.all_results) r j
  round_calls-IgnoresJob i (b ∷ bs) r j =
      received_calls-IgnoresJob i b (env.process_batch i b.tickets) (round_calls (suc i) bs)
        (round_calls-IgnoresJob (suc i) bs) r j

  tallied_calls_lem :
      (i : ℕ) (bs : List Batch) (b : Batch) (o : Option Tally) (e : EtaEstimator) (r : Round)
      → ((r' : Round)
          → all_alone env.job_ttl_seconds (round_calls (suc i) bs r') r'.job
            ≡ conclude env total_tickets (rounds env total_tickets (suc i) bs r'))
      → all_alone env.job_ttl_seconds (tallied_calls b o e r (round_calls (suc i) bs)) r.job
        ≡ conclude env total_tickets (
            and_next env total_tickets
              (rounds env total_tickets (suc i) bs)
              r
              (tallied env total_tickets b o e r))
  tallied_calls_lem i bs b none e r h = exception_calls_lem value_error r.job
  tallied_calls_lem i bs b (some t) e r h = h (advance env total_tickets b t e r)

  received_calls_lem :
      (i : ℕ) (bs : List Batch) (b : Batch) (x : Result (List Fields)) (r : Round)
      → ((r' : Round)
          → all_alone env.job_ttl_seconds (round_calls (suc i) bs r') r'.job
            ≡ conclude env total_tickets (rounds env total_tickets (suc i) bs r'))
      → all_alone env.job_ttl_seconds (received_calls i b x r (round_calls (suc i) bs)) r.job
        ≡ conclude env total_tickets (
            and_next env total_tickets
              (rounds env total_tickets (suc i) bs)
              r
              (received env total_tickets i b x r))
  received_calls_lem i bs b (raise e) r h = exception_calls_lem e r.job
  received_calls_lem i bs b (ok rs) r h =
      tallied_calls_lem i bs b (tally b.tickets rs) (update (env.duration i) r.estimator) r h

  round_calls_lem :
      (i : ℕ) (bs : List Batch) (r : Round)
      → all_alone env.job_ttl_seconds (round_calls i bs r) r.job
        ≡ conclude env total_tickets (rounds env total_tickets i bs r)
  unfolding round_calls rounds one_round
  round_calls_lem i [] r = end_calls_lem (sum_tokens env.plus (natural 0) r.all_results) r
  round_calls_lem i (b ∷ bs) r =
      received_calls_lem i bs b (env.process_batch i b.tickets) r (round_calls_lem (suc i) bs)

  -- A job does to its keys what its calls do.
  pub job_calls_lem :
      (batches : List Batch) (pre_cached : ℕ) (pre_cached_results : List Fields) (e : EtaEstimator)
      (j : Job)
      → all_alone env.job_ttl_seconds (job_calls batches pre_cached pre_cached_results e) j
        ≡ process_job env total_tickets batches pre_cached pre_cached_results e j
  unfolding job_calls process_job
  job_calls_lem batches pre_cached pre_cached_results e j =
      let first = first_round env total_tickets pre_cached pre_cached_results e in
      ap (λ cs. all_alone env.job_ttl_seconds cs (Store.start env.started_at j))
        (sym (round_calls-IgnoresJob 0 batches (first no_job) (Store.start env.started_at j)))
      ∙ round_calls_lem 0 batches (first j)
