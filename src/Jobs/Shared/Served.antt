-- ===== src/Jobs/Shared/Served.antt =====
-- api/routes.py: requests on the server that all jobs share, and get_results there.
use inference_forge.Base.{
  ℕ, ◌+◌, ◌≡◌, refl, sym, ◌∙◌, ap, Bool, true, false, Bool-cases, inl, inr, Option, none, some,
  List, [], ◌∷◌, ◌++◌, All, length,
}
use inference_forge.Errors.{Error, Result, ok, raise}
use inference_forge.Json.{natural, Fields, same_text}
use inference_forge.Text.{Text, codes}
use inference_forge.Batcher.{PriorityQueue}
use inference_forge.Batcher.Whole.{drained}
use inference_forge.Cache
use inference_forge.Cache.{Library, Cache}
use inference_forge.Estimator.Eta.{EtaEstimator}
use inference_forge.Jobs.Store
use inference_forge.Jobs.Store.{Hash, Job, JobStatus, pending, processing, done, failed, no_job}
use inference_forge.Jobs.Submit.{Submission, nothing_seen, deduplicate, accept}
use inference_forge.Jobs.Process.{Env}
use inference_forge.Jobs.Accounts.{HasTokens}
use inference_forge.Jobs.Results.{
  Reply, not_found, crash, or_default, split_results, in_progress, by_status, results_of,
}
use inference_forge.Jobs.Whole.{Counts, with_caller, job_of, IsServed, job_of-IsServed}
use inference_forge.Jobs.Shared.{Redis, get_state, get_results, wrong_type}
use inference_forge.Jobs.Shared.Keys.{IsPlain}
use inference_forge.Jobs.Shared.Refined.{view}
use inference_forge.Jobs.Shared.Traces.{
  Call, create_call, progress_call, alone, all_alone, run, own, AllTyped, run-reads,
  results_key_exists,
}
use inference_forge.Jobs.Shared.Requests.{job_calls, job_calls_lem}

abbrev pub stored_reply : Result (Option (List Fields)) → Reply
stored_reply (raise e) = crash e
stored_reply (ok results) = split_results results

-- `results` is what get_results gives, where it is called.
abbrev pub reply_by : JobStatus → Hash → Result (Option (List Fields)) → Reply
reply_by done h results = stored_reply results
reply_by failed h results = by_status failed h no_job
reply_by pending h results = in_progress pending h
reply_by processing h results = in_progress processing h

abbrev pub replied : Result (Option Hash) → Result (Option (List Fields)) → Reply
replied (raise e) results = crash e
replied (ok none) results = not_found
replied (ok (some h)) results = reply_by (or_default pending h.status) h results

-- The endpoint get_results.
unfoldable pub reply_of : Text → Redis → Reply
reply_of job_id s = replied (get_state job_id s) (get_results job_id s)

reply_by-status :
    (status : JobStatus) (h : Hash) (j : Job)
    → reply_by status h (ok (Store.get_results j)) ≡ by_status status h j
reply_by-status pending h j = refl
reply_by-status processing h j = refl
reply_by-status done h j = refl
reply_by-status failed h j = refl

reply_of-results_of :
    (i : Text) (s : Redis) (j : Job)
    → get_state i s ≡ ok (Store.get_state j)
    → get_results i s ≡ ok (Store.get_results j)
    → reply_of i s ≡ results_of j
unfolding reply_of results_of
reply_of-results_of i s j h k = rw (h, k) (of_state (Store.get_state j))
  where
    of_state :
        (o : Option Hash)
        → replied (ok o) (ok (Store.get_results j))
          ≡ elim o [ none ↦ not_found | some g ↦ by_status (or_default pending g.status) g j ]
    of_state none = refl
    of_state (some g) = reply_by-status (or_default pending g.status) g j

abbrev pub cons_if : Bool → Call → List Call → List Call
cons_if true c cs = c ∷ cs
cons_if false c cs = cs

-- The calls of one job among those of all.
abbrev pub calls_of : Text → List (Text × Call) → List Call
calls_of i [] = []
calls_of i ((k, c) ∷ cs) = cons_if (same_text i k) c (calls_of i cs)

own-calls_of :
    (ttl : ℕ) (i : Text) (cs : List (Text × Call)) (j : Job)
    → own ttl i cs j ≡ all_alone ttl (calls_of i cs) j
own-calls_of ttl i [] j = refl
own-calls_of ttl i ((k, c) ∷ cs) j = elim (Bool-cases (same_text i k)) [
  | inl e ↦ rw e (own-calls_of ttl i cs (alone ttl c j))
  | inr e ↦ rw e (own-calls_of ttl i cs j)
]

module _ {ℓ} {S : Type ℓ} (redis : Cache.Redis S) (lib : Library) (pq : PriorityQueue) (env : Env)
    (describe : Error → Text) (task : ℕ → ℕ → Text → Result Fields) where
  -- What process_tickets calls behind the deduplication, and then the request's job.
  abbrev pub request_calls : List Text → Submission → ℕ → EtaEstimator → List Call
  request_calls tickets s now e =
      create_call now (length tickets)
      ∷ progress_call s.cached_count 0 s.cached_count
      ∷ job_calls (with_caller redis lib pq env describe task) (length tickets)
          (drained pq s.unique_tickets).0 s.cached_count s.pre_cached_results e

  request_calls_lem :
      (tickets : List Text) (s : Submission) (now : ℕ) (e : EtaEstimator) (j : Job)
      → all_alone env.job_ttl_seconds (request_calls tickets s now e) j
        ≡ job_of redis lib pq env describe task tickets s now e j
  unfolding accept
  request_calls_lem tickets s now e j =
      job_calls_lem (with_caller redis lib pq env describe task) (length tickets)
        (drained pq s.unique_tickets).0 s.cached_count s.pre_cached_results e _

  -- However the calls of requests and jobs interleave on a server whose keys are of their types,
  -- with ids that have no colon: none raises, and a request whose calls were all made is served
  -- from what the server had of its job before, as on a server of its own. The results endpoint
  -- then replies by what the server has of the job.
  pub requests-IsServed :
      (tickets : List Text) (s : Submission) (c : Cache S) (now : ℕ) (e : EtaEstimator)
      (calls : List (Text × Call)) (before : Redis) (i : Text)
      → (deduplicate redis lib tickets nothing_seen c).0 ≡ ok s
      → ((n : ℕ) → Counts (task n))
      → All HasTokens s.pre_cached_results
      → ((a b : ℕ) → env.plus (natural a) (natural b) ≡ ok (natural (a + b)))
      → All (λ x. IsPlain x.0) calls
      → AllTyped env.job_ttl_seconds before
      → IsPlain i
      → calls_of i calls ≡ request_calls tickets s now e
      → let after = (run env.job_ttl_seconds calls before).1 in
        ((run env.job_ttl_seconds calls before).0 ≡ ok tt)
        × IsServed tickets s (view i before) (view i after)
        × (reply_of i after ≡ results_of (view i after))
  requests-IsServed tickets s c now e calls before i dedup counts has adds plain typed pi h =
      let (a, b, d, f, g) = run-reads env.job_ttl_seconds calls before plain typed i pi in
      let j = own env.job_ttl_seconds i calls (view i before) in
      let same : j ≡ job_of redis lib pq env describe task tickets s now e (view i before) =
        own-calls_of env.job_ttl_seconds i calls (view i before)
        ∙ ap (λ cs. all_alone env.job_ttl_seconds cs (view i before)) h
        ∙ request_calls_lem tickets s now e (view i before) in
      (
        a,
        rw (b ∙ same) (
            (job_of-IsServed redis lib pq env describe task tickets s c now e (view i before) dedup
              counts has adds).0),
        reply_of-results_of i _ j d f ∙ ap results_of (sym b),
      )

-- For the id of a job whose results are stored, with `:results` behind it, the results endpoint ends
-- with the ResponseError of Redis for a key of another type.
pub results_key_crashes :
    (i : Text) (s : Redis) (all : List Fields)
    → get_results i s ≡ ok (some all)
    → reply_of (i ++ codes ":results") s ≡ crash wrong_type
unfolding reply_of
results_key_crashes i s all h = rw (results_key_exists i s all h).1 refl
