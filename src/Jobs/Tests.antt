-- ===== src/Jobs/Tests.antt =====
-- pipeline/job_store.py and api/routes.py: their theorems on a small job.
use mathlib.Core.Path.{subst}
use inference_forge.Base.{ℕ, All, ◌+◌, ◌≡◌, refl, some, List, [], ◌∷◌, length}
use inference_forge.Base.Fraction.{whole}
use inference_forge.Errors.{Error, other_exception, value_error, Result, ok, raise}
use inference_forge.Json.{Json, natural, Fields}
use inference_forge.Text.{Text, codes, strip, lstrip, rstrip, is_space}
use inference_forge.Batcher.{Batch}
use inference_forge.Estimator.{simple}
use inference_forge.Estimator.Eta.{eta_estimator}
use inference_forge.Cache.{get, maybe_log_rate}
use inference_forge.Cache.Example.{server, library, empty_cache, answer}
use inference_forge.Jobs.Store.{Job, Event, no_job, create, increment_progress}
use inference_forge.Jobs.Store
use inference_forge.Jobs.Submit.{Submission, nothing_seen, deduplicate, submit_one}
use inference_forge.Jobs.Submitted.{Balanced, deduplicate_lem}
use inference_forge.Jobs.Process.{Env, first_round, rounds, one_round, process_job}
use inference_forge.Jobs.Accounts.{HasTokens}
use inference_forge.Batcher.Ordered.{ordered}
use inference_forge.Jobs.Whole.{IsServed, HasEach, job_of, job_of-IsServed}
use inference_forge.Jobs.Quiet.{IsQuiet}
use inference_forge.Jobs.Outcome.{process_job_fails}

-- Two spellings of one ticket.
abbrev pub tickets : List Text
tickets = codes "a" ∷ codes " a" ∷ []

abbrev pub submitted : Submission
submitted = record {
  seen = codes "a" ∷ [];
  unique_tickets = codes "a" ∷ [];
  pre_cached_results = [];
  cached_count = 1;
}

pub deduplicated : (deduplicate server library tickets nothing_seen empty_cache).0 ≡ ok submitted
unfolding deduplicate submit_one get strip lstrip rstrip is_space maybe_log_rate
deduplicated = refl

deduplicate_lem_example : Balanced server library tickets submitted
deduplicate_lem_example = deduplicate_lem server library tickets submitted empty_cache deduplicated

abbrev pub same_answer : List Text → List Fields
same_answer [] = []
same_answer (t ∷ ts) = answer ∷ same_answer ts

same_length : (ts : List Text) → length (same_answer ts) ≡ length ts
same_length [] = refl
same_length (t ∷ ts) = rw (same_length ts) refl

-- The sum of two values: of two texts, say, it is left out.
abbrev pub plus : Json → Json → Result Json
plus (natural a) (natural b) = ok (natural (a + b))
plus _ _ = raise (other_exception "TypeError")

abbrev pub env : Env
env = record {
  process_batch = λ i ts. ok (same_answer ts);
  duration = λ i. whole 2;
  plus = plus;
  describe = λ e. codes "ValueError";
  cost_usd = λ tokens. whole 1;
  percentiles = record { p50_ms = whole 100; p95_ms = whole 200; p99_ms = whole 300 };
  job_seconds = whole 4;
  job_ttl_seconds = 3600;
  started_at = 5;
  ended_at = 9;
}

pub adds : (a b : ℕ) → plus (natural a) (natural b) ≡ ok (natural (a + b))
adds a b = refl

same_tokens : (ts : List Text) → All HasTokens (same_answer ts)
same_tokens [] = tt
same_tokens (t ∷ ts) = ((0, refl), same_tokens ts)

abbrev pub batch : Batch
batch = record { tickets = codes "a" ∷ []; complexity = simple; indices = 0 ∷ [] }

abbrev pub job : Job
job = increment_progress 1 0 1 (create 3600 4 2 no_job)

abbrev broken : Env
broken = record env { process_batch = λ i ts. raise value_error }

ends_badly :
    rounds broken 2 0 (batch ∷ []) (first_round broken 2 1 [] eta_estimator job)
    ≡ (some value_error, first_round broken 2 1 [] eta_estimator job)
unfolding rounds one_round
ends_badly = refl

process_job_fails_example :
    ((process_job broken 2 (batch ∷ []) 1 [] eta_estimator job).hash.status ≡ some Store.failed)
    × ((process_job broken 2 (batch ∷ []) 1 [] eta_estimator job).hash.error
        ≡ some (codes "ValueError"))
    × IsQuiet job (process_job broken 2 (batch ∷ []) 1 [] eta_estimator job)
process_job_fails_example =
    process_job_fails broken 2 (batch ∷ []) 1 [] eta_estimator job value_error
      (first_round broken 2 1 [] eta_estimator job) ends_badly (λ h. cc)

abbrev pub told : Error → Text
told e = codes "Error"

pub same_counts : (d : Fields) → answer ≡ d → HasTokens d
same_counts d h = subst HasTokens h (0, refl)

abbrev pub same_task : ℕ → ℕ → Text → Result Fields
same_task n i t = ok answer

pub served :
    IsServed tickets submitted no_job
      (job_of server library ordered env told same_task tickets submitted 4 eta_estimator no_job)
served =
    (job_of-IsServed server library ordered env told same_task tickets submitted empty_cache 4
      eta_estimator no_job deduplicated (λ n i t d h. same_counts d cc) tt adds).0

job_of-IsServed_example :
    (done_job : IsServed tickets submitted no_job
      (job_of server library ordered env told same_task tickets submitted 4 eta_estimator no_job))
    × HasEach library tickets done_job.all
job_of-IsServed_example =
    job_of-IsServed server library ordered env told same_task tickets submitted empty_cache 4
      eta_estimator no_job deduplicated (λ n i t d h. same_counts d cc) tt adds
