-- ===== src/Jobs/Faults.antt =====
-- api/routes.py: _process_job with a Redis server whose commands may fail.
--
-- Each method of JobStore that a job calls is one command, finish's pipeline being a transaction.
-- A command that raises may have had its effect or not, as when only the answer is lost. `fault n`
-- is what becomes of the command number `n`. The tasks of a batch use Redis on their own, within
-- `process_batch`.
use inference_forge.Base.{ℕ, suc, ◌+◌, ◌-◌, Option, none, some, List, [], ◌∷◌, ◌++◌}
use inference_forge.Errors.{Error, value_error, cancelled, Result, ok, raise}
use inference_forge.Json.{Json, natural, Fields}
use inference_forge.Batcher.{Batch}
use inference_forge.Estimator.Eta.{EtaEstimator, update, estimate}
use inference_forge.Jobs.Store.{
  Job, start, increment_progress, publish_progress, publish_done, finish, fail,
}
use inference_forge.Jobs.Process.{Env, Round, Tally, tally, sum_tokens, stats_of, first_round}

pub data Fault : Type 0 where
  works : Fault
  lost : Error → Fault
  late : Error → Fault

-- The job's key and channel, and the number of commands sent.
pub record Server : Type 0 where
  pub job : Job
  pub commands : ℕ

abbrev pub sent : Fault → (Job → Job) → Server → Result (Unit {0}) × Server
sent works f s = (ok tt, record { job = f s.job; commands = suc s.commands })
sent (lost e) f s = (raise e, record s { commands = suc s.commands })
sent (late e) f s = (raise e, record { job = f s.job; commands = suc s.commands })

abbrev pub command : (ℕ → Fault) → (Job → Job) → Server → Result (Unit {0}) × Server
command fault f s = sent (fault s.commands) f s

-- What follows a command, or the exception that it raised.
abbrev pub and_then {ℓ} :
    {A : Type ℓ} → Result (Unit {0}) × Server → (Server → Result A × Server) → Result A × Server
and_then (raise e, s) f = (raise e, s)
and_then (ok _, s) f = f s

module _ (env : Env) (total_tickets : ℕ) (fault : ℕ → Fault) where
  -- The local variables behind a batch; `job` is not used.
  abbrev pub local : Tally → EtaEstimator → Round → Round
  local t e r = record r {
    all_results = r.all_results ++ t.results;
    completed = r.completed + (t.completed + t.failed);
    failed_count = r.failed_count + t.failed;
    cache_hits = r.cache_hits + t.hits;
    estimator = e;
  }

  abbrev pub counted : Batch → Option Tally → EtaEstimator → Round → Server → Result Round × Server
  counted batch none e r s = (raise value_error, s)
  counted batch (some t) e r s =
      let r' = local t e r in
      let eta = estimate (total_tickets - r'.completed) (some batch.complexity) e in
      and_then (command fault (increment_progress t.completed t.failed t.hits) s) (λ s1.
        and_then
          (command fault
            (publish_progress r'.completed total_tickets r'.cache_hits r'.failed_count eta) s1)
          (λ s2. (ok r', s2)))

  abbrev pub answered : ℕ → Batch → Result (List Fields) → Round → Server → Result Round × Server
  answered i batch (raise e) r s = (raise e, s)
  answered i batch (ok results) r s =
      counted batch (tally batch.tickets results) (update (env.duration i) r.estimator) r s

  abbrev pub go_on :
      (Round → Server → Result Round × Server) → Result Round × Server → Result Round × Server
  go_on rest (raise e, s) = (raise e, s)
  go_on rest (ok r, s) = rest r s

  unfoldable pub faulty_rounds : ℕ → List Batch → Round → Server → Result Round × Server
  faulty_rounds i [] r s = (ok r, s)
  faulty_rounds i (b ∷ bs) r s =
      go_on (faulty_rounds (suc i) bs) (answered i b (env.process_batch i b.tickets) r s)

  abbrev pub with_stats : Round → Result Json → Server → Result (Unit {0}) × Server
  with_stats r (raise e) s = (raise e, s)
  with_stats r (ok tokens) s =
      and_then (command fault (finish env.job_ttl_seconds env.ended_at r.all_results) s)
        (command fault (publish_done r.all_results (stats_of env total_tickets tokens r)))

  abbrev pub completed : Result Round × Server → Result (Unit {0}) × Server
  completed (raise e, s) = (raise e, s)
  completed (ok r, s) = with_stats r (sum_tokens env.plus (natural 0) r.all_results) s

  -- except Exception, which a cancellation passes.
  abbrev pub handled : Result (Unit {0}) × Server → Result (Unit {0}) × Server
  handled (ok _, s) = (ok tt, s)
  handled (raise cancelled, s) = (raise cancelled, s)
  handled (raise e, s) = command fault (fail env.ended_at (env.describe e)) s

  unfoldable pub faulty_job :
      List Batch → ℕ → List Fields → EtaEstimator → Server → Result (Unit {0}) × Server
  faulty_job batches pre_cached pre_cached_results estimator s =
      and_then (command fault (start env.started_at) s) (λ s1. handled (
        completed (
          faulty_rounds 0 batches
            (first_round env total_tickets pre_cached pre_cached_results estimator s1.job) s1)))
