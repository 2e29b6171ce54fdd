-- ===== src/Jobs/Outcome.antt =====
-- api/routes.py: how a job of _process_job ends, and what the store has then.
use mathlib.Core.Path.{subst}
use native.Mathlib.Nat.{zero-add}
use mathlib.Core.List.{append-nil, append_assoc}
use inference_forge.Base.{
  ℕ, ◌+◌, ◌≡◌, ◌≢◌, refl, sym, ◌∙◌, ap, some, List, [], ◌∷◌, ◌++◌, length, keep, map, All,
  All-append, arith,
}
use inference_forge.Errors.{
  Error, circuit_breaker_open, http_status, json_decode, value_error, other_exception, cancelled,
  ok,
}
use inference_forge.Json.{natural, Fields}
use inference_forge.Text.{Text}
use inference_forge.Batcher.{Batch}
use inference_forge.Estimator.Eta.{EtaEstimator}
use inference_forge.Jobs.Store.{
  Event, finished, Stats, Job, done, failed, number_or_zero, start, finish, fail, publish_done,
}
use inference_forge.Jobs.Process.{
  rate, stats_of, on_exception, Env, Round, is_error, first_round, rounds, process_job,
}
use inference_forge.Jobs.Shares.{ticket_of, name_of}
use inference_forge.Jobs.Named.{texts_in, rounds-Names}
use inference_forge.Jobs.Quiet.{IsProgress, IsQuiet, rounds-IsQuiet}
use inference_forge.Jobs.Accounts.{
  HasTokens, all_tokens, sum_tokens-ok, Books, tickets_in, rounds-Books,
}

-- A job that is done: its results are those from the cache and one for each ticket, and its
-- counters say how many of these failed and how many did not. It published its progress, and the
-- results last, with the tokens of all results and the share of failures in `total`.
pub record IsDone (total : ℕ) (pre : List Fields) (before : Job) (n : ℕ) (after : Job)
    : Type 0 where
  pub status : after.hash.status ≡ some done
  pub new : List Fields
  pub results : after.results ≡ some (pre ++ new)
  pub each : length new ≡ n
  pub counters :
      number_or_zero after.hash.completed + number_or_zero after.hash.failed_count
      ≡ number_or_zero before.hash.completed + number_or_zero before.hash.failed_count + n
  pub failures :
      number_or_zero after.hash.failed_count
      ≡ number_or_zero before.hash.failed_count + length (keep is_error new)
  pub progressed : List Event
  pub only_progress : All IsProgress progressed
  pub stats : Stats
  pub tokens : stats.total_tokens ≡ natural (all_tokens (pre ++ new))
  pub failure_rate : stats.failure_rate ≡ rate total (length (keep is_error new))
  pub events : after.events ≡ before.events ++ (progressed ++ finished (pre ++ new) stats ∷ [])

module _ (env : Env) (total : ℕ) where
  begins :
      (pre_cached : ℕ) (pre : List Fields) (e : EtaEstimator) (j : Job)
      → Books
          (first_round env total pre_cached pre e j)
          0
          (first_round env total pre_cached pre e j)
  begins pre_cached pre e j = record {
    new = [];
    all = sym (append-nil pre);
    each = refl;
    tokens = tt;
    completed = omega arith;
    errors = omega arith;
    stored = omega arith;
    stored_errors = omega arith;
  }

  closes :
      (pre_cached : ℕ) (pre : List Fields) (e : EtaEstimator) (j : Job) (n : ℕ) (r : Round)
      (stats : Stats)
      → (stats.total_tokens ≡ natural (all_tokens r.all_results))
      → (stats.failure_rate ≡ rate total r.failed_count)
      → Books (first_round env total pre_cached pre e j) (0 + n) r
      → IsQuiet (start env.started_at j) r.job
      → IsDone total pre j n (
          publish_done r.all_results stats
            (finish env.job_ttl_seconds env.ended_at r.all_results r.job))
  unfolding start finish publish_done
  closes pre_cached pre e j n r stats tokens share books q = record {
    status = refl;
    new = books.new;
    results = ap some books.all;
    each = books.each ∙ zero-add n;
    counters = omega (arith, books.stored);
    failures = books.stored_errors;
    progressed = q.new;
    only_progress = q.only_progress;
    stats = stats;
    tokens = tokens ∙ ap (λ ds. natural (all_tokens ds)) books.all;
    failure_rate = share ∙ ap (rate total) (omega (arith, books.errors));
    events =
        ap (λ es. es ++ finished r.all_results stats ∷ []) q.events
        ∙ append_assoc j.events q.new (finished r.all_results stats ∷ [])
        ∙ ap (λ ds. j.events ++ (q.new ++ finished ds stats ∷ [])) books.all;
  }

  -- If the caller answers every batch with one result for each ticket, and all results count their
  -- tokens by natural numbers, which plus adds, a job ends as done: its results are those from the
  -- cache and one for each ticket of its batches, the counters of the store grow by these tickets,
  -- and failed_count by the results with an error. It publishes its progress, and its results last.
  pub process_job_lem :
      (batches : List Batch) (pre_cached : ℕ) (pre : List Fields) (e : EtaEstimator) (j : Job)
      → ((i : ℕ) (ts : List Text)
          → (rs : List Fields) × ((env.process_batch i ts ≡ ok rs)
              × ((length rs ≡ length ts) × All HasTokens rs)))
      → ((a b : ℕ) → env.plus (natural a) (natural b) ≡ ok (natural (a + b)))
      → All HasTokens pre
      → IsDone total pre j (tickets_in batches) (process_job env total batches pre_cached pre e j)
  unfolding process_job
  process_job_lem batches pre_cached pre e j answers adds has =
      let first = first_round env total pre_cached pre e j in
      let (r, (ran, books)) =
        rounds-Books env total first answers 0 0 batches first (begins pre_cached pre e j) in
      let all =
        subst (All HasTokens) (sym books.all)
          (All-append HasTokens pre books.new has books.tokens) in
      let summed = sum_tokens-ok env.plus adds 0 r.all_results all in
      let quiet =
        subst (λ x. IsQuiet (start env.started_at j) x.1.job) ran
          (rounds-IsQuiet env total 0 batches first) in
      rw (ran, summed)
        (closes pre_cached pre e j (tickets_in batches) r
          (stats_of env total (natural (0 + all_tokens r.all_results)) r) (ap natural (omega arith))
          refl books quiet)

  -- The results of such a job are those from the cache, and behind them those of the batches, which
  -- name the tickets of the batches.
  pub process_job_named :
      (batches : List Batch) (pre_cached : ℕ) (pre : List Fields) (e : EtaEstimator) (j : Job)
      → ((i : ℕ) (ts : List Text)
          → (rs : List Fields) × ((env.process_batch i ts ≡ ok rs)
              × ((length rs ≡ length ts) × All HasTokens rs)))
      → ((a b : ℕ) → env.plus (natural a) (natural b) ≡ ok (natural (a + b)))
      → All HasTokens pre
      → (new : List Fields) × ((process_job env total batches pre_cached pre e j).results
          ≡ some (pre ++ new))
        × (map ticket_of new ≡ map name_of (texts_in batches))
  unfolding process_job finish publish_done
  process_job_named batches pre_cached pre e j answers adds has =
      let first = first_round env total pre_cached pre e j in
      let (r, (ran, books)) =
        rounds-Books env total first answers 0 0 batches first (begins pre_cached pre e j) in
      let all =
        subst (All HasTokens) (sym books.all)
          (All-append HasTokens pre books.new has books.tokens) in
      let summed = sum_tokens-ok env.plus adds 0 r.all_results all in
      let names = rounds-Names env total 0 batches first r ran in
      (names.new, rw (ran, summed) (ap some names.all), names.named)

  on_exception_lem :
      (err : Error) (j : Job)
      → err ≢ cancelled
      → on_exception env total err j ≡ fail env.ended_at (env.describe err) j
  on_exception_lem cancelled j n = absurd (n refl)
  on_exception_lem circuit_breaker_open j n = refl
  on_exception_lem (http_status _ _) j n = refl
  on_exception_lem json_decode j n = refl
  on_exception_lem value_error j n = refl
  on_exception_lem (other_exception _) j n = refl

  -- If an exception other than a cancellation ends the loop, the job ends as failed with the text
  -- of the exception. No results are stored, and no event but progress is published: a stream of
  -- the job's events is never told of its end.
  pub process_job_fails :
      (batches : List Batch) (pre_cached : ℕ) (pre : List Fields) (e : EtaEstimator) (j : Job)
      (err : Error) (r : Round)
      → rounds env total 0 batches (first_round env total pre_cached pre e j) ≡ (some err, r)
      → err ≢ cancelled
      → ((process_job env total batches pre_cached pre e j).hash.status ≡ some failed)
        × ((process_job env total batches pre_cached pre e j).hash.error ≡ some (env.describe err))
        × IsQuiet j (process_job env total batches pre_cached pre e j)
  unfolding process_job fail start
  process_job_fails batches pre_cached pre e j err r h n =
      let q =
        subst (λ x. IsQuiet (start env.started_at j) x.1.job) h
          (rounds-IsQuiet env total 0 batches (first_round env total pre_cached pre e j)) in
      rw (h, on_exception_lem err r.job n)
        (
          refl,
          refl,
          record {
            results = q.results;
            new = q.new;
            events = q.events;
            only_progress = q.only_progress;
          },
        )
