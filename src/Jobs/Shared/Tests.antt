-- ===== src/Jobs/Shared/Tests.antt =====
-- pipeline/job_store.py: two jobs on one server.
use inference_forge.Base.{◌≡◌, refl, ap, none, some, List, [], ◌∷◌, ◌++◌, All}
use inference_forge.Errors.{ok}
use inference_forge.Json.{text, done, field, Fields}
use inference_forge.Text.{Text, codes}
use inference_forge.Jobs.Store
use inference_forge.Jobs.Store.{Job, no_job}
use inference_forge.Jobs.Shared.{
  Redis, absent, at_key, hset, expire_key, set_key, execute, create, start, increment_progress,
  finish, get_state, get_results, exists, wrong_type,
}
use inference_forge.Batcher.Ordered.{ordered}
use inference_forge.Estimator.Eta.{eta_estimator}
use inference_forge.Cache.Example.{server, library, empty_cache}
use inference_forge.Jobs.Results.{crash, results_of}
use inference_forge.Jobs.Whole.{IsServed}
use inference_forge.Jobs.Tests.{
  tickets, submitted, env, told, same_task, same_counts, deduplicated, adds,
}
use inference_forge.Jobs.Shared.Keys.{IsPlain}
use inference_forge.Jobs.Shared.Served.{
  reply_of, calls_of, request_calls, requests-IsServed, results_key_crashes,
}
use inference_forge.Jobs.Shared.Refined.{view}
use inference_forge.Jobs.Shared.Traces.{
  Call, create_call, start_call, progress_call, finish_call, run, own, run-reads,
}

abbrev empty : Redis
empty = record { keys = λ k. absent; ttls = λ k. none; channels = λ c. [] }

abbrev rest : List Call → List Call
rest [] = []
rest (c ∷ cs) = cs

abbrev first : Text
first = codes "a1"

abbrev second : Text
second = codes "b2"

abbrev answers : List Fields
answers = field (codes "category") (text (codes "billing")) done ∷ []

abbrev calls : List (Text × Call)
calls =
    (first, create_call 10 1)
    ∷ (second, create_call 11 2)
    ∷ (first, start_call 12)
    ∷ (second, progress_call 1 0 1)
    ∷ (first, progress_call 1 0 0)
    ∷ (first, finish_call 13 answers)
    ∷ []

run-reads_example :
    let s' = (run 60 calls empty).1 in
    let j = own 60 first calls no_job in
    ((run 60 calls empty).0 ≡ ok tt)
    × (view first s' ≡ j)
    × (get_state first s' ≡ ok (Store.get_state j))
    × (get_results first s' ≡ ok (Store.get_results j))
    × (exists first s' ≡ Store.exists j)
run-reads_example =
    run-reads 60 calls empty (refl, (refl, (refl, (refl, (refl, (refl, tt))))))
      (λ i p. record { job_typed = tt; results_typed = tt }) first refl

stored : get_results first (run 60 calls empty).1 ≡ ok (some answers)
unfolding run create start increment_progress finish hset expire_key set_key execute at_key
    get_results
stored = refl

results_key_crashes_example :
    reply_of (first ++ codes ":results") (run 60 calls empty).1 ≡ crash wrong_type
results_key_crashes_example = results_key_crashes first (run 60 calls empty).1 answers stored

abbrev request : List Call
request = request_calls server library ordered env told same_task tickets submitted 4 eta_estimator

abbrev tagged : Text → List Call → List (Text × Call)
tagged i [] = []
tagged i (c ∷ cs) = (i, c) ∷ tagged i cs

tagged-calls_of : (cs : List Call) → calls_of first (tagged first cs) ≡ cs
tagged-calls_of [] = refl
tagged-calls_of (c ∷ cs) = ap (λ xs. c ∷ xs) (tagged-calls_of cs)

tagged-IsPlain : (cs : List Call) → All (λ x. IsPlain x.0) (tagged first cs)
tagged-IsPlain [] = tt
tagged-IsPlain (c ∷ cs) = (refl, tagged-IsPlain cs)

-- A second job is created before the first, and starts between two of its calls.
abbrev mixed : List (Text × Call)
mixed =
    (second, create_call 3 1)
    ∷ (first, create_call 4 2)
    ∷ (second, start_call 5)
    ∷ tagged first (rest request)

requests-IsServed_example :
    let after = (run 3600 mixed empty).1 in
    ((run 3600 mixed empty).0 ≡ ok tt)
    × IsServed tickets submitted no_job (view first after)
    × (reply_of first after ≡ results_of (view first after))
requests-IsServed_example =
    requests-IsServed server library ordered env told same_task tickets submitted empty_cache 4
      eta_estimator mixed empty first deduplicated (λ n i t d h. same_counts d cc) tt adds
      (refl, (refl, (refl, tagged-IsPlain (rest request))))
      (λ i p. record { job_typed = tt; results_typed = tt }) refl
      (ap (λ cs. create_call 4 2 ∷ cs) (tagged-calls_of (rest request)))
