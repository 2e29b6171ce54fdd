-- ===== src/Caller/Pool/Tests.antt =====
-- pipeline/caller.py: two tasks of one ticket at a semaphore with one permit.
use native.Mathlib.Decide.{ℕ_discrete}
use inference_forge.Base.{ℕ, ◌+◌, ◌<◌, ◌≡◌, refl, arith, true, some}
use inference_forge.Base.Tasks.{total}
use inference_forge.Errors.{ok}
use inference_forge.Text.{Text, codes, strip, lstrip, rstrip, is_space}
use inference_forge.Cache.{get, set, ticket_key, ticket_hash, maybe_log_rate}
use inference_forge.Cache.Example.{Entries, server, serves, library, empty_cache, answer}
use inference_forge.Caller.Service.{with_cache_hit}
use inference_forge.Caller.Pool.{
  Pool, initial, looked, permitted, called, kept, Step, look, acquire, Run, here, next, finished,
}
use inference_forge.Caller.Pool.Permits.{permits, Run-permits}
use inference_forge.Caller.Pool.Progress.{IsFinished, Run-completes}
use inference_forge.Caller.Pool.Agreement.{first_result_stays}

abbrev two : ℕ → Text
two i = codes "a"

abbrev begun : Pool Entries
begun = looked server library two 1 (looked server library two 0 (initial 1 empty_cache))

abbrev busy : Pool Entries
busy = permitted 0 0 begun

program : Unit {0}
unfolding get set ticket_key ticket_hash maybe_log_rate strip lstrip rstrip is_space ℕ_discrete
program = tt

busy_run : Run server library two 2 busy (initial 1 empty_cache) 3
unfolding get maybe_log_rate ℕ_discrete
busy_run = next {i = 0} (omega arith) (look refl refl) (
    next {i = 1} (omega arith) (look refl refl)
      (next {i = 0} (omega arith) (acquire 0 refl refl refl) here))

Run-permits_example : total permits 2 busy.phase + busy.free ≡ 1
Run-permits_example = Run-permits server library two 2 1 3 empty_cache busy busy_run

Run-completes_example :
    (k : ℕ) × (u : Pool Entries) × (Run server library two 2 u busy k
      × ((i : ℕ) → i < 2 → IsFinished (u.phase i)))
Run-completes_example =
    Run-completes server library two 2 1 3 empty_cache busy (omega arith) busy_run

-- The first task is done before the second begins.
abbrev answered_once : Pool Entries
answered_once =
    kept server library two 0 answer
      (called 0 (ok answer) (permitted 0 0 (looked server library two 0 (initial 1 empty_cache))))

holds : serves.held (ticket_key library (codes " a")) answered_once.cache.redis ≡ some (codes "x")
unfolding program
holds = refl

begins : Step server library two 1 answered_once (looked server library two 1 answered_once)
unfolding ℕ_discrete
begins = look refl refl

first_result_stays_example :
    ((looked server library two 1 answered_once).phase 1
      ≡ finished (ok (with_cache_hit true answer)))
    × ((looked server library two 1 answered_once).free ≡ answered_once.free)
unfolding program
first_result_stays_example =
    first_result_stays server library serves two 2 answered_once answered_once
      (looked server library two 1 answered_once) 0 1 (codes "a") (codes "x") answer holds refl refl
      here refl begins
