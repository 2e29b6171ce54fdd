-- ===== src/Config/Tests.antt =====
-- config.py: settings that are accepted, and a pool of tasks with their semaphore.
use inference_forge.Base.{ℕ, ◌≤◌, ◌<◌, ◌≡◌, refl, arith}
use inference_forge.Base.Tasks.{total}
use inference_forge.Errors.{ok}
use inference_forge.Text.{Text, codes}
use inference_forge.Cache.Example.{Entries, server, library, empty_cache}
use inference_forge.Caller.Pool.{Pool, initial, looked, look, Run, here, next}
use inference_forge.Caller.Pool.Permits.{permits}
use inference_forge.Caller.Pool.Progress.{IsFinished}
use inference_forge.Config.{Settings, pos, defaults, in_ranges, validate_log_level, load}
use inference_forge.Config.Capacity.{configured, configured_in_flight}

abbrev same : Text → Text
same t = t

abbrev settings : Settings
settings = record (defaults (codes "key")) { max_concurrent_api_calls = pos 50 }

fifty : configured same settings ≡ ok 50
unfolding load in_ranges validate_log_level
fifty = refl

abbrev one : ℕ → Text
one i = codes "a"

abbrev begun : Pool Entries
begun = looked server library one 0 (initial 50 empty_cache)

first_step : Run server library one 1 begun (initial 50 empty_cache) 1
first_step = next {i = 0} (omega arith) (look refl refl) here

configured_in_flight_example :
    (total permits 1 begun.phase ≤ 50)
    × ((k : ℕ) × (u : Pool Entries) × (Run server library one 1 u begun k
          × ((i : ℕ) → i < 1 → IsFinished (u.phase i))))
configured_in_flight_example =
    configured_in_flight server library one 1 same settings 50 1 empty_cache begun fifty first_step
