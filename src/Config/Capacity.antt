-- ===== src/Config/Capacity.antt =====
-- config.py, main.py and pipeline/caller.py: the semaphore that the accepted settings give.
use inference_forge.Base.{ℕ, ◌≤◌, ◌<◌, ◌≡◌, inl, inr, arith}
use inference_forge.Base.Tasks.{total}
use inference_forge.Errors.{value_error, Result, ok, raise}
use inference_forge.Text.{Text}
use inference_forge.Cache.{Redis, Library, Cache}
use inference_forge.Caller.Pool.{Pool, initial, Run}
use inference_forge.Caller.Pool.Permits.{permits, Run-permits}
use inference_forge.Caller.Pool.Progress.{IsFinished, Run-completes}
use inference_forge.Config.{ℤ, pos, negsuc, Settings, load}
use inference_forge.Config.Checks.{Between}
use inference_forge.Config.Loaded.{load_lem}

-- asyncio.Semaphore(n) starts with n permits, and is a ValueError for a negative n.
abbrev pub semaphore : ℤ → Result ℕ
semaphore (pos n) = ok n
semaphore (negsuc n) = raise value_error

abbrev pub semaphore_of : Result Settings → Result ℕ
semaphore_of (ok s) = semaphore s.max_concurrent_api_calls
semaphore_of (raise e) = raise e

-- The semaphore of main.py, from the settings as they are read.
abbrev pub configured : (Text → Text) → Settings → Result ℕ
configured upper s = semaphore_of (load upper s)

of_calls :
    (z : ℤ) (limit : ℕ) → Between 1 50 z → semaphore z ≡ ok limit → (1 ≤ limit) × (limit ≤ 50)
of_calls z limit (n, (e, (a, b))) h = ground (arith, e, h)

configured-Between :
    (upper : Text → Text) (s : Settings) (limit : ℕ)
    → configured upper s ≡ ok limit
    → (1 ≤ limit) × (limit ≤ 50)
configured-Between upper s limit h = elim (load_lem upper s) [
  | inl (a, e) ↦ of_calls s.max_concurrent_api_calls limit a.ranges.calls (rw (configured, e) at h)
  | inr (n, e) ↦ cc (rw (configured, e) at h)
]

module _ {ℓ} {S : Type ℓ} (redis : Redis S) (lib : Library) (tickets : ℕ → Text) (tasks : ℕ) where
  -- With settings that are accepted, whatever they are: however the tasks of all jobs of one process
  -- interleave, which share the semaphore of its lifespan, at most fifty calls of the API are in
  -- flight in the process, and from each state that they reach the tasks can go on until all have
  -- finished, where a retry loop with its attempts is one step.
  pub configured_in_flight :
      (upper : Text → Text) (s : Settings) (limit k : ℕ) (c : Cache S) (t : Pool S)
      → configured upper s ≡ ok limit
      → Run redis lib tickets tasks t (initial limit c) k
      → (total permits tasks t.phase ≤ 50)
        × ((k' : ℕ) × (u : Pool S) × (Run redis lib tickets tasks u t k'
              × ((i : ℕ) → i < tasks → IsFinished (u.phase i))))
  configured_in_flight upper s limit k c t h r =
      let (a, b) = configured-Between upper s limit h in
      let p = Run-permits redis lib tickets tasks limit k c t r in
      (omega (arith, b, p), Run-completes redis lib tickets tasks limit k c t (omega (arith, a)) r)
