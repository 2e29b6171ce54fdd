-- ===== src/Caller/Pool.antt =====
-- pipeline/caller.py: the tasks of all jobs in SarvamCaller.process_ticket, which share one cache
-- and one semaphore of settings.max_concurrent_api_calls permits.
--
-- A task is suspended at Redis' commands, at the semaphore and in the API call; each step is what
-- one task does between two of these. `tickets i` is the ticket of task `i`, of so many tasks. The
-- retry loop of a task ends with any result, since other tasks use the breaker meanwhile.
pub mod Permits
pub mod Progress
pub mod Agreement
mod Tests
use inference_forge.Base.{ℕ, suc, ◌<◌, ◌≡◌, Bool, true, false, Option, none, some}
use inference_forge.Base.Tasks.{update}
use inference_forge.Errors.{cancelled, Result, ok, raise}
use inference_forge.Json.{Json, Fields, without}
use inference_forge.Json
use inference_forge.Text.{Text, codes}
use inference_forge.Cache.{Redis, Library, Cache, set}
use inference_forge.Cache
use inference_forge.Caller.Service.{no_error, with_cache_hit, from_cache, stored}

-- `waiting` is at the semaphore, `calling` is in the retry loop with a permit, and `storing` has
-- released it with a result to keep.
pub data Phase : Type 0 where
  idle waiting calling : Phase
  storing : Fields → Phase
  finished : Result Fields → Phase

pub record Pool {ℓ} (S : Type ℓ) : Type ℓ where
  pub cache : Cache S
  pub free : ℕ
  pub phase : ℕ → Phase

abbrev pub behind_look : Result (Option Json) → Phase
behind_look (raise e) = finished (raise e)
behind_look (ok (some cached)) = finished (from_cache cached)
behind_look (ok none) = waiting

abbrev pub behind_success : Bool → Fields → Phase
behind_success true d = storing d
behind_success false d = finished (ok (with_cache_hit false d))

abbrev pub behind_call : Result Fields → Phase
behind_call (raise e) = finished (raise e)
behind_call (ok d) = behind_success (no_error (Json.get (codes "error") d)) d

module _ {ℓ} {S : Type ℓ} where
  abbrev pub moved : ℕ → Phase → Pool S → Pool S
  moved i p s = record s { phase = update s.phase i p }

  abbrev pub permitted : ℕ → ℕ → Pool S → Pool S
  permitted n i s = record s { free = n; phase = update s.phase i calling }

  abbrev pub called : ℕ → Result Fields → Pool S → Pool S
  called i r s = record s { free = suc s.free; phase = update s.phase i (behind_call r) }

  -- No task has begun.
  abbrev pub initial : ℕ → Cache S → Pool S
  initial limit c = record { cache = c; free = limit; phase = λ _. idle }

module _ {ℓ} {S : Type ℓ} (redis : Redis S) (lib : Library) (tickets : ℕ → Text) where
  abbrev pub looked : ℕ → Pool S → Pool S
  looked i s =
      let (r, c) = Cache.get redis lib (tickets i) s.cache in
      record s { cache = c; phase = update s.phase i (behind_look r) }

  abbrev pub kept : ℕ → Fields → Pool S → Pool S
  kept i d s =
      let (r, c) = set redis lib (tickets i) (without (codes "cache_hit") d) s.cache in
      record s { cache = c; phase = update s.phase i (finished (stored d r)) }

  -- A task that is cancelled at the semaphore takes no permit.
  pub data Step (i : ℕ) (s : Pool S) (t : Pool S) : Type ℓ where
    look : s.phase i ≡ idle → t ≡ looked i s → Step i s t
    acquire : (n : ℕ) → s.phase i ≡ waiting → s.free ≡ suc n → t ≡ permitted n i s → Step i s t
    cancel : s.phase i ≡ waiting → t ≡ moved i (finished (raise cancelled)) s → Step i s t
    end_call : (r : Result Fields) → s.phase i ≡ calling → t ≡ called i r s → Step i s t
    store : (d : Fields) → s.phase i ≡ storing d → t ≡ kept i d s → Step i s t

  -- The runs to `t` from another state in so many steps.
  pub data Run (tasks : ℕ) (t : Pool S) : Pool S → ℕ → Type ℓ where
    here : Run tasks t t 0
    next :
        {k i : ℕ} {s m : Pool S} → i < tasks → Step i s m → Run tasks t m k → Run tasks t s (suc k)
