-- ===== src/Breaker/Call.antt =====
-- pipeline/circuit_breaker.py: call, _execute and _half_open_probe.
--
-- A coroutine may suspend, and other tasks then use the breaker. So `coro` takes the breaker as it
-- is when the coroutine starts and gives its outcome and the breaker as it is when it ends, and
-- `wait` gives the breaker as it is when the probe lock is acquired. Between two suspensions
-- nothing else runs, so the code there is one function.
use inference_forge.Base.{ℕ}
use inference_forge.Errors.{circuit_breaker_open, cancelled, Result, ok, raise}
use inference_forge.Breaker.{
  CbState, closed, opened, half_open, Breaker, Entry, rejected, probing, normal, entry_of,
  maybe_transition, on_success, on_failure,
}

module _ {ℓ} {A : Type ℓ} (clock : ℕ → ℕ) where
  -- _execute after the coroutine: its own error passes, and `except Exception` misses a
  -- cancellation.
  unfoldable pub settle : Result A → Breaker → Breaker
  settle (ok _) b = on_success clock b
  settle (raise circuit_breaker_open) b = b
  settle (raise cancelled) b = b
  settle (raise _) b = on_failure clock b

  -- _half_open_probe after _execute.
  unfoldable pub settle_probe : Result A → Breaker → Breaker
  settle_probe (ok _) b = on_success clock b
  settle_probe (raise cancelled) b = b
  settle_probe (raise _) b = on_failure clock b

module _ {ℓ} {A : Type ℓ} (clock : ℕ → ℕ) (wait : Breaker → Breaker)
    (coro : Breaker → Result A × Breaker) where
  unfoldable pub execute : Breaker → Result A × Breaker
  execute b = let (r, b') = coro b in (r, settle clock r b')

  -- The body of `async with self._probe_lock`.
  abbrev pub locked : CbState → Breaker → Result A × Breaker
  locked half_open b = let (r, b') = execute b in (r, settle_probe clock r b')
  locked opened b = (raise circuit_breaker_open, b)
  locked closed b = execute b

  unfoldable pub half_open_probe : Breaker → Result A × Breaker
  half_open_probe b = let b' = wait b in locked b'.state b'

  abbrev pub enter : Entry → Breaker → Result A × Breaker
  enter rejected b = (raise circuit_breaker_open, b)
  enter probing b = half_open_probe b
  enter normal b = execute b

  unfoldable pub call : Breaker → Result A × Breaker
  call b = let b' = maybe_transition clock b in enter (entry_of b'.state) b'
