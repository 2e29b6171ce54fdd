-- ===== src/Breaker/Invariant.antt =====
-- pipeline/circuit_breaker.py: what holds of a breaker between two operations.
use inference_forge.Base.{ℕ, ◌≤◌, ◌<◌, ◌≡◌, ◌≢◌, none, List, [], ◌∷◌, length, arith}
use inference_forge.Errors.{Result}
use inference_forge.Breaker.{
  CbState, closed, opened, half_open, Breaker, drop_old, new, maybe_transition, on_success,
  on_failure, failure_count, seconds,
}
use inference_forge.Breaker.Call.{settle, settle_probe, execute, half_open_probe, call}

-- The gauge's help text: 0=CLOSED, 1=HALF_OPEN, 2=OPEN.
abbrev pub gauge_of : CbState → ℕ
gauge_of closed = 0
gauge_of half_open = 1
gauge_of opened = 2

pub record IsValid (b : Breaker) : Type 0 where
  pub positive : 0 < b.failure_threshold
  pub gauge_shows : b.gauge ≡ gauge_of b.state
  pub closed_below : b.state ≡ closed → length b.failure_timestamps < b.failure_threshold
  pub closed_clear : b.state ≡ closed → b.opened_at ≡ none
  pub opened_dated : b.state ≢ closed → b.opened_at ≢ none

-- What other tasks may do to the breaker while one waits.
abbrev pub KeepsValid : (Breaker → Breaker) → Type 0
KeepsValid f = (b : Breaker) → IsValid b → IsValid (f b)

pub length-drop_old-le : (w now : ℕ) (ts : List ℕ) → length (drop_old w now ts) ≤ length ts
unfolding drop_old
length-drop_old-le w now [] = omega arith
length-drop_old-le w now (t ∷ ts) = ground (arith, length-drop_old-le w now ts)

module _ (clock : ℕ → ℕ) where
  pub new-IsValid : (n w t r : ℕ) → 0 < n → IsValid (new clock n w t r)
  unfolding new
  new-IsValid n w t r h = ground arith

  pub maybe_transition-IsValid : KeepsValid (maybe_transition clock)
  unfolding maybe_transition
  maybe_transition-IsValid b h = ground arith

  pub on_success-IsValid : KeepsValid (on_success clock)
  unfolding on_success
  on_success-IsValid b h = ground arith

  pub on_failure-IsValid : KeepsValid (on_failure clock)
  unfolding on_failure
  on_failure-IsValid b h = ground arith

  failure_count-IsValid : KeepsValid (λ b. (failure_count clock b).1)
  unfolding failure_count
  failure_count-IsValid b h =
      ground
        (arith, length-drop_old-le (seconds b.window_seconds) (clock b.reads) b.failure_timestamps)

module _ {ℓ} {A : Type ℓ} (clock : ℕ → ℕ) where
  pub settle-IsValid : (r : Result A) → KeepsValid (settle clock r)
  unfolding settle
  settle-IsValid r b h = ground (arith, on_success-IsValid clock b h, on_failure-IsValid clock b h)

  pub settle_probe-IsValid : (r : Result A) → KeepsValid (settle_probe clock r)
  unfolding settle_probe
  settle_probe-IsValid r b h =
      ground (arith, on_success-IsValid clock b h, on_failure-IsValid clock b h)

module _ {ℓ} {A : Type ℓ} (clock : ℕ → ℕ) (wait : Breaker → Breaker)
    (coro : Breaker → Result A × Breaker) (waits : KeepsValid wait)
    (runs : KeepsValid (λ b. (coro b).1)) where
  execute-IsValid : KeepsValid (λ b. (execute clock wait coro b).1)
  unfolding execute
  execute-IsValid b h = settle-IsValid clock (coro b).0 (coro b).1 (runs b h)

  half_open_probe-IsValid : KeepsValid (λ b. (half_open_probe clock wait coro b).1)
  unfolding half_open_probe
  half_open_probe-IsValid b h =
      let (r, after) = execute clock wait coro (wait b) in
      ground (
        arith,
        waits b h,
        execute-IsValid (wait b) (waits b h),
        settle_probe-IsValid clock r after (execute-IsValid (wait b) (waits b h)),
      )

  -- A call of the breaker keeps its invariant, whatever the coroutine ends with, if what runs
  -- during the coroutine and during the wait for the probe lock keeps it.
  pub call-IsValid : (b : Breaker) → IsValid b → IsValid (call clock wait coro b).1
  unfolding call
  call-IsValid b h =
      let b' = maybe_transition clock b in
      let h' = maybe_transition-IsValid clock b h in
      ground (arith, h', execute-IsValid b' h', half_open_probe-IsValid b' h')
