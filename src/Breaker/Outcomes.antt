-- ===== src/Breaker/Outcomes.antt =====
-- pipeline/circuit_breaker.py: what a call of the breaker returns and where it leaves the breaker.
use inference_forge.Base.{ℕ, ◌+◌, ◌≤◌, ◌<◌, ◌≡◌, ◌⊎◌, [], some, none, arith}
use inference_forge.Errors.{circuit_breaker_open, cancelled, Result, ok, raise}
use inference_forge.Breaker.{
  CbState, closed, opened, half_open, Breaker, seconds, transition, Entry, rejected, probing,
  normal, entry_of, maybe_transition, on_success, on_failure,
}
use inference_forge.Breaker.Call.{settle, settle_probe, execute, half_open_probe, call}

-- The breaker as the coroutine meets it, if it runs.
abbrev pub started_at : (Breaker → Breaker) → Entry → Breaker → Breaker
started_at wait probing b = wait b
started_at wait rejected b = b
started_at wait normal b = b

abbrev pub started : (ℕ → ℕ) → (Breaker → Breaker) → Breaker → Breaker
started clock wait b = let b' = maybe_transition clock b in started_at wait (entry_of b'.state) b'

module _ {ℓ} {A : Type ℓ} (clock : ℕ → ℕ) (wait : Breaker → Breaker)
    (coro : Breaker → Result A × Breaker) where
  -- An open breaker rejects a call before recovery_timeout has passed: the coroutine does not run,
  -- and of the breaker only the count of clock readings changes.
  pub call_rejects :
      (b : Breaker) (at : ℕ)
      → b.state ≡ opened
      → b.opened_at ≡ some at
      → clock b.reads < at + seconds b.recovery_timeout
      → call clock wait coro b ≡ (raise circuit_breaker_open, record b { reads = b.reads + 1 })
  unfolding call maybe_transition
  call_rejects b at o d early = ground arith

  -- Once recovery_timeout has passed, the call of an open breaker is the probe.
  pub call_probes :
      (b : Breaker) (at : ℕ)
      → b.state ≡ opened
      → b.opened_at ≡ some at
      → at + seconds b.recovery_timeout ≤ clock b.reads
      → call clock wait coro b
        ≡ half_open_probe clock wait coro
            (transition clock half_open (record b { reads = b.reads + 1 }))
  unfolding call maybe_transition transition
  call_probes b at o d late = ground arith

  -- What the caller of the breaker sees is the outcome of one run of the coroutine, or a rejection
  -- with the breaker open at the entry or behind the probe lock.
  pub call_transparent :
      (b : Breaker)
      → ((call clock wait coro b).0 ≡ (coro (started clock wait b)).0)
        ⊎ ((call clock wait coro b).0 ≡ raise circuit_breaker_open)
          × ((started clock wait b).state ≡ opened)
  unfolding call half_open_probe execute
  call_transparent b = ground arith

-- Where a half-open breaker goes when a coroutine ends.
abbrev pub decided {ℓ} : {A : Type ℓ} → Result A → CbState
decided (ok _) = closed
decided (raise cancelled) = half_open
decided (raise _) = opened

-- A probe alone: nothing else happens to the breaker but `k` readings of the clock.
abbrev pub alone {ℓ} : {A : Type ℓ} → Result A → ℕ → Breaker → Result A × Breaker
alone r k b = (r, record b { reads = b.reads + k })

-- The breaker after such a probe.
abbrev pub probed {ℓ} : {A : Type ℓ} → (ℕ → ℕ) → ℕ → Breaker → Result A → Breaker
probed clock k b r = (half_open_probe clock (λ x. x) (alone r k) b).1

module _ {ℓ} {A : Type ℓ} (clock : ℕ → ℕ) (k : ℕ) (b : Breaker) (half : b.state ≡ half_open) where
  -- A probe that nothing interrupts decides the state: CLOSED with no failure left after a success,
  -- OPEN with the date of that moment after an error, and HALF_OPEN as it was after a cancellation.
  pub probe_decides :
      (r : Result A)
      → ((probed clock k b r).state ≡ decided r)
        × (decided r ≡ closed
            → ((probed clock k b r).failure_timestamps ≡ [])
              × ((probed clock k b r).opened_at ≡ none))
        × (decided r ≡ opened → (probed clock k b r).opened_at ≡ some (clock (b.reads + k + 3)))
        × (decided r ≡ half_open → probed clock k b r ≡ record b { reads = b.reads + k })
  unfolding half_open_probe execute settle settle_probe on_success on_failure
  probe_decides (ok a) = ground arith
  probe_decides (raise cancelled) = ground arith
  probe_decides _ = ground arith
