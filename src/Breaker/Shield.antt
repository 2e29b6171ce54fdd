-- ===== src/Breaker/Shield.antt =====
-- pipeline/circuit_breaker.py: the tasks of the event loop while the breaker is open.
use native.Mathlib.Nat.{le_refl, le_trans}
use inference_forge.Base.{ℕ, ◌+◌, ◌≤◌, ◌<◌, ◌≡◌, ◌⊎◌, refl, some, arith, ◌∙◌}
use inference_forge.Errors.{
  circuit_breaker_open, http_status, json_decode, value_error, other_exception, cancelled, Result,
  ok, raise,
}
use inference_forge.Breaker.{opened, Breaker, seconds, maybe_transition, on_failure, on_success}
use inference_forge.Breaker.Call.{settle, settle_probe}
use inference_forge.Breaker.Window.{IsMonotonic}
use inference_forge.Breaker.Timed.{mono_le}
use inference_forge.Breaker.Tasks.{
  Phase, trying, holding, running, System, Step, begin, acquire, end_run, end_hold, end_try,
  read_clock, Reach, here, next,
}

-- The coroutine of the task has started and has not ended.
abbrev pub InCall : Phase → Type 0
InCall p = (p ≡ running) ⊎ ((p ≡ holding) ⊎ (p ≡ trying))

-- From the breaker `b` to `b'`, which is open since the same date.
abbrev pub StaysOpen : Breaker → Breaker → Type 0
StaysOpen b b' =
    (b'.state ≡ opened)
    × (b'.opened_at ≡ b.opened_at)
    × (b'.recovery_timeout ≡ b.recovery_timeout)
    × (b.reads ≤ b'.reads)

-- No call has started between the two.
abbrev pub NoneStarts : System → System → Type 0
NoneStarts s t = (i : ℕ) → InCall (t.phase i) → t.phase i ≡ s.phase i

module _ (A : Type 0) (clock : ℕ → ℕ) (mono : IsMonotonic clock) where
  pub on_failure-StaysOpen : (b : Breaker) → b.state ≡ opened → StaysOpen b (on_failure clock b)
  unfolding on_failure
  on_failure-StaysOpen b o = ground arith

  settle-StaysOpen :
      (r : Result A) (b : Breaker) → b.state ≡ opened → StaysOpen b (settle clock r b)
  unfolding settle on_success
  settle-StaysOpen (ok _) b o = ground arith
  settle-StaysOpen (raise circuit_breaker_open) b o = ground arith
  settle-StaysOpen (raise cancelled) b o = ground arith
  settle-StaysOpen (raise (http_status _ _)) b o = on_failure-StaysOpen b o
  settle-StaysOpen (raise json_decode) b o = on_failure-StaysOpen b o
  settle-StaysOpen (raise value_error) b o = on_failure-StaysOpen b o
  settle-StaysOpen (raise (other_exception _)) b o = on_failure-StaysOpen b o

  settle_probe-StaysOpen :
      (r : Result A) (b : Breaker) → b.state ≡ opened → StaysOpen b (settle_probe clock r b)
  unfolding settle_probe on_success
  settle_probe-StaysOpen (ok _) b o = ground arith
  settle_probe-StaysOpen (raise cancelled) b o = ground arith
  settle_probe-StaysOpen (raise circuit_breaker_open) b o = on_failure-StaysOpen b o
  settle_probe-StaysOpen (raise (http_status _ _)) b o = on_failure-StaysOpen b o
  settle_probe-StaysOpen (raise json_decode) b o = on_failure-StaysOpen b o
  settle_probe-StaysOpen (raise value_error) b o = on_failure-StaysOpen b o
  settle_probe-StaysOpen (raise (other_exception _)) b o = on_failure-StaysOpen b o

  pub maybe_transition-StaysOpen :
      (b : Breaker) (at : ℕ)
      → b.state ≡ opened
      → b.opened_at ≡ some at
      → clock (maybe_transition clock b).reads < at + seconds b.recovery_timeout
      → StaysOpen b (maybe_transition clock b)
  unfolding maybe_transition
  maybe_transition-StaysOpen b at o d early =
      let up : b.reads ≤ (maybe_transition clock b).reads = ground arith in
      let now = mono_le clock mono _ _ up in ground (arith, now, early)

  Step-StaysOpen :
      {s t : System} (at : ℕ)
      → Step A clock s t
      → s.breaker.state ≡ opened
      → s.breaker.opened_at ≡ some at
      → clock t.breaker.reads < at + seconds s.breaker.recovery_timeout
      → StaysOpen s.breaker t.breaker × NoneStarts s t
  Step-StaysOpen {s} at (begin i p e) o d early =
      let stays = maybe_transition-StaysOpen s.breaker at o d (rw e at early) in
      (rw e stays, λ j c. ground (arith, stays))
  Step-StaysOpen {s} at (acquire i p free e) o d early = (ground arith, λ j c. ground arith)
  Step-StaysOpen {s} at (end_run i r p e) o d early =
      (rw e (settle-StaysOpen r s.breaker o), λ j c. ground arith)
  Step-StaysOpen {s} at (end_hold i r p e) o d early =
      (rw e (settle-StaysOpen r s.breaker o), λ j c. ground arith)
  Step-StaysOpen {s} at (end_try i r p e) o d early =
      let first = settle-StaysOpen r s.breaker o in
      let second = settle_probe-StaysOpen r (settle clock r s.breaker) first.0 in
      (
        rw e (second.0, second.1 ∙ first.1, second.2 ∙ first.2, le_trans first.3 second.3),
        λ j c. ground arith,
      )
  Step-StaysOpen {s} at (read_clock k e) o d early = (ground arith, λ j c. ground arith)

  failure_reads : (b : Breaker) → b.reads ≤ (on_failure clock b).reads
  unfolding on_failure
  failure_reads b = ground arith

  success_reads : (b : Breaker) → b.reads ≤ (on_success clock b).reads
  unfolding on_success
  success_reads b = ground arith

  settle_reads : (r : Result A) (b : Breaker) → b.reads ≤ (settle clock r b).reads
  unfolding settle
  settle_reads r b = ground (arith, failure_reads b, success_reads b)

  settle_probe_reads : (r : Result A) (b : Breaker) → b.reads ≤ (settle_probe clock r b).reads
  unfolding settle_probe
  settle_probe_reads r b = ground (arith, failure_reads b, success_reads b)

  transition_reads : (b : Breaker) → b.reads ≤ (maybe_transition clock b).reads
  unfolding maybe_transition
  transition_reads b = ground arith

  pub Step-reads : {s t : System} → Step A clock s t → s.breaker.reads ≤ t.breaker.reads
  Step-reads {s} (begin i p e) = rw e (transition_reads s.breaker)
  Step-reads (acquire i p free e) = ground arith
  Step-reads {s} (end_run i r p e) = rw e (settle_reads r s.breaker)
  Step-reads {s} (end_hold i r p e) = rw e (settle_reads r s.breaker)
  Step-reads {s} (end_try i r p e) =
      rw e (le_trans (settle_reads r s.breaker) (settle_probe_reads r (settle clock r s.breaker)))
  Step-reads (read_clock k e) = ground arith

  -- With a clock that never goes back, an open breaker shields the API however the tasks interleave:
  -- as long as the clock is before the end of recovery_timeout, the breaker is open since the same
  -- date, no call has started, and a call that is running is one that ran when this began.
  pub open_shields :
      (at : ℕ) {s t : System}
      → s.breaker.state ≡ opened
      → s.breaker.opened_at ≡ some at
      → Reach A clock s t
      → clock t.breaker.reads < at + seconds s.breaker.recovery_timeout
      → StaysOpen s.breaker t.breaker × NoneStarts s t
  open_shields at o d here early = ((o, refl, refl, le_refl _), λ j c. refl)
  open_shields at {s} o d (next {t = u} r st) early =
      let up = mono_le clock mono _ _ (Step-reads st) in
      let before : clock u.breaker.reads < at + seconds s.breaker.recovery_timeout =
        omega (arith, up, early) in
      let (stays, none_starts) = open_shields at o d r before in
      let (stays', none_starts') = Step-StaysOpen at st stays.0 (stays.1 ∙ d) (rw stays.2 early) in
      (
        (stays'.0, stays'.1 ∙ stays.1, stays'.2 ∙ stays.2, le_trans stays.3 stays'.3),
        λ i c. none_starts' i c ∙ none_starts i (rw (none_starts' i c) at c),
      )
