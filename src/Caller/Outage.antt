-- ===== src/Caller/Outage.antt =====
-- pipeline/caller.py: tickets that meet an open breaker.
use native.Mathlib.Nat.{add-zero}
use inference_forge.Base.{
  ℕ, zero, suc, ◌+◌, All, ◌<◌, ◌≡◌, refl, ◌∙◌, ap, true, some, List, [], ◌∷◌, map, length, arith,
}
use inference_forge.Errors.{circuit_breaker_open, ok, raise}
use inference_forge.Text.{Text, codes}
use inference_forge.Breaker.{Breaker, opened, seconds}
use inference_forge.Breaker.Outcomes.{call_rejects}
use inference_forge.Caller.Retry.{
  World, Run, failure_result, handle, try_once, loop, call_with_retry,
}

module _ (w : World) where
  -- Tickets one behind the other, each with the breaker that the last one left.
  abbrev pub in_turn : List Text → Breaker → List Run
  in_turn [] b = []
  in_turn (t ∷ ts) b = let run = call_with_retry w t b in run ∷ in_turn ts run.breaker

  abbrev pub last_breaker : List Text → Breaker → Breaker
  last_breaker [] b = b
  last_breaker (t ∷ ts) b = last_breaker ts (call_with_retry w t b).breaker

  -- The breaker is open, and the readings of the next `n` calls come before recovery_timeout has
  -- passed.
  pub record IsOpenFor (n at : ℕ) (b : Breaker) : Type 0 where
    pub open_state : b.state ≡ opened
    pub since : b.opened_at ≡ some at
    pub early : (i : ℕ) → i < n → w.clock (b.reads + i) < at + seconds b.recovery_timeout

  -- A ticket that is turned away.
  abbrev pub turned_away : Text → Breaker → Run
  turned_away ticket b = record {
    result = ok (failure_result ticket (codes "circuit_breaker_open"));
    attempts = 1;
    sleeps = [];
    breaker = record b { reads = b.reads + 1 };
  }

  try_once_rejects :
      (n at attempt : ℕ) (b : Breaker)
      → w.settings.cb_enabled ≡ true
      → IsOpenFor (suc n) at b
      → try_once w attempt b ≡ (raise circuit_breaker_open, record b { reads = b.reads + 1 })
  unfolding try_once
  try_once_rejects n at attempt b enabled h =
      let now : w.clock b.reads < at + seconds b.recovery_timeout =
        rw add-zero at (h.early 0 (omega arith)) in
      rw enabled (call_rejects w.clock w.wait (w.api attempt) b at h.open_state h.since now)

  loop_rejects :
      (n at left : ℕ) (ticket : Text) (b : Breaker)
      → 0 < left
      → w.settings.cb_enabled ≡ true
      → IsOpenFor (suc n) at b
      → loop w ticket left 1 b ≡ turned_away ticket b
  unfolding loop handle
  loop_rejects n at zero ticket b some_try enabled h = absurd (omega (arith, some_try))
  loop_rejects n at (suc left) ticket b some_try enabled h =
      rw (try_once_rejects n at 1 b enabled h) refl

  call_with_retry_rejects :
      (n at : ℕ) (ticket : Text) (b : Breaker)
      → 0 < w.settings.max_retries
      → w.settings.cb_enabled ≡ true
      → IsOpenFor (suc n) at b
      → call_with_retry w ticket b ≡ turned_away ticket b
  unfolding call_with_retry
  call_with_retry_rejects n at ticket b some_try enabled h =
      loop_rejects n at w.settings.max_retries ticket b some_try enabled h

  one_read_later :
      (n at : ℕ) (b : Breaker)
      → IsOpenFor (suc n) at b
      → IsOpenFor n at (record b { reads = b.reads + 1 })
  one_read_later n at b h = record {
    open_state = h.open_state;
    since = h.since;
    early = λ i below.
        let shift : b.reads + 1 + i ≡ b.reads + suc i = omega arith in
        rw shift (h.early (suc i) (omega arith));
  }

  -- Tickets that come while the breaker is open, before recovery_timeout has passed: each fails as
  -- circuit_breaker_open at its first attempt, with no sleep and whatever the API would answer,
  -- and of the breaker only the count of clock readings changes, so that they do not put off its
  -- recovery.
  pub outage :
      (at : ℕ) (ts : List Text) (b : Breaker)
      → 0 < w.settings.max_retries
      → w.settings.cb_enabled ≡ true
      → IsOpenFor (length ts) at b
      → (map (λ (r : Run). r.result) (in_turn ts b)
          ≡ map (λ t. ok (failure_result t (codes "circuit_breaker_open"))) ts)
        × All (λ (r : Run). (r.attempts ≡ 1) × (r.sleeps ≡ [])) (in_turn ts b)
        × (last_breaker ts b ≡ record b { reads = b.reads + length ts })
  outage at [] b some_try enabled h = (refl, tt, rw add-zero refl)
  outage at (t ∷ ts) b some_try enabled h =
      let first = call_with_retry_rejects (length ts) at t b some_try enabled h in
      let later = record b { reads = b.reads + 1 } in
      let (x, y, z) = outage at ts later some_try enabled (one_read_later (length ts) at b h) in
      let shift : b.reads + 1 + length ts ≡ b.reads + suc (length ts) = omega arith in
      rw first (
        ap (λ rs. ok (failure_result t (codes "circuit_breaker_open")) ∷ rs) x,
        ((refl, refl), y),
        z ∙ ap (λ k. record b { reads = k }) shift,
      )
