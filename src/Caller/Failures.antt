-- ===== src/Caller/Failures.antt =====
-- pipeline/caller.py and pipeline/circuit_breaker.py: how an API that is down opens the breaker.
use inference_forge.Base.{
  ℕ, suc, ◌+◌, All, ◌<◌, ◌≤◌, ◌≡◌, ◌⊎◌, inl, inr, refl, ◌∙◌, true, some, [], ◌∷◌, length,
  length-append, All-append, Option, arith,
}
use Prim.Native.String.{String}
use inference_forge.Base.Fraction.{Fraction}
use inference_forge.Errors.{circuit_breaker_open, http_status, Result, raise}
use inference_forge.Json.{Json}
use inference_forge.Breaker.{
  Breaker, closed, opened, seconds, append, drop_old, on_failure, maybe_transition,
}
use inference_forge.Breaker.Call.{call, execute, settle}
use inference_forge.Breaker.Failing.{drop_old_none, failed_frame, failed_stage}
use inference_forge.Breaker.Outcomes.{call_rejects}
use inference_forge.Caller.Retry.{World, try_once}

-- From the breaker `b` on: each call of the API ends with a status of error, no other task uses
-- the breaker, and the next `n` readings of the clock lie within the window and the recovery timeout
-- of the date `from`.
pub record IsDown (w : World) (b : Breaker) (from n : ℕ) : Type 0 where
  pub enabled : w.settings.cb_enabled ≡ true
  pub refuses :
      (attempt : ℕ) (x : Breaker)
      → (code : ℕ) × (after : Option String) × (w.api attempt x
          ≡ (raise (http_status code after), x))
  pub undisturbed : (d : Fraction) (x : Breaker) → w.sleep d x ≡ x
  pub readings :
      (i : ℕ)
      → b.reads ≤ i
      → i < b.reads + n
      → (from ≤ w.clock i)
        × (w.clock i ≤ from + seconds b.window_seconds)
        × (w.clock i < from + seconds b.recovery_timeout)

module _ (w : World) (b0 : Breaker) (from n : ℕ) (down : IsDown w b0 from n) where
  -- `k` calls have reached the API.
  pub record Counts (k : ℕ) (b : Breaker) : Type 0 where
    pub threshold : b.failure_threshold ≡ b0.failure_threshold
    pub window : b.window_seconds ≡ b0.window_seconds
    pub timeout : b.recovery_timeout ≡ b0.recovery_timeout
    pub later : b0.reads ≤ b.reads
    pub stage :
        (b.state ≡ closed)
          × (length b.failure_timestamps ≡ k)
          × All (λ t. from ≤ t) b.failure_timestamps
          × (k < b0.failure_threshold)
        ⊎ (b.state ≡ opened)
          × (at : ℕ) × (b.opened_at ≡ some at)
          × (from ≤ at)
          × (k ≡ b0.failure_threshold)

  evicted :
      (k : ℕ) (b : Breaker)
      → Counts k b
      → b.reads + 4 ≤ b0.reads + n
      → All (λ t. from ≤ t) b.failure_timestamps
      → drop_old
          (seconds b.window_seconds)
          (w.clock (b.reads + 1))
          (append b.failure_timestamps (w.clock b.reads))
        ≡ append b.failure_timestamps (w.clock b.reads)
  evicted k b c room a =
      let l = c.later in
      let first = down.readings b.reads (omega arith) (omega arith) in
      let second = down.readings (b.reads + 1) (omega arith) (omega arith) in
      drop_old_none _ _ from _ (rw c.window second.1)
        (All-append (λ t. from ≤ t) b.failure_timestamps _ a (first.0, tt))

  failed :
      (k : ℕ) (b : Breaker)
      → Counts k b
      → b.reads + 4 ≤ b0.reads + n
      → b.state ≡ closed
      → length b.failure_timestamps ≡ k
      → All (λ t. from ≤ t) b.failure_timestamps
      → k < b0.failure_threshold
      → Counts (suc k) (on_failure w.clock b)
  failed k b c room s l a below =
      let (same_threshold, same_window, same_timeout, up, _) = failed_frame w.clock b in
      let ts = append b.failure_timestamps (w.clock b.reads) in
      let more : length ts ≡ suc k =
        rw (length-append b.failure_timestamps (w.clock b.reads ∷ []), l) (omega arith) in
      let (first, _, _) = down.readings b.reads (omega (arith, c.later)) (omega (arith, room)) in
      let (opens, _, _) =
        down.readings (b.reads + 3) (omega (arith, c.later)) (omega (arith, room)) in
      record {
        threshold = same_threshold ∙ c.threshold;
        window = same_window ∙ c.window;
        timeout = same_timeout ∙ c.timeout;
        later = omega (arith, c.later, up);
        stage = elim (failed_stage w.clock b ts s (evicted k b c room a)) [
          | inl (full, o, at) ↦
              inr (
                o,
                w.clock (b.reads + 3),
                at,
                opens,
                ground (arith, full, more, below, c.threshold),
              )
          | inr (free, o, kept) ↦ inl (
            o,
            rw kept more,
            rw kept (All-append (λ t. from ≤ t) b.failure_timestamps _ a (first, tt)),
            ground (arith, free, more, c.threshold),
          )
        ];
      }

  closed_call :
      (attempt code : ℕ) (after : Option String) (b : Breaker)
      → b.state ≡ closed
      → w.api attempt b ≡ (raise (http_status code after), b)
      → call w.clock w.wait (w.api attempt) b
        ≡ (raise (http_status code after), on_failure w.clock b)
  unfolding call maybe_transition execute settle
  closed_call attempt code after b s e = ground arith

  -- What an attempt may give: a rejection, or one more call of the API.
  abbrev pub Attempt : ℕ → Breaker → Result (Json × Json) × Breaker → Type 0
  Attempt k b (r, b') =
      (b'.reads ≤ b.reads + 4)
      × ((r ≡ raise circuit_breaker_open) × Counts k b'
          ⊎ (code : ℕ) × (after : Option String) × (r ≡ raise (http_status code after))
            × Counts (suc k) b')

  one_read : (k : ℕ) (b : Breaker) → Counts k b → Counts k (record b { reads = b.reads + 1 })
  one_read k b c = record {
    threshold = c.threshold;
    window = c.window;
    timeout = c.timeout;
    later = omega (arith, c.later);
    stage = c.stage;
  }

  pub attempted :
      (attempt k : ℕ) (b : Breaker)
      → Counts k b
      → b.reads + 4 ≤ b0.reads + n
      → Attempt k b (try_once w attempt b)
  unfolding try_once
  attempted attempt k b c room = elim c.stage [
    | inl (s, l, a, below) ↦
        let (code, after, e) = down.refuses attempt b in
        let (_, _, _, _, few) = failed_frame w.clock b in
        rw (down.enabled, closed_call attempt code after b s e)
          (few, inr (code, after, refl, failed k b c room s l a below))
    | inr (o, at, dated, late, full) ↦
        let (_, _, soon) = down.readings b.reads c.later (omega (arith, room)) in
        let early : w.clock b.reads < at + seconds b.recovery_timeout =
          rw c.timeout (omega (arith, soon, late)) in
        rw (down.enabled, call_rejects w.clock w.wait (w.api attempt) b at o dated early)
          (omega arith, inl (refl, one_read k b c))
  ]
