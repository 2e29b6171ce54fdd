-- ===== src/Breaker/Probe.antt =====
-- pipeline/circuit_breaker.py: a failing probe passes _on_failure twice, in _execute and again in
-- _half_open_probe.
use inference_forge.Base.{ℕ, ◌+◌, ◌≤◌, ◌≡◌, refl, ◌≢◌, List, [], ◌∷◌, keep, length, arith, ◌∙◌, ap}
use inference_forge.Errors.{Error, circuit_breaker_open, cancelled, raise}
use inference_forge.Breaker.{half_open, Breaker, seconds, append, on_failure}
use inference_forge.Breaker.Call.{settle, settle_probe, execute, half_open_probe}
use inference_forge.Breaker.Outcomes.{alone}
use inference_forge.Breaker.Window.{IsMonotonic, in_window, IsTimed}
use inference_forge.Breaker.Timed.{mono_le, All-past, on_failure-timestamps, on_failure-IsTimed}
use inference_forge.Breaker.History.{History, on_failure-Represents, apply_op}

-- The errors that _execute counts.
abbrev pub CountsAsFailure : Error → Type 0
CountsAsFailure e = (e ≢ circuit_breaker_open) × (e ≢ cancelled)

length-keep-append :
    (w now : ℕ) (ts : List ℕ) (t : ℕ)
    → now ≤ t + w
    → length (keep (in_window w now) (append ts t)) ≡ length (keep (in_window w now) ts) + 1
length-keep-append w now [] t h = ground arith
length-keep-append w now (u ∷ us) t h = ground (arith, length-keep-append w now us t h)

module _ (clock : ℕ → ℕ) (mono : IsMonotonic clock) where
  on_failure_half_open :
      (b : Breaker)
      → b.state ≡ half_open
      → ((on_failure clock b).reads ≡ b.reads + 4)
        × ((on_failure clock b).window_seconds ≡ b.window_seconds)
  unfolding on_failure
  on_failure_half_open b h = ground arith

  abbrev shown : Breaker → ℕ → List ℕ → ℕ
  shown b now ts = length (keep (in_window (seconds b.window_seconds) now) ts)

  on_failure_window : (b : Breaker) → (on_failure clock b).window_seconds ≡ b.window_seconds
  unfolding on_failure
  on_failure_window b = ground arith

  -- The failure that on_failure records still shows at `now`, beside those that showed before.
  shown-on_failure :
      (b : Breaker) (now : ℕ)
      → IsTimed clock b
      → clock (on_failure clock b).reads ≤ now
      → now ≤ clock b.reads + seconds b.window_seconds
      → shown b now (on_failure clock b).failure_timestamps ≡ shown b now b.failure_timestamps + 1
  unfolding apply_op
  shown-on_failure b now t after soon =
      let s : History = record { breaker = b; failures = b.failure_timestamps } in
      let h = on_failure-Represents clock mono s (record { timed = t; shows = λ _ _. refl }) in
      rw (on_failure_window b) at (ap length (h.shows now after))
      ∙ length-keep-append _ now b.failure_timestamps _ soon

  twice :
      (b : Breaker)
      → IsTimed clock b
      → b.state ≡ half_open
      → clock (b.reads + 5) ≤ clock b.reads + seconds b.window_seconds
      → length (on_failure clock (on_failure clock b)).failure_timestamps
        ≡ shown b (clock (b.reads + 5)) b.failure_timestamps + 2
  twice b t h soon =
      let b1 : Breaker = on_failure clock b in
      let (r, w) = on_failure_half_open b h in
      let now : ℕ = clock (b.reads + 5) in
      let five : b.reads + 4 + 1 ≡ b.reads + 5 = omega arith in
      let last = mono_le clock mono (b.reads + 4) (b.reads + 5) (omega arith) in
      let first = mono_le clock mono b.reads (b.reads + 4) (omega arith) in
      let one = shown-on_failure b now t (rw r last) soon in
      rw (on_failure-timestamps clock mono b1 (on_failure-IsTimed clock mono b t), w, r, five)
        (length-keep-append _ now b1.failure_timestamps _ (omega arith) ∙ omega (arith, one))

module _ {ℓ} (A : Type ℓ) (clock : ℕ → ℕ) (k : ℕ) (b : Breaker) (half : b.state ≡ half_open) where
  probe_fails :
      (e : Error)
      → CountsAsFailure e
      → (half_open_probe clock (λ x. x) (alone {A = A} (raise e) k) b).1
        ≡ on_failure clock (on_failure clock (record b { reads = b.reads + k }))
  unfolding half_open_probe execute settle settle_probe
  probe_fails circuit_breaker_open c = absurd (c.0 refl)
  probe_fails cancelled c = absurd (c.1 refl)
  probe_fails _ c = ground arith

-- A probe that fails, with nothing else done to the breaker but `k` readings of the clock, adds two
-- failures to those that the window shows, if the window is longer than the handling takes.
pub failing_probe_counts_twice {ℓ} :
    (A : Type ℓ) (clock : ℕ → ℕ) (k : ℕ) (b : Breaker) (e : Error)
    → IsMonotonic clock
    → IsTimed clock b
    → b.state ≡ half_open
    → CountsAsFailure e
    → clock (b.reads + k + 5) ≤ clock (b.reads + k) + seconds b.window_seconds
    → length (half_open_probe clock (λ x. x) (alone {A = A} (raise e) k) b).1.failure_timestamps
      ≡ length (
          keep
            (in_window (seconds b.window_seconds) (clock (b.reads + k + 5)))
            b.failure_timestamps)
        + 2
failing_probe_counts_twice A clock k b e mono t half counts soon =
    rw (probe_fails A clock k b half e counts)
      (twice clock mono (record b { reads = b.reads + k }) later half soon)
  where
    later : IsTimed clock (record b { reads = b.reads + k })
    later = record {
      ascending = t.ascending;
      past = All-past clock mono b.reads (b.reads + k) b.failure_timestamps (omega arith) t.past;
    }
