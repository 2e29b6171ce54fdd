-- ===== src/Breaker/Failing.antt =====
-- pipeline/circuit_breaker.py: _on_failure while no failure leaves the window.
use inference_forge.Base.{
  ℕ, ◌+◌, ◌≤◌, ◌≡◌, ◌⊎◌, refl, true, false, some, List, [], ◌∷◌, All, length, leb, arith,
}
use inference_forge.Breaker.{Breaker, closed, opened, seconds, append, drop_old, on_failure}

pub drop_old_none :
    (window now from : ℕ) (ts : List ℕ)
    → now ≤ from + window
    → All (λ t. from ≤ t) ts
    → drop_old window now ts ≡ ts
unfolding drop_old
drop_old_none window now from [] h a = refl
drop_old_none window now from (t ∷ ts) h a = ground (arith, a.0)

module _ (clock : ℕ → ℕ) where
  pub failed_frame :
      (b : Breaker)
      → let b' = on_failure clock b in
        (b'.failure_threshold ≡ b.failure_threshold)
        × (b'.window_seconds ≡ b.window_seconds)
        × (b'.recovery_timeout ≡ b.recovery_timeout)
        × (b.reads ≤ b'.reads)
        × (b'.reads ≤ b.reads + 4)
  unfolding on_failure
  failed_frame b = ground arith

  pub failed_stage :
      (b : Breaker) (ts : List ℕ)
      → b.state ≡ closed
      → drop_old
          (seconds b.window_seconds)
          (clock (b.reads + 1))
          (append b.failure_timestamps (clock b.reads))
        ≡ ts
      → let b' = on_failure clock b in
        (leb b.failure_threshold (length ts) ≡ true)
          × (b'.state ≡ opened)
          × (b'.opened_at ≡ some (clock (b.reads + 3)))
        ⊎ (leb b.failure_threshold (length ts) ≡ false)
          × (b'.state ≡ closed)
          × (b'.failure_timestamps ≡ ts)
  unfolding on_failure
  failed_stage b ts s h = ground arith
