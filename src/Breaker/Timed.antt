-- ===== src/Breaker/Timed.antt =====
-- pipeline/circuit_breaker.py: the recorded failures stand in the order of time, and _on_failure
-- opens the breaker by the failures in the window.
use native.Mathlib.Nat.{zero-add, suc-add, le_refl, le_trans}
use inference_forge.Base.{
  ℕ, zero, suc, ◌+◌, ◌-◌, ◌≤◌, ◌≡◌, List, keep, All, All-append, All-map, length, arith, ◌↔◌, ◌∙◌,
}
use inference_forge.Breaker.{
  closed, opened, Breaker, append, seconds, drop_old, evict_old_failures, on_failure, on_success,
  maybe_transition,
}
use inference_forge.Breaker.Window.{
  IsMonotonic, in_window, Ascending, IsTimed, drop_old-eq-keep, All-drop_old, Ascending-drop_old,
  Ascending-append,
}

-- The failures in the window that ends at `now`, with the one of this moment.
abbrev pub window_at : (ℕ → ℕ) → Breaker → ℕ → List ℕ
window_at clock b now =
    keep (in_window (seconds b.window_seconds) now) (append b.failure_timestamps (clock b.reads))

module _ (clock : ℕ → ℕ) (mono : IsMonotonic clock) where
  mono_add : (k i : ℕ) → clock i ≤ clock (k + i)
  mono_add zero i = rw zero-add (le_refl _)
  mono_add (suc k) i = rw suc-add (le_trans (mono_add k i) (mono (k + i)))

  pub mono_le : (i j : ℕ) → i ≤ j → clock i ≤ clock j
  mono_le i j h = let e : (j - i) + i ≡ j = omega arith in rw e at (mono_add (j - i) i)

  -- Reading the clock leaves the recorded failures in the past.
  pub All-past :
      (i j : ℕ) (ts : List ℕ) → i ≤ j → All (λ t. t ≤ clock i) ts → All (λ t. t ≤ clock j) ts
  All-past i j ts h = All-map _ _ ts (λ t p. le_trans p (mono_le i j h))

  recorded :
      (b : Breaker) → IsTimed clock b → Ascending (append b.failure_timestamps (clock b.reads))
  recorded b h = Ascending-append b.failure_timestamps (clock b.reads) h.past h.ascending

  on_failure_drops :
      (b : Breaker)
      → (on_failure clock b).failure_timestamps
        ≡ drop_old
            (seconds b.window_seconds)
            (clock (b.reads + 1))
            (append b.failure_timestamps (clock b.reads))
  unfolding on_failure
  on_failure_drops b = ground arith

  pub on_failure-timestamps :
      (b : Breaker)
      → IsTimed clock b
      → (on_failure clock b).failure_timestamps ≡ window_at clock b (clock (b.reads + 1))
  on_failure-timestamps b h = on_failure_drops b ∙ drop_old-eq-keep _ _ _ (recorded b h)

  -- In CLOSED, _on_failure opens the breaker exactly when the failures of the window that ends
  -- now, this one included, are as many as the threshold.
  pub on_failure_opens :
      (b : Breaker)
      → IsTimed clock b
      → b.state ≡ closed
      → ((on_failure clock b).state ≡ opened)
        ↔ (b.failure_threshold ≤ length (window_at clock b (clock (b.reads + 1))))
  unfolding on_failure
  on_failure_opens b h c = ground (
    arith,
    drop_old-eq-keep (seconds b.window_seconds) (clock (b.reads + 1))
        (append b.failure_timestamps (clock b.reads)) (recorded b h),
  )

  pub on_failure_reads : (b : Breaker) → b.reads + 2 ≤ (on_failure clock b).reads
  unfolding on_failure
  on_failure_reads b = ground arith

  pub on_failure-IsTimed : (b : Breaker) → IsTimed clock b → IsTimed clock (on_failure clock b)
  on_failure-IsTimed b h = record {
    ascending = rw (on_failure_drops b) (Ascending-drop_old _ _ _ (recorded b h));
    past = rw (on_failure_drops b) (
        All-drop_old _ _ _ _ (
          All-append _ b.failure_timestamps _
            (All-past b.reads after b.failure_timestamps (omega (arith, on_failure_reads b)) h.past)
            (mono_le b.reads after (omega (arith, on_failure_reads b)), tt)));
  }
    where
      after : ℕ
      after = (on_failure clock b).reads

  pub on_success-IsTimed : (b : Breaker) → IsTimed clock b → IsTimed clock (on_success clock b)
  unfolding on_success
  on_success-IsTimed b h =
      ground (arith, All-past b.reads (on_success clock b).reads b.failure_timestamps)

  pub maybe_transition_frame :
      (b : Breaker)
      → ((maybe_transition clock b).failure_timestamps ≡ b.failure_timestamps)
        × ((maybe_transition clock b).window_seconds ≡ b.window_seconds)
        × (b.reads ≤ (maybe_transition clock b).reads)
  unfolding maybe_transition
  maybe_transition_frame b = ground arith

  pub maybe_transition-IsTimed :
      (b : Breaker) → IsTimed clock b → IsTimed clock (maybe_transition clock b)
  maybe_transition-IsTimed b h =
      let (same, _, later) = maybe_transition_frame b in
      record { ascending = rw same h.ascending; past = rw same (All-past _ _ _ later h.past) }

  pub evict_old_failures-IsTimed :
      (b : Breaker) → IsTimed clock b → IsTimed clock (evict_old_failures clock b)
  unfolding evict_old_failures
  evict_old_failures-IsTimed b h = record {
    ascending = Ascending-drop_old _ _ _ h.ascending;
    past = All-drop_old _ _ _ _ (All-past b.reads (b.reads + 1) _ (omega arith) h.past);
  }
