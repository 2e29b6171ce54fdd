-- ===== src/Breaker/History.antt =====
-- pipeline/circuit_breaker.py: the deque of timestamps against the whole history of failures.
use native.Mathlib.Nat.{le_refl, le_trans}
use native.Mathlib.Numerals.{add-one}
use inference_forge.Base.{
  ℕ, ◌+◌, ◌≤◌, ◌≡◌, refl, List, [], ◌∷◌, ◌++◌, keep, keep-append, length, arith, sym, ◌∙◌, ap,
}
use inference_forge.Breaker.{
  CbState, closed, opened, half_open, Breaker, append, seconds, on_failure, on_success,
  maybe_transition, new, failure_count,
}
use inference_forge.Breaker.Window.{IsMonotonic, in_window, IsTimed, drop_old-eq-keep}
use inference_forge.Breaker.Timed.{
  mono_le, on_failure-timestamps, on_failure-IsTimed, on_success-IsTimed, maybe_transition_frame,
  maybe_transition-IsTimed, evict_old_failures-IsTimed,
}

-- What is done to the breaker, with the order of time.
pub data Op : Type 0 where
  succeed fail check count : Op

abbrev pub cleared : CbState → List ℕ → List ℕ
cleared half_open hist = []
cleared closed hist = hist
cleared opened hist = hist

-- The specification keeps every failure since the breaker was last closed, and evicts none.
pub record History : Type 0 where
  pub breaker : Breaker
  pub failures : List ℕ

module _ (clock : ℕ → ℕ) where
  unfoldable pub apply_op : Op → History → History
  apply_op succeed s = record {
    breaker = on_success clock s.breaker;
    failures = cleared s.breaker.state s.failures;
  }
  apply_op fail s = record {
    breaker = on_failure clock s.breaker;
    failures = append s.failures (clock s.breaker.reads);
  }
  apply_op check s = record s { breaker = maybe_transition clock s.breaker }
  apply_op count s = record s { breaker = (failure_count clock s.breaker).1 }

  unfoldable pub run_ops : List Op → History → History
  unfolding apply_op
  run_ops [] s = s
  run_ops (o ∷ os) s = run_ops os (apply_op o s)

-- A new breaker, before any failure.
abbrev pub start : (ℕ → ℕ) → ℕ → ℕ → ℕ → ℕ → History
start clock n w t r = record { breaker = new clock n w t r; failures = [] }

-- From now on a window shows the same failures in the deque as in the history.
pub record Represents (clock : ℕ → ℕ) (s : History) : Type 0 where
  pub timed : IsTimed clock s.breaker
  pub shows :
      (now : ℕ)
      → clock s.breaker.reads ≤ now
      → keep (in_window (seconds s.breaker.window_seconds) now) s.breaker.failure_timestamps
        ≡ keep (in_window (seconds s.breaker.window_seconds) now) s.failures

-- A later window shows no failure that an earlier one has lost.
pub keep_later :
    (w n m : ℕ) (ts : List ℕ)
    → n ≤ m
    → keep (in_window w m) (keep (in_window w n) ts) ≡ keep (in_window w m) ts
keep_later w n m [] h = refl
keep_later w n m (t ∷ ts) h = ground (arith, keep_later w n m ts h)

module _ (clock : ℕ → ℕ) (mono : IsMonotonic clock) where
  on_success-Represents :
      (s : History) → Represents clock s → Represents clock (apply_op clock succeed s)
  unfolding apply_op on_success
  on_success-Represents s h = record {
    timed = on_success-IsTimed clock mono s.breaker h.timed;
    shows = λ now later.
        ground (
          arith,
          h.shows now,
          mono_le clock mono s.breaker.reads (on_success clock s.breaker).reads,
        );
  }

  on_failure_frame :
      (b : Breaker)
      → ((on_failure clock b).window_seconds ≡ b.window_seconds)
        × (b.reads + 2 ≤ (on_failure clock b).reads)
  unfolding on_failure
  on_failure_frame b = ground arith

  pub on_failure-Represents :
      (s : History) → Represents clock s → Represents clock (apply_op clock fail s)
  unfolding apply_op
  on_failure-Represents s h = record {
    timed = on_failure-IsTimed clock mono s.breaker h.timed;
    shows = λ now later.
        let reads : ℕ = (on_failure clock s.breaker).reads in
        let (same, more) = on_failure_frame s.breaker in
        let first = le_trans (mono_le clock mono (s.breaker.reads + 1) reads (omega arith)) later in
        let start = le_trans (mono_le clock mono s.breaker.reads reads (omega arith)) later in
        rw (on_failure-timestamps clock mono s.breaker h.timed, same)
          (keep_later _ _ now _ first
            ∙ keep-append _ s.breaker.failure_timestamps _
            ∙ ap
                (λ l.
                  l
                  ++ keep (in_window (seconds s.breaker.window_seconds) now)
                      (clock s.breaker.reads ∷ []))
                (h.shows now start)
            ∙ sym (keep-append _ s.failures _));
  }

  maybe_transition-Represents :
      (s : History) → Represents clock s → Represents clock (apply_op clock check s)
  unfolding apply_op
  maybe_transition-Represents s h =
      let (same, window, later) = maybe_transition_frame clock mono s.breaker in
      record {
        timed = maybe_transition-IsTimed clock mono s.breaker h.timed;
        shows = λ now after.
            rw (same, window) (h.shows now (le_trans (mono_le clock mono _ _ later) after));
      }

  failure_count-Represents :
      (s : History) → Represents clock s → Represents clock (apply_op clock count s)
  unfolding apply_op failure_count
  failure_count-Represents s h = record {
    timed = evict_old_failures-IsTimed clock mono s.breaker h.timed;
    shows = λ now later.
        let start = le_trans (mono s.breaker.reads) (rw add-one at later) in
        rw (drop_old-eq-keep _ _ _ h.timed.ascending)
          (keep_later _ _ now _ start ∙ h.shows now start);
  }

  apply_op-Represents :
      (o : Op) (s : History) → Represents clock s → Represents clock (apply_op clock o s)
  apply_op-Represents succeed = on_success-Represents
  apply_op-Represents fail = on_failure-Represents
  apply_op-Represents check = maybe_transition-Represents
  apply_op-Represents count = failure_count-Represents

  run_ops-Represents :
      (os : List Op) (s : History) → Represents clock s → Represents clock (run_ops clock os s)
  unfolding run_ops
  run_ops-Represents [] s h = h
  run_ops-Represents (o ∷ os) s h = run_ops-Represents os _ (apply_op-Represents o s h)

  start-Represents : (n w t r : ℕ) → Represents clock (start clock n w t r)
  unfolding new
  start-Represents n w t r = record {
    timed = record { ascending = tt; past = tt };
    shows = λ _ _. refl;
  }

  counts_window :
      (s : History)
      → Represents clock s
      → (failure_count clock s.breaker).0
        ≡ length
            (keep (in_window (seconds s.breaker.window_seconds) (clock s.breaker.reads)) s.failures)
  unfolding failure_count
  counts_window s h =
      rw (drop_old-eq-keep _ _ _ h.timed.ascending) (ap length (h.shows _ (le_refl _)))

  -- After any successes, failures, checks and counts of a new breaker, failure_count is the number
  -- of those failures since it last closed that lie in the window at that moment.
  pub failure_count-run_ops :
      (n w t r : ℕ) (os : List Op)
      → let s = run_ops clock os (start clock n w t r) in
        (failure_count clock s.breaker).0
        ≡ length
            (keep (in_window (seconds s.breaker.window_seconds) (clock s.breaker.reads)) s.failures)
  failure_count-run_ops n w t r os =
      counts_window _ (run_ops-Represents os _ (start-Represents n w t r))
