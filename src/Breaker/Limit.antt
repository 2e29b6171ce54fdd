-- ===== src/Breaker/Limit.antt =====
-- pipeline/circuit_breaker.py: how many calls of an API that is down the tasks can start.
use native.Mathlib.Nat.{add-zero, le_refl, le_trans}
use native.Mathlib.Numerals.{add-one}
use inference_forge.Base.{
  ℕ, suc, ◌+◌, ◌≤◌, ◌<◌, ◌≡◌, ◌⊎◌, inl, inr, refl, some, [], ◌∷◌, All, All-append, length,
  length-append, arith, ◌∙◌,
}
use inference_forge.Breaker.{
  closed, opened, Breaker, seconds, append, entry_of, maybe_transition, on_failure,
}
use inference_forge.Breaker.Window.{IsMonotonic}
use inference_forge.Breaker.Timed.{mono_le, on_failure_reads}
use inference_forge.Breaker.Failing.{drop_old_none, failed_frame, failed_stage}
use inference_forge.Breaker.Shield.{Step-reads, maybe_transition-StaysOpen, on_failure-StaysOpen}
use inference_forge.Breaker.Starts.{
  in_call, starts_in, ends_in, starts, ends, AtMost, Fails, AllFail, settle-fails,
}
use inference_forge.Breaker.Tasks.{
  Phase, idle, waiting, trying, holding, running, finished, phase_of, System, Step, begin, acquire,
  end_run, end_hold, end_try, read_clock, Reach, here, next, begun, ended,
}

abbrev Unlocked : Phase → Type 0
Unlocked p = (p ≡ idle) ⊎ ((p ≡ running) ⊎ (p ≡ finished))

not_locked : (p : Phase) → Unlocked p → (p ≡ waiting) ⊎ ((p ≡ holding) ⊎ (p ≡ trying)) → ⊥
not_locked p u l = ground arith

-- From the breaker `b0`, after `m` starts and `k` ends of calls, at most `c` of which run at once.
record IsLimited (clock : ℕ → ℕ) (b0 : Breaker) (c m k : ℕ) (t : System) : Type 0 where
  threshold : t.breaker.failure_threshold ≡ b0.failure_threshold
  window : t.breaker.window_seconds ≡ b0.window_seconds
  timeout : t.breaker.recovery_timeout ≡ b0.recovery_timeout
  later : b0.reads ≤ t.breaker.reads
  unlocked : (i : ℕ) → Unlocked (t.phase i)
  stage :
      (t.breaker.state ≡ closed)
        × (length t.breaker.failure_timestamps ≡ k)
        × All (λ u. clock b0.reads ≤ u) t.breaker.failure_timestamps
        × (k < b0.failure_threshold)
      ⊎ (t.breaker.state ≡ opened)
        × (at : ℕ) × (t.breaker.opened_at ≡ some at)
        × (clock b0.reads ≤ at)
        × (m < b0.failure_threshold + c)

module _ (A : Type 0) (clock : ℕ → ℕ) (mono : IsMonotonic clock) (b0 : Breaker) (c : ℕ) where
  begin_closed : (b : Breaker) → b.state ≡ closed → maybe_transition clock b ≡ b
  unfolding maybe_transition
  begin_closed b s = ground arith

  begin_frame :
      (b : Breaker)
      → ((maybe_transition clock b).failure_threshold ≡ b.failure_threshold)
        × ((maybe_transition clock b).window_seconds ≡ b.window_seconds)
  unfolding maybe_transition
  begin_frame b = ground arith

  begin-IsLimited :
      (m k i : ℕ) (s : System)
      → IsLimited clock b0 c m k s
      → clock (maybe_transition clock s.breaker).reads
        < clock b0.reads + seconds b0.recovery_timeout
      → let b = maybe_transition clock s.breaker in
        IsLimited clock b0 c (m + in_call (phase_of (entry_of b.state))) k (begun clock i s)
  begin-IsLimited m k i s l soon = elim l.stage [
    | inl (o, n, a, below) ↦
        let same = begin_closed s.breaker o in
        record {
          threshold = rw same l.threshold;
          window = rw same l.window;
          timeout = rw same l.timeout;
          later = rw same l.later;
          unlocked = λ j. ground (arith, same, l.unlocked j);
          stage = inl (rw same o, rw same n, rw same a, below);
        }
    | inr (o, at, d, late, few) ↦
        let early : clock (maybe_transition clock s.breaker).reads
            < at + seconds s.breaker.recovery_timeout =
          omega (arith, soon, late, l.timeout) in
        let stays = maybe_transition-StaysOpen A clock mono s.breaker at o d early in
        let (same_threshold, same_window) = begin_frame s.breaker in
        record {
          threshold = same_threshold ∙ l.threshold;
          window = same_window ∙ l.window;
          timeout = stays.2 ∙ l.timeout;
          later = le_trans l.later stays.3;
          unlocked = λ j. ground (arith, stays.0, l.unlocked j);
          stage = inr (stays.0, at, stays.1 ∙ d, late, rw stays.0 (omega (arith, few)));
        }
  ]

  fail-IsLimited :
      (m k i : ℕ) (s : System)
      → IsLimited clock b0 c m k s
      → m ≤ k + c
      → clock (on_failure clock s.breaker).reads ≤ clock b0.reads + seconds b0.window_seconds
      → IsLimited clock b0 c m (suc k) (ended i (on_failure clock s.breaker) s)
  fail-IsLimited m k i s l most soon =
      let b = s.breaker in
      let (same_threshold, same_window, same_timeout, up, _) = failed_frame clock b in
      record {
        threshold = same_threshold ∙ l.threshold;
        window = same_window ∙ l.window;
        timeout = same_timeout ∙ l.timeout;
        later = le_trans l.later up;
        unlocked = λ j. ground (arith, l.unlocked j);
        stage = elim l.stage [
          | inl (o, n, a, below) ↦
              let ts = append b.failure_timestamps (clock b.reads) in
              let more : length ts ≡ suc k =
                rw (length-append b.failure_timestamps (clock b.reads ∷ []), n) (omega arith) in
              let first = mono_le clock mono b0.reads b.reads l.later in
              let second =
                mono_le clock mono (b.reads + 1) (on_failure clock b).reads
                  (omega (arith, on_failure_reads clock mono b)) in
              let old : All (λ t. clock b0.reads ≤ t) ts =
                All-append (λ t. clock b0.reads ≤ t) b.failure_timestamps (clock b.reads ∷ []) a
                  (first, tt) in
              let kept =
                drop_old_none (seconds b.window_seconds) (clock (b.reads + 1)) (clock b0.reads) ts
                  (omega (arith, second, soon, l.window)) old in
              elim (failed_stage clock b ts o kept) [
                | inl (full, o', at) ↦ inr (
                  o',
                  clock (b.reads + 3),
                  at,
                  mono_le clock mono b0.reads (b.reads + 3) (omega (arith, l.later)),
                  omega (arith, most, below),
                )
                | inr (free, o', left) ↦
                    inl (o', rw left more, rw left old, ground (arith, free, more, l.threshold))
              ]
          | inr (o, at, d, late, few) ↦
              let stays = on_failure-StaysOpen A clock mono b o in
              inr (stays.0, at, stays.1 ∙ d, late, few)
        ];
      }

  Step-IsLimited :
      (m k : ℕ) {s t : System} (st : Step A clock s t)
      → Fails A clock st
      → IsLimited clock b0 c m k s
      → m ≤ k + c
      → clock t.breaker.reads ≤ clock b0.reads + seconds b0.window_seconds
      → clock t.breaker.reads < clock b0.reads + seconds b0.recovery_timeout
      → IsLimited clock b0 c (m + starts_in A clock st) (k + ends_in A clock st) t
  Step-IsLimited m k {s} (begin i p e) f l most near soon =
      rw (e, add-zero k) (begin-IsLimited m k i s l (rw e at soon))
  Step-IsLimited m k {s} (acquire i p free e) f l most near soon =
      absurd (not_locked (s.phase i) (l.unlocked i) (inl p))
  Step-IsLimited m k {s} (end_run i r p e) (x, raised, counts) l most near soon =
      let fails = settle-fails A clock x s.breaker counts in
      let end = rw raised at e in
      let end' = rw fails at end in
      rw (end', add-zero m, add-one k) (fail-IsLimited m k i s l most (rw end' at near))
  Step-IsLimited m k {s} (end_hold i r p e) f l most near soon =
      absurd (not_locked (s.phase i) (l.unlocked i) (inr (inl p)))
  Step-IsLimited m k {s} (end_try i r p e) f l most near soon =
      absurd (not_locked (s.phase i) (l.unlocked i) (inr (inr p)))
  Step-IsLimited m k {s} (read_clock j e) f l most near soon =
      rw (e, add-zero k, add-zero m)
        (record {
          threshold = l.threshold;
          window = l.window;
          timeout = l.timeout;
          later = omega (arith, l.later);
          unlocked = l.unlocked;
          stage = l.stage;
        })

  Reach-IsLimited :
      {s t : System}
      → IsLimited clock b0 c 0 0 s
      → (r : Reach A clock s t) → AllFail A clock r
      → AtMost A clock c r
      → clock t.breaker.reads ≤ clock b0.reads + seconds b0.window_seconds
      → clock t.breaker.reads < clock b0.reads + seconds b0.recovery_timeout
      → IsLimited clock b0 c (starts A clock r) (ends A clock r) t
        × (starts A clock r ≤ ends A clock r + c)
  Reach-IsLimited l here f m near soon = (l, omega arith)
  Reach-IsLimited l (next {t = u} r st) (f, fails) (m, most) near soon =
      let up = mono_le clock mono _ _ (Step-reads A clock mono st) in
      let near' : clock u.breaker.reads ≤ clock b0.reads + seconds b0.window_seconds =
        omega (arith, up, near) in
      let soon' : clock u.breaker.reads < clock b0.reads + seconds b0.recovery_timeout =
        omega (arith, up, soon) in
      let (l', most') = Reach-IsLimited l r f m near' soon' in
      (Step-IsLimited _ _ st fails l' most' near soon, most)

-- Tasks that have not begun, a breaker that is closed with no failure in its deque and a threshold of
-- one or more, and a clock that never goes back. As long as each call that ends fails, at most `c`
-- calls run at once, and neither the window nor recovery_timeout has run out: fewer than
-- failure_threshold + c calls are started, however many tasks there are and however they interleave.
pub calls_limited :
    (A : Type 0) (clock : ℕ → ℕ) (c : ℕ) {s t : System}
    → IsMonotonic clock
    → s.breaker.state ≡ closed
    → s.breaker.failure_timestamps ≡ []
    → 0 < s.breaker.failure_threshold
    → ((i : ℕ) → s.phase i ≡ idle)
    → (r : Reach A clock s t) → AllFail A clock r
    → AtMost A clock c r
    → clock t.breaker.reads ≤ clock s.breaker.reads + seconds s.breaker.window_seconds
    → clock t.breaker.reads < clock s.breaker.reads + seconds s.breaker.recovery_timeout
    → starts A clock r < s.breaker.failure_threshold + c
calls_limited A clock c {s} mono o none some_failure idles r f m near soon =
    let first : IsLimited clock s.breaker c 0 0 s = record {
      threshold = refl;
      window = refl;
      timeout = refl;
      later = le_refl _;
      unlocked = λ i. inl (idles i);
      stage = inl (o, rw none refl, rw none tt, some_failure);
    } in
    let (l, most) = Reach-IsLimited A clock mono s.breaker c first r f m near soon in
    elim l.stage [ inl (_, _, _, below) ↦ omega (arith, most, below) | inr (_, _, _, _, few) ↦ few ]
