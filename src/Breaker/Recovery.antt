-- ===== src/Breaker/Recovery.antt =====
-- pipeline/circuit_breaker.py: no interleaving of the tasks shuts the breaker for good.
use mathlib.Core.Path.{subst}
use inference_forge.Base.{
  ◌≢◌, ℕ, ◌+◌, ◌≤◌, ◌<◌, ◌≡◌, refl, sym, inl, inr, Option, none, some, arith,
}
use inference_forge.Errors.{cancelled, ok, raise}
use inference_forge.Breaker.{
  CbState, closed, opened, half_open, Breaker, seconds, maybe_transition, on_success, transition,
}
use inference_forge.Breaker.Call.{settle, settle_probe}
use inference_forge.Breaker.Invariant.{IsValid}
use inference_forge.Breaker.Tasks.{
  idle, System, Step, begin, acquire, end_run, end_hold, end_try, read_clock, Reach, here, next,
  initial, begun, acquired, released,
}
use inference_forge.Breaker.Safety.{HasLock, Reach-IsValid}

-- The clock passes each date.
abbrev pub Passes : (ℕ → ℕ) → Type 0
Passes clock = (reads date : ℕ) → (k : ℕ) × (date ≤ clock (reads + k))

-- The holder of the lock is a task that has it.
abbrev Holds : System → Type 0
Holds s = (i : ℕ) → s.holder ≡ some i → HasLock (s.phase i)

module _ (A : Type 0) (clock : ℕ → ℕ) where
  Step-Holds : {s t : System} → Step A clock s t → Holds s → Holds t
  Step-Holds (begin i p e) h j lock = ground (arith, h j)
  Step-Holds (acquire i p free e) h j lock = ground (arith, h j)
  Step-Holds (end_run i r p e) h j lock = ground (arith, h j)
  Step-Holds (end_hold i r p e) h j lock = ground (arith, h j)
  Step-Holds (end_try i r p e) h j lock = ground (arith, h j)
  Step-Holds (read_clock k e) h j lock = ground (arith, h j)

  Reach-Holds : {s t : System} → Holds s → Reach A clock s t → Holds t
  Reach-Holds h here = h
  Reach-Holds h (next r st) = Step-Holds st (Reach-Holds h r)

  both : {s t u : System} → Reach A clock s t → Reach A clock t u → Reach A clock s u
  both r here = r
  both r (next q st) = next (both r q) st

  before : {s t u : System} → Step A clock s t → Reach A clock t u → Reach A clock s u
  before st r = both (next here st) r

  -- A state in which the task `i` may begin, and get the lock, with the same breaker.
  abbrev Frees : ℕ → System → Type 0
  Frees i s =
      (u : System) × (Reach A clock s u
        × (u.phase i ≡ idle)
        × (u.holder ≡ none)
        × (u.breaker ≡ s.breaker))

  release : (s : System) (i j : ℕ) → s.phase i ≡ idle → HasLock (s.phase j) → Frees i s
  unfolding settle settle_probe
  release s i j p (inl e) = (
    released j s.breaker s,
    (next here (end_try j (raise cancelled) e refl), ground arith, refl, refl),
  )
  release s i j p (inr e) = (
    released j s.breaker s,
    (next here (end_hold j (raise cancelled) e refl), ground arith, refl, refl),
  )

  frees :
      (s : System) (i : ℕ) (o : Option ℕ) → s.holder ≡ o → s.phase i ≡ idle → Holds s → Frees i s
  frees s i none e p h = (s, (here, p, e, refl))
  frees s i (some j) e p h = release s i j p (h j e)

  settled_closed :
      (a : A) (b : Breaker)
      → b.state ≡ half_open
      → (settle_probe {A = A} clock (ok a) (settle {A = A} clock (ok a) b)).state ≡ closed
  unfolding settle settle_probe on_success
  settled_closed a b h = ground (arith, h)

  abbrev Closes : System → Type 0
  Closes s = (t : System) × (Reach A clock s t × (t.breaker.state ≡ closed))

  probe_closes :
      (a : A) (s : System) (i : ℕ)
      → s.phase i ≡ idle
      → s.holder ≡ none
      → (maybe_transition clock s.breaker).state ≡ half_open
      → Closes s
  probe_closes a s i p free h =
      let s1 = begun clock i s in
      let s2 = acquired i s1 in
      (
        released i (settle_probe {A = A} clock (ok a) (settle {A = A} clock (ok a) s1.breaker)) s2,
        (
          next (next (next here (begin i p refl)) (acquire i (ground (arith, h)) free refl))
              (end_try i (ok a) (ground (arith, h)) refl),
          settled_closed a s1.breaker h,
        ),
      )

  half_open_stays :
      (b : Breaker) → b.state ≡ half_open → (maybe_transition clock b).state ≡ half_open
  unfolding maybe_transition
  half_open_stays b h = ground (arith, h)

  -- With the clock read `k` more times, an open breaker lets a probe through.
  recovered_in :
      (b : Breaker) (at k : ℕ)
      → b.state ≡ opened
      → b.opened_at ≡ some at
      → at + seconds b.recovery_timeout ≤ clock (b.reads + k)
      → (maybe_transition clock (record b { reads = b.reads + k })).state ≡ half_open
  unfolding maybe_transition transition
  recovered_in b at k h o l = ground (arith, h, o, l)

  opens :
      (a : A) (passes : Passes clock) (s : System) (i : ℕ) (o : Option ℕ)
      → s.phase i ≡ idle
      → s.holder ≡ none
      → s.breaker.state ≡ opened
      → s.breaker.opened_at ≡ o
      → o ≢ none
      → Closes s
  opens a passes s i none p free e o n = absurd (n refl)
  opens a passes s i (some at) p free e o n =
      let (k, l) = passes s.breaker.reads (at + seconds s.breaker.recovery_timeout) in
      let later = record s { breaker = record s.breaker { reads = s.breaker.reads + k } } in
      let (t, (r, c)) = probe_closes a later i p free (recovered_in s.breaker at k e o l) in
      (t, (before (read_clock k refl) r, c))

  closes :
      (a : A) (passes : Passes clock) (s : System) (i : ℕ) (state : CbState)
      → s.phase i ≡ idle
      → s.holder ≡ none
      → IsValid s.breaker
      → s.breaker.state ≡ state
      → Closes s
  closes a passes s i closed p free v e = (s, (here, e))
  closes a passes s i half_open p free v e = probe_closes a s i p free (half_open_stays s.breaker e)
  closes a passes s i opened p free v e =
      opens a passes s i s.breaker.opened_at p free e refl (v.opened_dated cc)

  -- No interleaving of the tasks shuts the breaker for good: from each state they can reach, with
  -- a clock that passes each date, a call that has not begun and a coroutine that can succeed, the
  -- tasks can go on to a state in which the breaker is CLOSED, whatever the tasks before them did,
  -- those that are cancelled with the probe lock included.
  pub can_recover :
      (n w timeout : ℕ) (s : System) (i : ℕ) (a : A)
      → 0 < n
      → Passes clock
      → Reach A clock (initial clock n w timeout) s
      → s.phase i ≡ idle
      → (t : System) × (Reach A clock s t × (t.breaker.state ≡ closed))
  can_recover n w timeout s i a h passes r p =
      let (u, (ru, pu, fu, bu)) = frees s i s.holder refl p (Reach-Holds (λ j e. cc) r) in
      let v = subst IsValid (sym bu) (Reach-IsValid A clock n w timeout s h r) in
      let (t, (rt, c)) = closes a passes u i u.breaker.state pu fu v refl in (t, (both ru rt, c))
