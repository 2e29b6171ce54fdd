-- ===== src/Breaker/Safety.antt =====
-- pipeline/circuit_breaker.py: what holds however the event loop interleaves the tasks.
use inference_forge.Base.{ℕ, ◌<◌, ◌≡◌, ◌⊎◌, some, arith}
use inference_forge.Breaker.Invariant.{
  IsValid, new-IsValid, maybe_transition-IsValid, settle-IsValid, settle_probe-IsValid,
}
use inference_forge.Breaker.Diagram.{
  IsPath, new-IsPath, maybe_transition-IsPath, settle-IsPath, settle_probe-IsPath,
}
use inference_forge.Breaker.Tasks.{
  Phase, waiting, trying, holding, System, Step, begin, acquire, end_run, end_hold, end_try,
  read_clock, Reach, here, next, initial,
}

abbrev pub HasLock : Phase → Type 0
HasLock p = (p ≡ trying) ⊎ (p ≡ holding)

-- Each task that has the lock is the holder.
abbrev Held : System → Type 0
Held s = (i : ℕ) → HasLock (s.phase i) → s.holder ≡ some i

module _ (A : Type 0) (clock : ℕ → ℕ) where
  Step-Held : {s t : System} → Step A clock s t → Held s → Held t
  Step-Held (begin i p e) h j lock = ground (arith, h j)
  Step-Held (acquire i p free e) h j lock = ground (arith, h j)
  Step-Held (end_run i r p e) h j lock = ground (arith, h j)
  Step-Held (end_hold i r p e) h j lock = ground (arith, h j, h i)
  Step-Held (end_try i r p e) h j lock = ground (arith, h j, h i)
  Step-Held (read_clock k e) h j lock = ground (arith, h j)

  Step-IsValid : {s t : System} → Step A clock s t → IsValid s.breaker → IsValid t.breaker
  Step-IsValid {s} (begin i p e) h = rw e (maybe_transition-IsValid clock s.breaker h)
  Step-IsValid (acquire i p free e) h = rw e h
  Step-IsValid {s} (end_run i r p e) h = rw e (settle-IsValid clock r s.breaker h)
  Step-IsValid {s} (end_hold i r p e) h = rw e (settle-IsValid clock r s.breaker h)
  Step-IsValid {s} (end_try i r p e) h =
      rw e (settle_probe-IsValid clock r _ (settle-IsValid clock r s.breaker h))
  Step-IsValid (read_clock k e) h = ground arith

  Step-IsPath :
      {s t : System}
      → Step A clock s t
      → IsPath s.breaker.log s.breaker.state
      → IsPath t.breaker.log t.breaker.state
  Step-IsPath {s} (begin i p e) h = rw e (maybe_transition-IsPath clock s.breaker h)
  Step-IsPath (acquire i p free e) h = rw e h
  Step-IsPath {s} (end_run i r p e) h = rw e (settle-IsPath clock r s.breaker h)
  Step-IsPath {s} (end_hold i r p e) h = rw e (settle-IsPath clock r s.breaker h)
  Step-IsPath {s} (end_try i r p e) h =
      rw e (settle_probe-IsPath clock r _ (settle-IsPath clock r s.breaker h))
  Step-IsPath (read_clock k e) h = rw e h

  Reach-Held : {s t : System} → Held s → Reach A clock s t → Held t
  Reach-Held h here = h
  Reach-Held h (next r st) = Step-Held st (Reach-Held h r)

  Reach-IsValid_from : {s t : System} → IsValid s.breaker → Reach A clock s t → IsValid t.breaker
  Reach-IsValid_from h here = h
  Reach-IsValid_from h (next r st) = Step-IsValid st (Reach-IsValid_from h r)

  Reach-IsPath_from :
      {s t : System}
      → IsPath s.breaker.log s.breaker.state
      → Reach A clock s t
      → IsPath t.breaker.log t.breaker.state
  Reach-IsPath_from h here = h
  Reach-IsPath_from h (next r st) = Step-IsPath st (Reach-IsPath_from h r)

  -- However the tasks interleave, two of them are never behind the probe lock together: at most
  -- one runs a probe.
  pub one_probe :
      (n w t : ℕ) (s : System)
      → Reach A clock (initial clock n w t) s
      → (i j : ℕ) → HasLock (s.phase i)
      → HasLock (s.phase j)
      → i ≡ j
  one_probe n w t s r i j li lj =
      let held = Reach-Held (λ k lock. ground arith) r in ground (arith, held i li, held j lj)

  -- However the tasks interleave, the breaker keeps its invariant: the gauge shows the state, a
  -- closed breaker has fewer failures than the threshold and no opening date, and any other has one.
  pub Reach-IsValid :
      (n w t : ℕ) (s : System) → 0 < n → Reach A clock (initial clock n w t) s → IsValid s.breaker
  Reach-IsValid n w t s h r = Reach-IsValid_from (new-IsValid clock n w t 0 h) r

  -- However the tasks interleave, the logged transitions are a path of the diagram from CLOSED to
  -- the present state.
  pub Reach-IsPath :
      (n w t : ℕ) (s : System)
      → Reach A clock (initial clock n w t) s
      → IsPath s.breaker.log s.breaker.state
  Reach-IsPath n w t s r = Reach-IsPath_from (new-IsPath clock n w t 0) r

  -- A task that waits for the probe lock is not rejected while another task has the lock: whatever
  -- step is taken, it still waits.
  pub waiting_stays :
      (s t : System) (i j : ℕ)
      → s.phase i ≡ waiting
      → s.holder ≡ some j
      → Step A clock s t
      → t.phase i ≡ waiting
  waiting_stays s t i j w h (begin k p e) = ground arith
  waiting_stays s t i j w h (acquire k p free e) = ground arith
  waiting_stays s t i j w h (end_run k r p e) = ground arith
  waiting_stays s t i j w h (end_hold k r p e) = ground arith
  waiting_stays s t i j w h (end_try k r p e) = ground arith
  waiting_stays s t i j w h (read_clock k e) = ground arith
