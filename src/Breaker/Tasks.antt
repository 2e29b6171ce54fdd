-- ===== src/Breaker/Tasks.antt =====
-- pipeline/circuit_breaker.py: many tasks that call one breaker, as the event loop runs them.
--
-- A task is suspended only where the source awaits something that is not ready: before it starts,
-- at the probe lock, and in the coroutine. Each step is what one task does between two of these.
use inference_forge.Base.{ℕ, ◌+◌, ◌≡◌, Option, none, some}
use inference_forge.Base.Tasks.{update}
use inference_forge.Errors.{Result}
use inference_forge.Breaker.{
  CbState, closed, opened, half_open, Breaker, Entry, rejected, probing, normal, entry_of, new,
  maybe_transition,
}
use inference_forge.Breaker.Call.{settle, settle_probe}

-- `waiting` is at the lock, `trying` runs the probe and `holding` runs a normal call with the lock
-- held, `running` runs one without it.
pub data Phase : Type 0 where
  idle waiting trying holding running finished : Phase

pub record System : Type 0 where
  pub breaker : Breaker
  pub phase : ℕ → Phase
  pub holder : Option ℕ

-- Where a call goes from its entry.
abbrev pub phase_of : Entry → Phase
phase_of rejected = finished
phase_of probing = waiting
phase_of normal = running

-- Where a call goes from the lock, and whether it keeps the lock.
abbrev pub behind_lock : CbState → Phase
behind_lock half_open = trying
behind_lock closed = holding
behind_lock opened = finished

abbrev pub holder_of : CbState → ℕ → Option ℕ
holder_of opened i = none
holder_of half_open i = some i
holder_of closed i = some i

abbrev pub begun : (ℕ → ℕ) → ℕ → System → System
begun clock i s =
    let b = maybe_transition clock s.breaker in
    record s { breaker = b; phase = update s.phase i (phase_of (entry_of b.state)) }

abbrev pub acquired : ℕ → System → System
acquired i s = record s {
  phase = update s.phase i (behind_lock s.breaker.state);
  holder = holder_of s.breaker.state i;
}

abbrev pub ended : ℕ → Breaker → System → System
ended i b s = record s { breaker = b; phase = update s.phase i finished }

abbrev pub released : ℕ → Breaker → System → System
released i b s = record s { breaker = b; phase = update s.phase i finished; holder = none }

module _ (A : Type 0) (clock : ℕ → ℕ) where
  pub data Step (s : System) (t : System) : Type 0 where
    begin : (i : ℕ) → s.phase i ≡ idle → t ≡ begun clock i s → Step s t
    acquire : (i : ℕ) → s.phase i ≡ waiting → s.holder ≡ none → t ≡ acquired i s → Step s t
    end_run :
        (i : ℕ) (r : Result A)
        → s.phase i ≡ running
        → t ≡ ended i (settle clock r s.breaker) s
        → Step s t
    end_hold :
        (i : ℕ) (r : Result A)
        → s.phase i ≡ holding
        → t ≡ released i (settle clock r s.breaker) s
        → Step s t
    end_try :
        (i : ℕ) (r : Result A)
        → s.phase i ≡ trying
        → t ≡ released i (settle_probe clock r (settle clock r s.breaker)) s
        → Step s t
    read_clock :
        (k : ℕ)
        → t ≡ record s { breaker = record s.breaker { reads = s.breaker.reads + k } }
        → Step s t

  pub data Reach (s : System) : System → Type 0 where
    here : Reach s s
    next : {t u : System} → Reach s t → Step t u → Reach s u

-- No task has begun, and the breaker is new.
abbrev pub initial : (ℕ → ℕ) → ℕ → ℕ → ℕ → System
initial clock n w t = record { breaker = new clock n w t 0; phase = λ _. idle; holder = none }
