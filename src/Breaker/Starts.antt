-- ===== src/Breaker/Starts.antt =====
-- pipeline/circuit_breaker.py: the calls that the steps of the tasks start and end.
use inference_forge.Base.{ℕ, ◌+◌, ◌≤◌, ◌≡◌, refl}
use inference_forge.Errors.{
  Error, circuit_breaker_open, http_status, json_decode, value_error, other_exception, cancelled,
  raise,
}
use inference_forge.Breaker.{Breaker, entry_of, maybe_transition, on_failure}
use inference_forge.Breaker.Call.{settle}
use inference_forge.Breaker.Probe.{CountsAsFailure}
use inference_forge.Breaker.Tasks.{
  Phase, trying, holding, running, phase_of, behind_lock, System, Step, begin, acquire, end_run,
  end_hold, end_try, Reach, here, next,
}

abbrev pub in_call : Phase → ℕ
in_call running = 1
in_call holding = 1
in_call trying = 1
in_call _ = 0

module _ (A : Type 0) (clock : ℕ → ℕ) where
  -- The calls that a step starts, and that it ends.
  abbrev pub starts_in : {s t : System} → Step A clock s t → ℕ
  starts_in {s} (begin i p e) =
      in_call (phase_of (entry_of (maybe_transition clock s.breaker).state))
  starts_in {s} (acquire i p free e) = in_call (behind_lock s.breaker.state)
  starts_in _ = 0

  abbrev pub ends_in : {s t : System} → Step A clock s t → ℕ
  ends_in (end_run i r p e) = 1
  ends_in (end_hold i r p e) = 1
  ends_in (end_try i r p e) = 1
  ends_in _ = 0

  abbrev pub starts : {s t : System} → Reach A clock s t → ℕ
  starts here = 0
  starts (next r st) = starts r + starts_in st

  abbrev pub ends : {s t : System} → Reach A clock s t → ℕ
  ends here = 0
  ends (next r st) = ends r + ends_in st

  -- At no time do more than `c` calls run.
  abbrev pub AtMost : ℕ → {s t : System} → Reach A clock s t → Type 0
  AtMost c here = Unit
  AtMost c (next r st) = AtMost c r × (starts (next r st) ≤ ends (next r st) + c)

  -- A call that ends, ends with an exception that the breaker counts.
  abbrev pub Fails : {s t : System} → Step A clock s t → Type 0
  Fails (end_run i r p e) = (x : Error) × (r ≡ raise x) × CountsAsFailure x
  Fails (end_hold i r p e) = (x : Error) × (r ≡ raise x) × CountsAsFailure x
  Fails (end_try i r p e) = (x : Error) × (r ≡ raise x) × CountsAsFailure x
  Fails _ = Unit

  abbrev pub AllFail : {s t : System} → Reach A clock s t → Type 0
  AllFail here = Unit
  AllFail (next r st) = AllFail r × Fails st

  pub settle-fails :
      (x : Error) (b : Breaker)
      → CountsAsFailure x
      → settle {A = A} clock (raise x) b ≡ on_failure clock b
  unfolding settle
  settle-fails circuit_breaker_open b h = absurd (h.0 refl)
  settle-fails cancelled b h = absurd (h.1 refl)
  settle-fails (http_status _ _) b h = refl
  settle-fails json_decode b h = refl
  settle-fails value_error b h = refl
  settle-fails (other_exception _) b h = refl
