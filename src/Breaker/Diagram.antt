-- ===== src/Breaker/Diagram.antt =====
-- pipeline/circuit_breaker.py: the logged transitions follow the diagram of the module's first line.
use inference_forge.Base.{ℕ, ◌≡◌, Bool, true, false, List, [], ◌∷◌, arith}
use inference_forge.Errors.{Result}
use inference_forge.Breaker.{
  CbState, closed, opened, half_open, Transition, Breaker, new, maybe_transition, on_success,
  on_failure,
}
use inference_forge.Breaker.Call.{settle, settle_probe}

-- CLOSED → OPEN → HALF_OPEN → CLOSED, and back from HALF_OPEN to OPEN.
abbrev pub is_edge : CbState → CbState → Bool
is_edge closed opened = true
is_edge opened half_open = true
is_edge half_open closed = true
is_edge half_open opened = true
is_edge _ _ = false

-- The log, newest first, is a path from CLOSED to the state.
abbrev pub IsPath : List Transition → CbState → Type 0
IsPath [] s = s ≡ closed
IsPath (t ∷ ts) s =
    (t.to_state ≡ s) × (is_edge t.from_state t.to_state ≡ true) × IsPath ts t.from_state

module _ (clock : ℕ → ℕ) where
  pub new-IsPath : (n w t r : ℕ) → IsPath (new clock n w t r).log (new clock n w t r).state
  unfolding new
  new-IsPath n w t r = ground arith

  abbrev pub KeepsPath : (Breaker → Breaker) → Type 0
  KeepsPath f = (b : Breaker) → IsPath b.log b.state → IsPath (f b).log (f b).state

  pub maybe_transition-IsPath : KeepsPath (maybe_transition clock)
  unfolding maybe_transition
  maybe_transition-IsPath b h = ground arith

  pub on_success-IsPath : KeepsPath (on_success clock)
  unfolding on_success
  on_success-IsPath b h = ground arith

  pub on_failure-IsPath : KeepsPath (on_failure clock)
  unfolding on_failure
  on_failure-IsPath b h = ground arith

module _ {ℓ} {A : Type ℓ} (clock : ℕ → ℕ) where
  pub settle-IsPath : (r : Result A) → KeepsPath clock (settle clock r)
  unfolding settle
  settle-IsPath r b h = ground (arith, on_success-IsPath clock b h, on_failure-IsPath clock b h)

  pub settle_probe-IsPath : (r : Result A) → KeepsPath clock (settle_probe clock r)
  unfolding settle_probe
  settle_probe-IsPath r b h =
      ground (arith, on_success-IsPath clock b h, on_failure-IsPath clock b h)
