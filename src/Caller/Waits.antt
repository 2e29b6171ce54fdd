-- ===== src/Caller/Waits.antt =====
-- pipeline/caller.py: how often and how long _call_with_retry sleeps, and what escapes it.
use inference_forge.Base.{ℕ, zero, suc, ◌-◌, ◌≤◌, ◌≡◌, ◌⊎◌, length, List, [], ◌∷◌}
use inference_forge.Base.Fraction.{Fraction}
use inference_forge.Errors.{Error, value_error, cancelled, Result, raise}
use inference_forge.Text.{Text}
use inference_forge.Json.{Json}
use inference_forge.Breaker.{Breaker}
use inference_forge.Caller.Pauses.{Unslept, Pause}
use inference_forge.Caller.Retry.{World, Next, again, Run, handle, try_once, slept}

module _ (w : World) where
  -- The attempts of a run with their outcomes.
  abbrev more :
      Next → Breaker → (Breaker → List (ℕ × Result (Json × Json))) → List (ℕ × Result (Json × Json))
  more (again d) b rest = rest (slept w d b)
  more _ b rest = []

  unfoldable pub tried : ℕ → ℕ → Breaker → List (ℕ × Result (Json × Json))
  tried zero attempt b = []
  tried (suc left) attempt b =
      let (r, b') = try_once w attempt b in
      (attempt, r) ∷ more (handle w attempt r) b' (tried left (suc attempt))

  -- The sleeps in their order, each behind an attempt of its own.
  abbrev pub Follows : List (ℕ × Result (Json × Json)) → List Fraction → Type 0
  Follows [] ds = ds ≡ []
  Follows ((attempt, r) ∷ tried_later) ds =
      (Unslept w attempt r × Follows tried_later ds)
      ⊎ (d : Fraction) × (later : List Fraction) × (ds ≡ d ∷ later)
        × Pause w attempt r d
        × Follows tried_later later

module _ (w : World) (draws : (i : ℕ) → (w.uniform i).num ≤ (w.uniform i).den) where
  record Bounded (left : ℕ) (run : Run) (attempts : List (ℕ × Result (Json × Json))) : Type 0 where
    few : run.attempts ≤ left
    each : run.attempts ≡ length attempts
    fewer_sleeps : length run.sleeps ≤ left - 1
    waits : Follows w attempts run.sleeps
    escapes : (e : Error) → run.result ≡ raise e → (e ≡ cancelled) ⊎ (e ≡ value_error)
