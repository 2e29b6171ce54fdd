-- ===== src/Caller/Metered.antt =====
-- pipeline/caller.py: what a run of the retry loop adds to the running totals of metrics.py.
--
-- `latency` is the elapsed time of an attempt in milliseconds. Tokens that are no natural number
-- are left out of the total. The mock mode, which records nothing, is left out.
use Prim.Native.String.{String}
use inference_forge.Base.{
  ℕ, zero, suc, ◌+◌, ◌≤◌, ◌≡◌, ◌⊎◌, inl, inr, refl, Bool, true, false, Option, none, some, ◌==◌,
  ◌&&◌, if◌then◌else◌, arith,
}
use inference_forge.Base.Fraction.{Fraction}
use inference_forge.Errors.{
  Error, circuit_breaker_open, http_status, json_decode, value_error, other_exception, cancelled,
  Result, ok, raise,
}
use inference_forge.Text.{Text, codes}
use inference_forge.Json.{Json, natural, object, Fields, get-put}
use inference_forge.Breaker.{Breaker}
use inference_forge.Metrics.{Metrics, record_latency, record_api_call}
use inference_forge.Jobs.Process.{tokens_of}
use inference_forge.Caller.Retry.{
  World, Next, pause, retries_left, rate_limited, server_error, member, fatal_status_codes,
  retryable_status_codes, finish, fail_with, again, escape, Run, handle, on_status, try_once, slept,
  proceed, loop, call_with_retry,
}

abbrev pub token_count : Json → ℕ
token_count (natural n) = n
token_count _ = 0

module _ (w : World) (latency : ℕ → Fraction) where
  -- record_latency and record_api_call behind an answer, and record_api_call in the handler of a
  -- status. Other exceptions are not counted.
  abbrev pub recorded : ℕ → Result (Json × Json) → Metrics → Metrics
  recorded attempt (ok (_, tokens)) m =
      record_api_call (token_count tokens) (record_latency (latency attempt) m)
  recorded attempt (raise (http_status _ _)) m = record_api_call 0 m
  recorded attempt (raise _) m = m

  abbrev pub if_again : Next → Breaker → Metrics → (Breaker → Metrics → Metrics) → Metrics
  if_again (again d) b m rest = rest (slept w d b) m
  if_again _ b m rest = m

  unfoldable pub metered : ℕ → ℕ → Breaker → Metrics → Metrics
  metered zero attempt b m = m
  metered (suc left) attempt b m =
      let (r, b') = try_once w attempt b in
      if_again (handle w attempt r) b' (recorded attempt r m) (metered left (suc attempt))

  -- An answer with a dict and a natural number of tokens, or an exception.
  abbrev pub IsOutcome : Result (Json × Json) → Type 0
  IsOutcome r =
      ((d : Fields) × (n : ℕ) × (r ≡ ok (object d, natural n))) ⊎ ((e : Error) × (r ≡ raise e))

  abbrev pub result_tokens : Result Fields → ℕ
  result_tokens (ok d) = token_count (tokens_of d)
  result_tokens (raise e) = 0

  -- A run from the totals `m` to `m'`.
  abbrev pub Counted : Run → Metrics → Metrics → Type 0
  Counted run m m' =
      (m'.total_tokens ≡ m.total_tokens + result_tokens run.result)
      × (m'.total_api_calls ≤ m.total_api_calls + run.attempts)

  abbrev Unfinished : Next → Type 0
  Unfinished (finish d) = ⊥
  Unfinished _ = Unit

  either : (b : Bool) (x y : Next) → Unfinished x → Unfinished y → Unfinished (if b then x else y)
  either true x y hx hy = hx
  either false x y hx hy = hy

  pause-Unfinished : (attempt : ℕ) → Unfinished (pause w attempt)
  pause-Unfinished attempt = either (retries_left w attempt) _ _ tt tt

  float-Unfinished :
      (o : Option Fraction)
      → Unfinished (elim o [ none ↦ escape value_error | some seconds ↦ again (some seconds) ])
  float-Unfinished none = tt
  float-Unfinished (some seconds) = tt

  rate_limited-Unfinished :
      (attempt : ℕ) (after : Option String) → Unfinished (rate_limited w attempt after)
  rate_limited-Unfinished attempt none = tt
  rate_limited-Unfinished attempt (some String.[]) = tt
  rate_limited-Unfinished attempt (some (String.◌∷◌ c s)) =
      float-Unfinished (w.to_float (String.◌∷◌ c s))

  on_status-Unfinished :
      (attempt code : ℕ) (after : Option String) → Unfinished (on_status w attempt code after)
  unfolding on_status server_error
  on_status-Unfinished attempt code after = either (member code fatal_status_codes) _ _ tt (
      either (code == 429 && retries_left w attempt) _ _ (rate_limited-Unfinished attempt after)
        (either (member code retryable_status_codes && retries_left w attempt) _ _ tt tt))

  raise-Unfinished : (attempt : ℕ) (e : Error) → Unfinished (handle w attempt (raise e))
  unfolding handle
  raise-Unfinished attempt circuit_breaker_open = tt
  raise-Unfinished attempt (http_status code after) = on_status-Unfinished attempt code after
  raise-Unfinished attempt json_decode = pause-Unfinished attempt
  raise-Unfinished attempt value_error = pause-Unfinished attempt
  raise-Unfinished attempt (other_exception name) = pause-Unfinished attempt
  raise-Unfinished attempt cancelled = tt

  -- An exception counts no tokens, and at most one call.
  raise-recorded :
      (attempt : ℕ) (e : Error) (m : Metrics)
      → ((recorded attempt (raise e) m).total_tokens ≡ m.total_tokens)
        × ((recorded attempt (raise e) m).total_api_calls ≤ suc m.total_api_calls)
  unfolding record_api_call
  raise-recorded attempt (http_status code after) m = (omega arith, omega arith)
  raise-recorded attempt circuit_breaker_open m = (refl, omega arith)
  raise-recorded attempt json_decode m = (refl, omega arith)
  raise-recorded attempt value_error m = (refl, omega arith)
  raise-recorded attempt (other_exception name) m = (refl, omega arith)
  raise-recorded attempt cancelled m = (refl, omega arith)

  goes_on :
      (ticket : Text) (next : Next) (b : Breaker) (m m1 : Metrics) (run : Breaker → Run)
      (rest : Breaker → Metrics → Metrics)
      → Unfinished next
      → (m1.total_tokens ≡ m.total_tokens) × (m1.total_api_calls ≤ suc m.total_api_calls)
      → ((b' : Breaker) (m' : Metrics) → Counted (run b') m' (rest b' m'))
      → Counted (proceed w ticket b next run) m (if_again next b m1 rest)
  goes_on ticket (finish d) b m m1 run rest h c f = absurd h
  goes_on ticket (fail_with error) b m m1 run rest h c f = (omega (arith, c), omega (arith, c))
  goes_on ticket (escape e) b m m1 run rest h c f = (omega (arith, c), omega (arith, c))
  goes_on ticket (again none) b m m1 run rest h c f =
      let g = f b m1 in (omega (arith, c, g), omega (arith, c, g))
  goes_on ticket (again (some d)) b m m1 run rest h c f =
      let g = f (w.sleep d b) m1 in (omega (arith, c, g), omega (arith, c, g))

  answered :
      (ticket : Text) (attempt : ℕ) (d : Fields) (n : ℕ) (b : Breaker) (m : Metrics)
      (run : Breaker → Run) (rest : Breaker → Metrics → Metrics)
      → let next = handle w attempt (ok (object d, natural n)) in
        Counted
          (proceed w ticket b next run)
          m
          (if_again next b (recorded attempt (ok (object d, natural n)) m) rest)
  unfolding handle record_api_call record_latency
  answered ticket attempt d n b m run rest =
      (rw (get-put (codes "tokens") (natural n) d) refl, omega arith)

  step :
      (ticket : Text) (attempt : ℕ) (r : Result (Json × Json)) (b : Breaker) (m : Metrics)
      (run : Breaker → Run) (rest : Breaker → Metrics → Metrics)
      → IsOutcome r
      → ((b' : Breaker) (m' : Metrics) → Counted (run b') m' (rest b' m'))
      → Counted
          (proceed w ticket b (handle w attempt r) run)
          m
          (if_again (handle w attempt r) b (recorded attempt r m) rest)
  step ticket attempt r b m run rest (inl (d, n, e)) f =
      rw e (answered ticket attempt d n b m run rest)
  step ticket attempt r b m run rest (inr (err, e)) f = rw e (
      goes_on ticket _ b m _ run rest (raise-Unfinished attempt err) (raise-recorded attempt err m)
        f)

  loop-Counted :
      (ticket : Text) (left attempt : ℕ) (b : Breaker) (m : Metrics)
      → ((i : ℕ) (b' : Breaker) → IsOutcome (try_once w i b').0)
      → Counted (loop w ticket left attempt b) m (metered left attempt b m)
  unfolding loop metered
  loop-Counted ticket zero attempt b m h = (omega arith, omega arith)
  loop-Counted ticket (suc left) attempt b m h =
      let (r, b') = try_once w attempt b in
      step ticket attempt r b' m _ _ (h attempt b)
        (λ b1 m1. loop-Counted ticket left (suc attempt) b1 m1 h)

  -- If each answer of the API is a dict with a natural number of tokens, the running total of tokens
  -- grows by those of the ticket's result, none for a failure or an exception, and the number of
  -- calls by no more than the attempts.
  pub call_with_retry-Counted :
      (ticket : Text) (b : Breaker) (m : Metrics)
      → ((i : ℕ) (b' : Breaker) → IsOutcome (try_once w i b').0)
      → Counted (call_with_retry w ticket b) m (metered w.settings.max_retries 1 b m)
  unfolding call_with_retry
  call_with_retry-Counted ticket b m h = loop-Counted ticket w.settings.max_retries 1 b m h
