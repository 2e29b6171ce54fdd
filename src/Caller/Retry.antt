-- ===== src/Caller/Retry.antt =====
-- pipeline/caller.py: _call_with_retry, over the breaker of Breaker and any API.
--
-- `api` is _single_api_call with its attempt number, given the breaker as it is when the call
-- starts; `sleep` gives the breaker as it is after a sleep, since other tasks run meanwhile. The
-- run keeps the number of attempts and the sleeps, oldest first. `uniform i` is the draw of
-- random.random() at attempt `i`, from 0 to 1, as a fraction; `to_float` is float() of a header,
-- none where it raises ValueError, a negative number read as 0 since both sleep no time.
use Prim.Native.String.{String}
use inference_forge.Base.{
  ℕ, zero, suc, ◌-◌, ◌^◌, Bool, true, false, Option, none, some, List, [], ◌∷◌, ◌++◌, ltb, ◌==◌,
  ◌&&◌, if◌then◌else◌,
}
use inference_forge.Base.Fraction.{Fraction, whole, ◌+ℚ◌, ◌*ℚ◌}
use inference_forge.Errors.{
  Error, circuit_breaker_open, http_status, json_decode, value_error, other_exception, cancelled,
  Result, ok, raise,
}
use inference_forge.Text.{Text, codes}
use inference_forge.Text.Decimal.{decimal}
use inference_forge.Json.{Json, null, natural, text, object, Fields, done, field, put}
use inference_forge.Breaker.{Breaker}
use inference_forge.Breaker.Call.{call}

pub record Settings : Type 0 where
  pub max_retries : ℕ
  pub retry_backoff_base : Fraction
  pub cb_enabled : Bool

-- The environment of a run.
pub record World : Type 0 where
  pub settings : Settings
  pub clock : ℕ → ℕ
  pub wait : Breaker → Breaker
  pub api : ℕ → Breaker → Result (Json × Json) × Breaker
  pub sleep : Fraction → Breaker → Breaker
  pub uniform : ℕ → Fraction
  pub to_float : String → Option Fraction

abbrev pub member : ℕ → List ℕ → Bool
member x [] = false
member x (y ∷ ys) = if x == y then true else member x ys

abbrev pub fatal_status_codes : List ℕ
fatal_status_codes = 400 ∷ 401 ∷ 403 ∷ 422 ∷ []

abbrev pub retryable_status_codes : List ℕ
retryable_status_codes = 429 ∷ 500 ∷ 503 ∷ []

-- What the body of the loop decides.
pub data Next : Type 0 where
  finish : Fields → Next
  fail_with : Text → Next
  again : Option Fraction → Next
  escape : Error → Next

pub record Run : Type 0 where
  pub result : Result Fields
  pub attempts : ℕ
  pub sleeps : List Fraction
  pub breaker : Breaker

abbrev pub failure_result : Text → Text → Fields
failure_result ticket error = field (codes "category") null (
    field (codes "priority") null (
      field (codes "summary") null (
        field (codes "error") (text error)
          (field (codes "ticket") (text ticket) (field (codes "tokens") (natural 0) done)))))

-- 1 + random.uniform(-0.2, 0.2), which is -0.2 + 0.4 * random.random().
abbrev pub jitter_factor : Fraction → Fraction
jitter_factor u = record { num = 4; den = 5 } +ℚ record { num = 2; den = 5 } *ℚ u

module _ (w : World) where
  unfoldable pub backoff_for_attempt : ℕ → Fraction
  backoff_for_attempt attempt = w.settings.retry_backoff_base *ℚ whole (2 ^ (attempt - 1))

  unfoldable pub jittered : ℕ → Fraction → Fraction
  jittered attempt base = base *ℚ jitter_factor (w.uniform attempt)

  abbrev pub backoff : ℕ → Fraction
  backoff attempt = jittered attempt (backoff_for_attempt attempt)

  abbrev pub retries_left : ℕ → Bool
  retries_left attempt = ltb attempt w.settings.max_retries

  -- if attempt < settings.max_retries: sleep
  abbrev pub pause : ℕ → Next
  pause attempt = if retries_left attempt then again (some (backoff attempt)) else again none

  -- float(retry_after) if retry_after else the backoff
  abbrev pub rate_limited : ℕ → Option String → Next
  rate_limited attempt none = again (some (backoff attempt))
  rate_limited attempt (some String.[]) = again (some (backoff attempt))
  rate_limited attempt (some (String.◌∷◌ c s)) = elim (w.to_float (String.◌∷◌ c s)) [
    | none ↦ escape value_error
    | some seconds ↦ again (some seconds)
  ]

  -- A retryable status, or the final attempt or a status that is neither.
  unfoldable pub server_error : ℕ → ℕ → Next
  server_error attempt status_code =
      if member status_code retryable_status_codes && retries_left attempt
      then again (some (backoff attempt))
      else again none

  unfoldable pub on_status : ℕ → ℕ → Option String → Next
  on_status attempt status_code retry_after =
      if member status_code fatal_status_codes
      then fail_with (codes "http_" ++ decimal status_code)
      else if status_code == 429 && retries_left attempt
      then rate_limited attempt retry_after
      else server_error attempt status_code

  -- The handlers in their order. Of a result that is no dict, {**result} is a TypeError.
  unfoldable pub handle : ℕ → Result (Json × Json) → Next
  handle attempt (ok (object result, tokens)) = finish (put (codes "tokens") tokens result)
  handle attempt (ok (_, tokens)) = pause attempt
  handle attempt (raise circuit_breaker_open) = fail_with (codes "circuit_breaker_open")
  handle attempt (raise (http_status code after)) = on_status attempt code after
  handle attempt (raise json_decode) = pause attempt
  handle attempt (raise value_error) = pause attempt
  handle attempt (raise (other_exception _)) = pause attempt
  handle attempt (raise cancelled) = escape cancelled

  -- One attempt, through the breaker if it is enabled.
  unfoldable pub try_once : ℕ → Breaker → Result (Json × Json) × Breaker
  try_once attempt b =
      if w.settings.cb_enabled then call w.clock w.wait (w.api attempt) b else w.api attempt b

  abbrev pub slept : Option Fraction → Breaker → Breaker
  slept none b = b
  slept (some d) b = w.sleep d b

  abbrev pub noted : Option Fraction → Run → Run
  noted none r = record r { attempts = suc r.attempts }
  noted (some d) r = record r { attempts = suc r.attempts; sleeps = d ∷ r.sleeps }

  abbrev pub ended : Result Fields → Breaker → Run
  ended result b = record { result = result; attempts = 1; sleeps = []; breaker = b }

  -- return, raise, or the sleep and the attempts that are left.
  abbrev pub proceed : Text → Breaker → Next → (Breaker → Run) → Run
  proceed ticket b (finish d) rest = ended (ok d) b
  proceed ticket b (fail_with error) rest = ended (ok (failure_result ticket error)) b
  proceed ticket b (escape e) rest = ended (raise e) b
  proceed ticket b (again d) rest = noted d (rest (slept d b))

  -- for attempt in range(attempt, attempt + left)
  unfoldable pub loop : Text → ℕ → ℕ → Breaker → Run
  loop ticket zero attempt b = record {
    result = ok (failure_result ticket (codes "max_retries_exceeded"));
    attempts = 0;
    sleeps = [];
    breaker = b;
  }
  loop ticket (suc left) attempt b =
      let (r, b') = try_once attempt b in
      proceed ticket b' (handle attempt r) (loop ticket left (suc attempt))

  unfoldable pub call_with_retry : Text → Breaker → Run
  call_with_retry ticket b = loop ticket w.settings.max_retries 1 b
