-- ===== src/Caller/Verdicts.antt =====
-- pipeline/caller.py: which outcomes of an attempt _call_with_retry retries, and which decide.
use Prim.Native.Char.{Char}
use Prim.Native.String.{String}
use inference_forge.Base.{ℕ, ◌<◌, ◌≡◌, ◌≢◌, true, false, Option, none, some, ◌++◌, ltb}
use inference_forge.Base.Fraction.{Fraction}
use inference_forge.Errors.{
  circuit_breaker_open, http_status, json_decode, value_error, other_exception, cancelled, Result,
  ok, raise,
}
use inference_forge.Text.{Text, codes}
use inference_forge.Text.Decimal.{decimal}
use inference_forge.Json.{Json, object, Fields, put}
use inference_forge.Caller.Retry.{World, failure_result, member, fatal_status_codes}

-- What the loop does not retry at this attempt, and what it then gives for the ticket.
pub data Decides (w : World) (ticket : Text) (attempt : ℕ)
    : Result (Json × Json) → Result Fields → Type 0 where
  classified :
      (d : Fields) (tokens : Json)
      → Decides w ticket attempt (ok (object d, tokens)) (ok (put (codes "tokens") tokens d))
  rejected :
      Decides w ticket attempt
        (raise circuit_breaker_open)
        (ok (failure_result ticket (codes "circuit_breaker_open")))
  refused :
      (status : ℕ) (after : Option String)
      → member status fatal_status_codes ≡ true
      → Decides w ticket attempt
          (raise (http_status status after))
          (ok (failure_result ticket (codes "http_" ++ decimal status)))
  unreadable :
      (c : Char) (s : String)
      → attempt < w.settings.max_retries
      → w.to_float (String.◌∷◌ c s) ≡ none
      → Decides w ticket attempt
          (raise (http_status 429 (some (String.◌∷◌ c s))))
          (raise value_error)
  stopped : Decides w ticket attempt (raise cancelled) (raise cancelled)

-- What it retries. Every other status is retried.
pub data Transient (w : World) (attempt : ℕ) : Result (Json × Json) → Type 0 where
  no_dict : (r tokens : Json) → ((d : Fields) → r ≢ object d) → Transient w attempt (ok (r, tokens))
  malformed : Transient w attempt (raise json_decode)
  no_value : Transient w attempt (raise value_error)
  failed : (name : String) → Transient w attempt (raise (other_exception name))
  status :
      (status : ℕ) (after : Option String)
      → member status fatal_status_codes ≡ false
      → status ≢ 429
      → Transient w attempt (raise (http_status status after))
  limited : Transient w attempt (raise (http_status 429 none))
  limited_blank : Transient w attempt (raise (http_status 429 (some String.[])))
  limited_for :
      (header : String) (seconds : Fraction)
      → w.to_float header ≡ some seconds
      → Transient w attempt (raise (http_status 429 (some header)))
  limited_last :
      (after : Option String)
      → ltb attempt w.settings.max_retries ≡ false
      → Transient w attempt (raise (http_status 429 after))
