-- ===== src/Errors.antt =====
-- The exceptions that the pipeline raises and handles, and what a coroutine ends with.
-- pipeline/circuit_breaker.py (CircuitBreakerOpenError), and the classes that the handlers of
-- pipeline/caller.py tell apart. `cancelled` is asyncio's CancelledError: a BaseException that
-- `except Exception` lets through.
use Prim.Native.String.{String}
use inference_forge.Base.{ℕ, Option}

pub data Error : Type 0 where
  circuit_breaker_open : Error
  http_status : (status_code : ℕ) (retry_after : Option String) → Error
  json_decode : Error
  value_error : Error
  other_exception : String → Error
  cancelled : Error

pub data Result {ℓ} (A : Type ℓ) : Type ℓ where
  ok : A → Result A
  raise : Error → Result A
