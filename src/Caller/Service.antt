-- ===== src/Caller/Service.antt =====
-- pipeline/caller.py: the class SarvamCaller, over the cache of Cache and the retry loop of Retry.
--
-- `meanwhile` gives the cache as it is when the API call is over: other tasks use it during the
-- call. The semaphore only delays the call. Each task of a batch has an outcome of its own, and
-- asyncio.gather gives them in the order of the tasks, however they interleave; `describe` is the
-- text f"{type(item).__name__}: {item}".
use inference_forge.Base.{ℕ, zero, suc, Bool, true, false, Option, none, some, List, [], ◌∷◌}
use inference_forge.Errors.{Error, other_exception, Result, ok, raise}
use inference_forge.Text.{Text, codes}
use inference_forge.Json.{Json, null, boolean, object, Fields, put, without}
use inference_forge.Json
use inference_forge.Breaker.{Breaker}
use inference_forge.Cache.{Redis, Library, Cache, set}
use inference_forge.Cache
use inference_forge.Caller.Retry.{World, Run, failure_result, call_with_retry}

-- result.get("error") is None
abbrev pub no_error : Option Json → Bool
no_error none = true
no_error (some null) = true
no_error (some _) = false

abbrev pub with_cache_hit : Bool → Fields → Fields
with_cache_hit hit d = put (codes "cache_hit") (boolean hit) d

-- Of a cached value that is no dict, {**cached} is a TypeError.
abbrev pub from_cache : Json → Result Fields
from_cache (object d) = ok (with_cache_hit true d)
from_cache _ = raise (other_exception "TypeError")

abbrev pub stored : Fields → Result (Unit {0}) → Result Fields
stored d (ok _) = ok (with_cache_hit false d)
stored d (raise e) = raise e

module _ {ℓ} {S : Type ℓ} (redis : Redis S) (lib : Library) (w : World)
    (meanwhile : Cache S → Cache S) where
  -- A ticket's outcome, the cache behind it and the run of the retry loop, if there was one.
  pub record Processed : Type ℓ where
    pub outcome : Result Fields
    pub cache : Cache S
    pub api_run : Option Run

  abbrev pub keep_result : Bool → Text → Fields → Run → Cache S → Processed
  keep_result true ticket d run c =
      let (r, c') = set redis lib ticket (without (codes "cache_hit") d) c in
      record { outcome = stored d r; cache = c'; api_run = some run }
  keep_result false ticket d run c = record {
    outcome = ok (with_cache_hit false d);
    cache = c;
    api_run = some run;
  }

  abbrev pub after_call : Text → Result Fields → Run → Cache S → Processed
  after_call ticket (ok d) run c =
      keep_result (no_error (Json.get (codes "error") d)) ticket d run c
  after_call ticket (raise e) run c = record { outcome = raise e; cache = c; api_run = some run }

  abbrev pub after_get : Text → Breaker → Result (Option Json) × Cache S → Processed
  after_get ticket b (raise e, c) = record { outcome = raise e; cache = c; api_run = none }
  after_get ticket b (ok (some cached), c) = record {
    outcome = from_cache cached;
    cache = c;
    api_run = none;
  }
  after_get ticket b (ok none, c) =
      let run = call_with_retry w ticket b in after_call ticket run.result run (meanwhile c)

  unfoldable pub process_ticket : Text → Cache S → Breaker → Processed
  process_ticket ticket c b = after_get ticket b (Cache.get redis lib ticket c)

-- text[:500]
abbrev pub take {ℓ} : {A : Type ℓ} → ℕ → List A → List A
take zero t = []
take (suc n) [] = []
take (suc n) (c ∷ cs) = c ∷ take n cs

-- The outcomes of the tasks from number `i` on.
abbrev pub gather : (ℕ → Text → Result Fields) → ℕ → List Text → List (Result Fields)
gather task i [] = []
gather task i (t ∷ ts) = task i t ∷ gather task (suc i) ts

module _ (describe : Error → Text) where
  abbrev pub isolated : Text → Result Fields → Fields
  isolated ticket (ok item) = item
  isolated ticket (raise e) = failure_result ticket (take 500 (describe e))

  -- zip(tickets, raw, strict=True): gather gives one outcome for each ticket.
  unfoldable pub zip_results : List Text → List (Result Fields) → List Fields
  zip_results [] _ = []
  zip_results (_ ∷ _) [] = []
  zip_results (t ∷ ts) (r ∷ rs) = isolated t r ∷ zip_results ts rs

  unfoldable pub process_batch : (ℕ → Text → Result Fields) → List Text → List Fields
  unfolding zip_results
  process_batch task tickets = zip_results tickets (gather task 0 tickets)
