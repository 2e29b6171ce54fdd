-- ===== src/Caller/Handling.antt =====
-- pipeline/caller.py: process_ticket with the cache: hits, results that are kept and failures.
use inference_forge.Base.{◌<◌, ◌≡◌, refl, sym, true, false, none, some}
use inference_forge.Errors.{ok}
use inference_forge.Text.{Text, codes}
use inference_forge.Json.{Json, object, Fields, put, without}
use inference_forge.Json
use inference_forge.Breaker.{Breaker}
use inference_forge.Cache.{
  Redis, Library, Cache, ticket_key, set, answered, parsed, maybe_log_rate, counted_hit,
}
use inference_forge.Cache
use inference_forge.Cache.Laws.{Serves, SameTicket, ticket_key-same}
use inference_forge.Caller.Retry.{World, failure_result, call_with_retry}
use inference_forge.Caller.Service.{process_ticket, no_error, with_cache_hit}

module _ {ℓ} {S : Type ℓ} (redis : Redis S) (lib : Library) (serves : Serves redis) (w : World)
    (meanwhile : Cache S → Cache S) where
  -- With a server that is up: a ticket with a stored dict is answered with it and `cache_hit` set,
  -- and the API is not called.
  pub process_ticket_cached :
      (ticket raw : Text) (d : Fields) (c : Cache S) (b : Breaker)
      → serves.held (ticket_key lib ticket) c.redis ≡ some raw
      → lib.loads raw ≡ ok (object d)
      → ((process_ticket redis lib w meanwhile ticket c b).outcome ≡ ok (with_cache_hit true d))
        × ((process_ticket redis lib w meanwhile ticket c b).api_run ≡ none)
  unfolding process_ticket Cache.get
  process_ticket_cached ticket raw d c b h l = rw (serves.get-held, h, l) (refl, refl)

  -- With a server that is up: a failure is answered with `cache_hit` unset, and stores nothing.
  pub process_ticket_failed :
      (ticket error : Text) (c : Cache S) (b : Breaker)
      → serves.held (ticket_key lib ticket) c.redis ≡ none
      → (call_with_retry w ticket b).result ≡ ok (failure_result ticket error)
      → ((process_ticket redis lib w meanwhile ticket c b).outcome
          ≡ ok (with_cache_hit false (failure_result ticket error)))
        × ((process_ticket redis lib w meanwhile ticket c b).cache
            ≡ meanwhile (Cache.get redis lib ticket c).1)
  unfolding process_ticket Cache.get
  process_ticket_failed ticket error c b h f = rw (serves.get-held, h, f) (refl, refl)

  stores :
      (a : Text) (d : Fields) (c : Cache S) (b : Breaker)
      → 0 < lib.dedup_ttl_seconds
      → serves.held (ticket_key lib a) c.redis ≡ none
      → serves.held (ticket_key lib a) (meanwhile (Cache.get redis lib a c).1).redis ≡ none
      → (call_with_retry w a b).result ≡ ok d
      → no_error (Json.get (codes "error") d) ≡ true
      → serves.held (ticket_key lib a) (process_ticket redis lib w meanwhile a c b).cache.redis
        ≡ some (lib.dumps (without (codes "cache_hit") d))
  unfolding process_ticket Cache.get set
  stores a d c b positive absent unset ran fine =
      let new =
        serves.set-new (ticket_key lib a) (lib.dumps (without (codes "cache_hit") d))
          lib.dedup_ttl_seconds (meanwhile (Cache.get redis lib a c).1).redis positive unset in
      rw (serves.get-held, absent, ran, fine) (rw (Cache.get, serves.get-held, absent) at new)

  -- With a server that is up and a time to live of one second or more: once a ticket is classified with no error and no other task stores a
  -- result for it meanwhile, the same ticket in any case and with any white space around it gets
  -- this classification with no call of the API.
  pub process_ticket_once :
      (a again : Text) (d : Fields) (c : Cache S) (b b' : Breaker)
      → 0 < lib.dedup_ttl_seconds
      → SameTicket lib a again
      → serves.held (ticket_key lib a) c.redis ≡ none
      → serves.held (ticket_key lib a) (meanwhile (Cache.get redis lib a c).1).redis ≡ none
      → (call_with_retry w a b).result ≡ ok d
      → no_error (Json.get (codes "error") d) ≡ true
      → lib.loads (lib.dumps (without (codes "cache_hit") d))
        ≡ ok (object (without (codes "cache_hit") d))
      → ((process_ticket redis lib w meanwhile again
            (process_ticket redis lib w meanwhile a c b).cache
            b').outcome
          ≡ ok (with_cache_hit true (without (codes "cache_hit") d)))
        × ((process_ticket redis lib w meanwhile again
              (process_ticket redis lib w meanwhile a c b).cache
              b').api_run
            ≡ none)
  process_ticket_once a again d c b b' positive same absent unset ran fine l =
      let c1 = (process_ticket redis lib w meanwhile a c b).cache in
      process_ticket_cached again (lib.dumps (without (codes "cache_hit") d))
        (without (codes "cache_hit") d) c1 b'
        (rw (sym (ticket_key-same lib a again same))
          (stores a d c b positive absent unset ran fine))
        l
