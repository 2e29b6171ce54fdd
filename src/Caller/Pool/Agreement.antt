-- ===== src/Caller/Pool/Agreement.antt =====
-- pipeline/caller.py: the tasks agree on what the cache has for a ticket.
use mathlib.Core.Path.{subst}
use inference_forge.Base.{ℕ, ◌≡◌, refl, arith, true, some}
use inference_forge.Base.Tasks.{update_same}
use inference_forge.Errors.{ok}
use inference_forge.Json.{object, Fields}
use inference_forge.Text.{Text}
use inference_forge.Cache.{Redis, Library, Cache, answered, maybe_log_rate, ticket_key, set}
use inference_forge.Cache
use inference_forge.Cache.Laws.{Serves, SameTicket, ticket_key-same, get-redis}
use inference_forge.Caller.Service.{with_cache_hit}
use inference_forge.Caller.Pool.{
  idle, finished, Pool, behind_look, Step, look, acquire, cancel, end_call, store, Run, here, next,
}

module _ {ℓ} {S : Type ℓ} (redis : Redis S) (lib : Library) (serves : Serves redis)
    (tickets : ℕ → Text) (tasks : ℕ) where
  Step-held :
      (i : ℕ) (s t : Pool S) (key raw : Text)
      → Step redis lib tickets i s t
      → serves.held key s.cache.redis ≡ some raw
      → serves.held key t.cache.redis ≡ some raw
  unfolding set
  Step-held i s t key raw (look p e) h = rw (e, get-redis redis lib serves) h
  Step-held i s t key raw (acquire n p q e) h = rw e h
  Step-held i s t key raw (cancel p e) h = rw e h
  Step-held i s t key raw (end_call r p e) h = rw e h
  Step-held i s t key raw (store d p e) h =
      rw e (
        serves.set-old key (ticket_key lib (tickets i)) _ raw lib.dedup_ttl_seconds s.cache.redis h)

  Run-held :
      (t : Pool S) (k : ℕ) (s : Pool S) (key raw : Text)
      → Run redis lib tickets tasks t s k
      → serves.held key s.cache.redis ≡ some raw
      → serves.held key t.cache.redis ≡ some raw
  Run-held t k s key raw here h = h
  Run-held t k s key raw (next {m = m} b st r) h =
      Run-held t _ m key raw r (Step-held _ s m key raw st h)

  looked_up :
      (i : ℕ) (d : Fields) (raw : Text) (s : Pool S)
      → serves.held (ticket_key lib (tickets i)) s.cache.redis ≡ some raw
      → lib.loads raw ≡ ok (object d)
      → behind_look (Cache.get redis lib (tickets i) s.cache).0
        ≡ finished (ok (with_cache_hit true d))
  unfolding Cache.get
  looked_up i d raw s h l = rw (serves.get-held, h, l) refl

  -- With a server that is up, once there is a result for a ticket: however the tasks interleave
  -- from then on, a task for the ticket in any case and with any white space around it, whenever it
  -- begins, ends with that result at its first step, with no permit and no call of the API.
  pub first_result_stays :
      (s t u : Pool S) (k i : ℕ) (ticket raw : Text) (d : Fields)
      → serves.held (ticket_key lib ticket) s.cache.redis ≡ some raw
      → lib.loads raw ≡ ok (object d)
      → SameTicket lib ticket (tickets i)
      → Run redis lib tickets tasks t s k
      → t.phase i ≡ idle
      → Step redis lib tickets i t u
      → (u.phase i ≡ finished (ok (with_cache_hit true d))) × (u.free ≡ t.free)
  first_result_stays s t u k i ticket raw d h l same r p (look q e) =
      let kept =
        subst (λ key. serves.held key t.cache.redis ≡ some raw)
          (ticket_key-same lib ticket (tickets i) same)
          (Run-held t k s (ticket_key lib ticket) raw r h) in
      rw e (update_same t.phase i (looked_up i d raw t kept l), refl)
  first_result_stays s t u k i ticket raw d h l same r p (acquire n q f e) = ground arith
  first_result_stays s t u k i ticket raw d h l same r p (cancel q e) = ground arith
  first_result_stays s t u k i ticket raw d h l same r p (end_call x q e) = ground arith
  first_result_stays s t u k i ticket raw d h l same r p (store x q e) = ground arith
