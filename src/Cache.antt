-- ===== src/Cache.antt =====
-- pipeline/cache.py: the class DeduplicationCache.
--
-- The state has the Redis server's, the object's counters, the module's _PROCESSED_COUNT and the
-- hit rates logged, newest first. The Redis client is a parameter, a record of its commands; each
-- can raise. SHA-256 and str.lower are any functions, and so is the json module.
pub mod Laws
pub mod Counts
pub mod Example
mod Tests
use inference_forge.Base.{
  ℕ, suc, ◌+◌, ◌%◌, Bool, Option, none, some, List, [], ◌∷◌, ◌++◌, ◌==◌, if◌then◌else◌,
}
use inference_forge.Base.Fraction.{Fraction}
use inference_forge.Errors.{Result, ok, raise}
use inference_forge.Json.{Json, null, Fields}
use inference_forge.Text.{Text, codes, strip}

pub record Redis {ℓ} (S : Type ℓ) : Type ℓ where
  pub get : Text → S → Result (Option Text) × S
  pub set_nx : Text → Text → ℕ → S → Result (Unit {0}) × S
  pub exists : Text → S → Result Bool × S

pub record Library : Type 0 where
  pub sha256 : Text → Text
  pub lower : Text → Text
  pub loads : Text → Result Json
  pub dumps : Fields → Text
  pub dedup_ttl_seconds : ℕ

pub record Rate : Type 0 where
  pub processed : ℕ
  pub hits : ℕ
  pub misses : ℕ

pub record Cache {ℓ} (S : Type ℓ) : Type ℓ where
  pub redis : S
  pub hits : ℕ
  pub misses : ℕ
  pub processed : ℕ
  pub log : List Rate

abbrev pub log_every_n : ℕ
log_every_n = 50

unfoldable pub ticket_hash : Library → Text → Text
ticket_hash lib ticket = lib.sha256 (lib.lower (strip ticket))

unfoldable pub ticket_key : Library → Text → Text
unfolding ticket_hash
ticket_key lib ticket = codes "cache:" ++ ticket_hash lib ticket

module _ {ℓ} {S : Type ℓ} where
  -- hits / total, or 0 with no request.
  abbrev pub hit_rate : Cache S → Fraction
  hit_rate c =
      if c.hits + c.misses == 0
      then record { num = 0; den = 1 }
      else record { num = c.hits; den = c.hits + c.misses }

  unfoldable pub maybe_log_rate : Cache S → Cache S
  maybe_log_rate c =
      if c.processed % log_every_n == 0
      then record c {
        log = record { processed = c.processed; hits = c.hits; misses = c.misses } ∷ c.log;
      }
      else c

  abbrev pub counted_hit : S → Cache S → Cache S
  counted_hit s c = record c { redis = s; hits = suc c.hits; processed = suc c.processed }

  abbrev pub counted_miss : S → Cache S → Cache S
  counted_miss s c = record c { redis = s; misses = suc c.misses; processed = suc c.processed }

module _ {ℓ} {S : Type ℓ} (redis : Redis S) (lib : Library) where
  -- json.loads gives None for null, as for a miss.
  abbrev pub parsed : Result Json → Result (Option Json)
  parsed (ok null) = ok none
  parsed (ok v) = ok (some v)
  parsed (raise e) = raise e

  abbrev pub answered : Result (Option Text) × S → Cache S → Result (Option Json) × Cache S
  answered (raise e, s) c = (raise e, record c { redis = s })
  answered (ok (some raw), s) c = (parsed (lib.loads raw), maybe_log_rate (counted_hit s c))
  answered (ok none, s) c = (ok none, maybe_log_rate (counted_miss s c))

  unfoldable pub get : Text → Cache S → Result (Option Json) × Cache S
  get ticket c = answered (redis.get (ticket_key lib ticket) c.redis) c

  unfoldable pub set : Text → Fields → Cache S → Result (Unit {0}) × Cache S
  set ticket result c =
      let (r, s) =
        redis.set_nx (ticket_key lib ticket) (lib.dumps result) lib.dedup_ttl_seconds c.redis in
      (r, record c { redis = s })

  unfoldable pub exists : Text → Cache S → Result Bool × Cache S
  exists ticket c =
      let (r, s) = redis.exists (ticket_key lib ticket) c.redis in (r, record c { redis = s })
