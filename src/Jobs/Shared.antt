-- ===== src/Jobs/Shared.antt =====
-- pipeline/job_store.py: the class JobStore on the Redis server that all jobs share, which is up.
--
-- A key has no value, a hash or a text; a text is the list of results that it stands for. A command
-- for a hash on a key that holds a text, or the other way, is a ResponseError of redis-py. A
-- pipeline is a transaction: each of its commands runs, and the first error of these is raised.
-- Jobs/Store.antt has the same methods on the keys of one job alone.
mod Keys
mod Refined
mod Methods
mod Traces
mod Requests
mod Served
mod Tests
use inference_forge.Base.{
  ℕ, zero, suc, Bool, true, false, Option, none, some, List, [], ◌∷◌, ◌++◌, if◌then◌else◌,
}
use inference_forge.Base.Fraction.{Fraction}
use inference_forge.Errors.{Error, other_exception, Result, ok, raise}
use inference_forge.Json.{Fields, same_text}
use inference_forge.Text.{Text, codes}
use inference_forge.Jobs.Store.{
  Hash, no_hash, pending, processing, done, failed, Stats, Event, progress, finished, hincrby,
}

abbrev pub job_key : Text → Text
job_key job_id = codes "job:" ++ job_id

abbrev pub event_channel : Text → Text
event_channel job_id = codes "job:" ++ (job_id ++ codes ":events")

abbrev pub results_key : Text → Text
results_key job_id = codes "job:" ++ (job_id ++ codes ":results")

pub data Value : Type 0 where
  absent : Value
  hash : Hash → Value
  string : List Fields → Value

pub record Redis : Type 0 where
  pub keys : Text → Value
  pub ttls : Text → Option ℕ
  pub channels : Text → List Event

unfoldable pub at_key {ℓ} : {A : Type ℓ} → Text → A → (Text → A) → Text → A
at_key key a f k = if same_text key k then a else f k

-- A command, or a transaction.
abbrev pub Command : Type 0
Command = Redis → Result (Unit {0}) × Redis

abbrev pub wrong_type : Error
wrong_type = other_exception "ResponseError"

abbrev pub with_value : Text → Value → Redis → Redis
with_value key v s = record s { keys = at_key key v s.keys }

abbrev pub hset_value : Text → (Hash → Hash) → Value → Command
hset_value key f absent s = (ok tt, with_value key (hash (f no_hash)) s)
hset_value key f (hash h) s = (ok tt, with_value key (hash (f h)) s)
hset_value key f (string t) s = (raise wrong_type, s)

-- HSET and HINCRBY: what they write, as a function of the hash.
unfoldable pub hset : Text → (Hash → Hash) → Command
hset key f s = hset_value key f (s.keys key) s

abbrev pub expire_value : Text → ℕ → Value → Command
expire_value key seconds absent s = (ok tt, s)
expire_value key seconds _ s = (ok tt, record s { ttls = at_key key (some seconds) s.ttls })

-- EXPIRE does nothing to a key with no value.
unfoldable pub expire_key : Text → ℕ → Command
expire_key key seconds s = expire_value key seconds (s.keys key) s

-- SET takes a key of any type, and its time to live with it.
unfoldable pub set_key : Text → List Fields → Command
set_key key t s =
    (ok tt, record s { keys = at_key key (string t) s.keys; ttls = at_key key none s.ttls })

abbrev pub and_then :
    Result (Unit {0}) × Redis → (Redis → Result (Unit {0}) × Redis) → Result (Unit {0}) × Redis
and_then (raise e, s) f = (raise e, s)
and_then (ok _, s) f = f s

-- The first error of two commands of a transaction.
abbrev pub first_error : Result (Unit {0}) → Result (Unit {0}) × Redis → Result (Unit {0}) × Redis
first_error (ok _) x = x
first_error (raise e) (_, s) = (raise e, s)

abbrev pub both : Result (Unit {0}) × Redis → Command → Result (Unit {0}) × Redis
both (r, s) c = first_error r (c s)

-- pipe.execute()
unfoldable pub execute : List Command → Command
execute [] s = (ok tt, s)
execute (c ∷ cs) s = both (c s) (execute cs)

unfoldable pub create : ℕ → Text → ℕ → ℕ → Command
create job_ttl_seconds job_id now total s =
    and_then
      (hset (job_key job_id)
        (λ h. record h {
          status = some pending;
          total = some total;
          completed = some 0;
          failed_count = some 0;
          cache_hits = some 0;
          created_at = some now;
          started_at = some none;
          completed_at = some none;
        })
        s)
      (expire_key (job_key job_id) job_ttl_seconds)

unfoldable pub start : Text → ℕ → Command
start job_id now =
    hset (job_key job_id) (λ h. record h { status = some processing; started_at = some (some now) })

-- if n: pipe.hincrby(...)
abbrev pub queue_if : ℕ → Command → List Command → List Command
queue_if zero c cs = cs
queue_if (suc _) c cs = c ∷ cs

unfoldable pub increment_progress : Text → ℕ → ℕ → ℕ → Command
increment_progress job_id completed failed_now hits =
    let key = job_key job_id in
    execute (
      queue_if completed (hset key (λ h. record h { completed = hincrby completed h.completed })) (
        queue_if failed_now
          (hset key (λ h. record h { failed_count = hincrby failed_now h.failed_count }))
          (queue_if hits (hset key (λ h. record h { cache_hits = hincrby hits h.cache_hits })) [])))

unfoldable pub finish : ℕ → Text → ℕ → List Fields → Command
finish job_ttl_seconds job_id now results = execute (
    hset (job_key job_id) (λ h. record h { status = some done; completed_at = some (some now) })
    ∷ set_key (results_key job_id) results
    ∷ expire_key (results_key job_id) job_ttl_seconds
    ∷ [])

unfoldable pub fail : Text → ℕ → Text → Command
fail job_id now reason =
    hset (job_key job_id)
      (λ h. record h { status = some failed; completed_at = some (some now); error = some reason })

abbrev pub publish : Text → Event → Command
publish channel e s =
    (ok tt, record s { channels = at_key channel (s.channels channel ++ e ∷ []) s.channels })

unfoldable pub publish_progress : Text → ℕ → ℕ → ℕ → ℕ → Fraction → Command
publish_progress job_id completed total hits failed_count eta =
    publish (event_channel job_id) (progress completed total hits failed_count eta)

unfoldable pub publish_done : Text → List Fields → Stats → Command
publish_done job_id results stats = publish (event_channel job_id) (finished results stats)

abbrev pub hash_of : Value → Result (Option Hash)
hash_of absent = ok none
hash_of (hash h) = ok (some h)
hash_of (string _) = raise wrong_type

unfoldable pub get_state : Text → Redis → Result (Option Hash)
get_state job_id s = hash_of (s.keys (job_key job_id))

abbrev pub text_of : Value → Result (Option (List Fields))
text_of absent = ok none
text_of (hash _) = raise wrong_type
text_of (string t) = ok (some t)

unfoldable pub get_results : Text → Redis → Result (Option (List Fields))
get_results job_id s = text_of (s.keys (results_key job_id))

abbrev pub is_present : Value → Bool
is_present absent = false
is_present _ = true

unfoldable pub exists : Text → Redis → Bool
exists job_id s = is_present (s.keys (job_key job_id))
