-- ===== src/Jobs/Store.antt =====
-- pipeline/job_store.py: the class JobStore, on the keys and the channel of one job, with a Redis
-- server that is up.
--
-- `hash` is the hash job:{job_id} with the fields that it has, so that a key that is missing or
-- has expired has none; `results` is the key with the results, and `events` is what was published,
-- oldest first. Times are the readings of time.time() that the caller passes. The estimate of an
-- event is not rounded, and the JSON texts are the values they stand for.
use inference_forge.Base.{
  ℕ, zero, suc, ◌+◌, Bool, true, false, Option, none, some, List, [], ◌∷◌, ◌++◌,
}
use inference_forge.Base.Fraction.{Fraction}
use inference_forge.Json.{Json, Fields}
use inference_forge.Text.{Text}

-- "pending" | "processing" | "done" | "failed"
pub data JobStatus : Type 0 where
  pending processing done failed : JobStatus

pub record Hash : Type 0 where
  pub status : Option JobStatus
  pub total : Option ℕ
  pub completed : Option ℕ
  pub failed_count : Option ℕ
  pub cache_hits : Option ℕ
  pub created_at : Option ℕ
  pub started_at : Option (Option ℕ)
  pub completed_at : Option (Option ℕ)
  pub error : Option Text

-- What _process_job computes at its end; nothing is rounded.
pub record Stats : Type 0 where
  pub total_tokens : Json
  pub cost_usd : Fraction
  pub p50_ms : Fraction
  pub p95_ms : Fraction
  pub p99_ms : Fraction
  pub duration_seconds : Fraction
  pub failure_rate : Fraction
  pub cache_hit_rate : Fraction

pub data Event : Type 0 where
  progress : (completed total cache_hits failed : ℕ) (eta_seconds : Fraction) → Event
  finished : List Fields → Stats → Event

pub record Job : Type 0 where
  pub hash : Hash
  pub ttl : Option ℕ
  pub results : Option (List Fields)
  pub results_ttl : Option ℕ
  pub events : List Event

abbrev pub no_hash : Hash
no_hash = record {
  status = none;
  total = none;
  completed = none;
  failed_count = none;
  cache_hits = none;
  created_at = none;
  started_at = none;
  completed_at = none;
  error = none;
}

abbrev pub no_job : Job
no_job = record { hash = no_hash; ttl = none; results = none; results_ttl = none; events = [] }

-- A field of the hash as a number, 0 where it is missing.
abbrev pub number_or_zero : Option ℕ → ℕ
number_or_zero none = 0
number_or_zero (some n) = n

-- HINCRBY, under `if n:`
abbrev pub hincrby : ℕ → Option ℕ → Option ℕ
hincrby zero field = field
hincrby (suc n) field = some (number_or_zero field + suc n)

abbrev pub create_hash : ℕ → ℕ → Job → Job
create_hash now total j = record j {
  hash = record j.hash {
    status = some pending;
    total = some total;
    completed = some 0;
    failed_count = some 0;
    cache_hits = some 0;
    created_at = some now;
    started_at = some none;
    completed_at = some none;
  };
}

abbrev pub expire : ℕ → Job → Job
expire job_ttl_seconds j = record j { ttl = some job_ttl_seconds }

unfoldable pub create : ℕ → ℕ → ℕ → Job → Job
create job_ttl_seconds now total j = expire job_ttl_seconds (create_hash now total j)

unfoldable pub start : ℕ → Job → Job
start now j = record j {
  hash = record j.hash { status = some processing; started_at = some (some now) };
}

unfoldable pub increment_progress : ℕ → ℕ → ℕ → Job → Job
increment_progress completed failed_now hits j = record j {
  hash = record j.hash {
    completed = hincrby completed j.hash.completed;
    failed_count = hincrby failed_now j.hash.failed_count;
    cache_hits = hincrby hits j.hash.cache_hits;
  };
}

unfoldable pub finish : ℕ → ℕ → List Fields → Job → Job
finish job_ttl_seconds now results j = record j {
  hash = record j.hash { status = some done; completed_at = some (some now) };
  results = some results;
  results_ttl = some job_ttl_seconds;
}

unfoldable pub fail : ℕ → Text → Job → Job
fail now reason j = record j {
  hash = record j.hash {
    status = some failed;
    completed_at = some (some now);
    error = some reason;
  };
}

abbrev pub given {ℓ} : {A : Type ℓ} → Option A → Bool
given none = false
given (some _) = true

abbrev pub any_given : List Bool → Bool
any_given [] = false
any_given (true ∷ bs) = true
any_given (false ∷ bs) = any_given bs

-- A hash with no field does not exist.
unfoldable pub exists : Job → Bool
exists j = any_given (
    given j.hash.status
    ∷ given j.hash.total
    ∷ given j.hash.completed
    ∷ given j.hash.failed_count
    ∷ given j.hash.cache_hits
    ∷ given j.hash.created_at
    ∷ given j.hash.started_at
    ∷ given j.hash.completed_at
    ∷ given j.hash.error
    ∷ [])

unfoldable pub get_state : Job → Option Hash
unfolding exists
get_state j = elim (exists j) [ true ↦ some j.hash | false ↦ none ]

abbrev pub get_results : Job → Option (List Fields)
get_results j = j.results

unfoldable pub publish_progress : ℕ → ℕ → ℕ → ℕ → Fraction → Job → Job
publish_progress completed total hits failed_count eta j = record j {
  events = j.events ++ progress completed total hits failed_count eta ∷ [];
}

unfoldable pub publish_done : List Fields → Stats → Job → Job
publish_done results stats j = record j { events = j.events ++ finished results stats ∷ [] }
