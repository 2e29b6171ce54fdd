-- ===== src/Config.antt =====
-- config.py: the class Settings, and observability/logger.py: the level it configures.
--
-- A Settings holds the values as pydantic has read them from the environment, so each int is any
-- integer; a float is a sign and a fraction. `upper` is str.upper. Of the errors of a validation
-- only that there is one is kept.
pub mod Checks
pub mod Loaded
pub mod Capacity
mod Tests
use inference_forge.Base.{
  ℕ, suc, Option, none, some, Bool, true, false, ◌&&◌, List, [], ◌∷◌, leb, if◌then◌else◌,
}
use inference_forge.Base.Fraction.{Fraction, whole}
use inference_forge.Errors.{value_error, Result, ok, raise}
use inference_forge.Json.{same_text}
use inference_forge.Text.{Text, codes}

pub data ℤ : Type 0 where
  pos : ℕ → ℤ
  negsuc : ℕ → ℤ

pub record Float : Type 0 where
  pub negative : Bool
  pub size : Fraction

pub record Settings : Type 0 where
  pub sarvam_api_key : Text
  pub sarvam_api_base : Text
  pub sarvam_model : Text
  pub sarvam_min_interval_ms : ℤ
  pub sarvam_mock_mode : Bool
  pub sarvam_mock_latency_ms : ℤ
  pub redis_url : Text
  pub max_concurrent_api_calls : ℤ
  pub cb_failure_threshold : ℤ
  pub cb_window_seconds : ℤ
  pub cb_recovery_timeout : ℤ
  pub cb_enabled : Bool
  pub max_retries : ℤ
  pub retry_backoff_base : Float
  pub dedup_ttl_seconds : ℤ
  pub job_ttl_seconds : ℤ
  pub max_tickets_per_request : ℤ
  pub max_ticket_chars : ℤ
  pub log_level : Text
  pub latency_window_size : ℤ
  pub cost_per_1k_tokens : Float

-- The settings with nothing in the environment but the key.
abbrev pub defaults : Text → Settings
defaults key = record {
  sarvam_api_key = key;
  sarvam_api_base = codes "https://api.sarvam.ai/v1";
  sarvam_model = codes "sarvam-m";
  sarvam_min_interval_ms = pos 0;
  sarvam_mock_mode = false;
  sarvam_mock_latency_ms = pos 0;
  redis_url = codes "redis://localhost:6379/0";
  max_concurrent_api_calls = pos 10;
  cb_failure_threshold = pos 5;
  cb_window_seconds = pos 20;
  cb_recovery_timeout = pos 30;
  cb_enabled = true;
  max_retries = pos 3;
  retry_backoff_base = record { negative = false; size = whole 1 };
  dedup_ttl_seconds = pos 86400;
  job_ttl_seconds = pos 3600;
  max_tickets_per_request = pos 500;
  max_ticket_chars = pos 2000;
  log_level = codes "INFO";
  latency_window_size = pos 1000;
  cost_per_1k_tokens = record { negative = false; size = record { num = 2; den = 10000 } };
}

-- Field's ge and le, of bounds that are not negative.
abbrev pub ge : ℕ → ℤ → Bool
ge bound (pos n) = leb bound n
ge bound (negsuc n) = false

abbrev pub le : ℕ → ℤ → Bool
le bound (pos n) = leb n bound
le bound (negsuc n) = true

abbrev pub all_of : List Bool → Bool
all_of [] = true
all_of (b ∷ bs) = b && all_of bs

-- The bounds in the order of the fields.
abbrev pub checks : Settings → List Bool
checks s =
    ge 0 s.sarvam_min_interval_ms
    ∷ ge 0 s.sarvam_mock_latency_ms
    ∷ (ge 1 s.max_concurrent_api_calls && le 50 s.max_concurrent_api_calls)
    ∷ ge 1 s.cb_failure_threshold
    ∷ ge 5 s.cb_window_seconds
    ∷ ge 5 s.cb_recovery_timeout
    ∷ (ge 1 s.max_retries && le 5 s.max_retries)
    ∷ []

unfoldable pub in_ranges : Settings → Bool
in_ranges s = all_of (checks s)

abbrev pub among : Text → List Text → Bool
among t [] = false
among t (u ∷ us) = if same_text t u then true else among t us

abbrev pub allowed : List Text
allowed = codes "DEBUG" ∷ codes "INFO" ∷ codes "WARNING" ∷ codes "ERROR" ∷ codes "CRITICAL" ∷ []

-- getattr(logging, name, logging.INFO), of the attributes that the module has.
unfoldable pub level_of : (Text → Option ℕ) → Text → ℕ
level_of attribute name = elim (attribute name) [ some level ↦ level | none ↦ 20 ]

module _ (upper : Text → Text) where
  unfoldable pub validate_log_level : Text → Result Text
  validate_log_level v = if among (upper v) allowed then ok (upper v) else raise value_error

  abbrev pub with_level : Result Text → Settings → Result Settings
  with_level (ok level) s = ok (record s { log_level = level })
  with_level (raise e) s = raise e

  unfoldable pub load : Settings → Result Settings
  load s = if in_ranges s then with_level (validate_log_level s.log_level) s else raise value_error
