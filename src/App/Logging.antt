-- ===== src/App/Logging.antt =====
-- observability/logger.py: what configure_logging gives to structlog and to the module logging.
use inference_forge.Base.{ℕ, ◌≡◌, Bool, true, false, Option, some, List, [], ◌∷◌, ◌++◌}
use inference_forge.Text.{Text, codes}
use inference_forge.Errors.{ok}
use inference_forge.Config.{Settings, level_of, load}
use inference_forge.Config.Loaded.{HasLevels, level_of-named}

-- The processors, by structlog's names.
pub data Processor : Type 0 where
  merge_contextvars add_log_level time_stamper stack_info_renderer : Processor
  console_renderer dict_tracebacks json_renderer : Processor

-- `loggers` are those of the module logging whose level is set.
pub record Logging : Type 0 where
  pub processors : List Processor
  pub log_level : ℕ
  pub cache_logger_on_first_use : Bool
  pub loggers : List (Text × ℕ)

abbrev pub shared_processors : List Processor
shared_processors = merge_contextvars ∷ add_log_level ∷ time_stamper ∷ stack_info_renderer ∷ []

-- The console for a terminal, and JSON elsewhere.
abbrev pub renderers : Bool → List Processor
renderers true = console_renderer ∷ []
renderers false = dict_tracebacks ∷ json_renderer ∷ []

abbrev pub warning : ℕ
warning = 30

module _ (attribute : Text → Option ℕ) (isatty : Bool) where
  unfoldable pub configure_logging : Settings → Logging
  configure_logging s = record {
    processors = shared_processors ++ renderers isatty;
    log_level = level_of attribute s.log_level;
    cache_logger_on_first_use = true;
    loggers =
        (codes "uvicorn.access", warning)
        ∷ (codes "httpx", warning)
        ∷ (codes "httpcore", warning)
        ∷ [];
  }

  -- With settings that are accepted, and the five levels in the module logging, the level is the
  -- one that the setting names in any case, and never the default of getattr.
  pub configured_level :
      (upper : Text → Text) (s s' : Settings)
      → HasLevels attribute
      → load upper s ≡ ok s'
      → attribute s'.log_level ≡ some (configure_logging s').log_level
  unfolding configure_logging
  configured_level upper s s' named h = level_of-named attribute upper s s' named h
