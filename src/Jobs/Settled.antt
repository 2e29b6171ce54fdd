-- ===== src/Jobs/Settled.antt =====
-- api/routes.py: how a job of _process_job ends when Redis fails.
use inference_forge.Base.{ℕ, ◌≡◌, ◌⊎◌, some, List}
use inference_forge.Errors.{Error, cancelled, Result, ok, raise}
use inference_forge.Json.{Json, Fields}
use inference_forge.Text.{Text}
use inference_forge.Jobs.Store.{Job, done, failed}
use inference_forge.Jobs.Process.{Env}
use inference_forge.Jobs.Faults.{Fault, lost, late, Server}

-- The job is done and has its results, or it has failed with the text of an exception.
abbrev pub IsSettled : Job → Type 0
IsSettled j =
    ((j.hash.status ≡ some done) × ((all : List Fields) × (j.results ≡ some all)))
    ⊎ ((j.hash.status ≡ some failed) × ((reason : Text) × (j.hash.error ≡ some reason)))

module _ (env : Env) (total : ℕ) (fault : ℕ → Fault) where
  -- The exception is a cancellation, or a command raised it.
  abbrev pub FromRedis : Error → Type 0
  FromRedis e = (e ≡ cancelled) ⊎ ((n : ℕ) × ((fault n ≡ lost e) ⊎ (fault n ≡ late e)))

  abbrev Ends : Result (Unit {0}) × Server → Type 0
  Ends (ok _, s) = IsSettled s.job
  Ends (raise e, s) = FromRedis e

  -- A command that works leaves a job that satisfies a predicate.
  abbrev OrRaised : (Job → Type 0) → Result (Unit {0}) × Server → Type 0
  OrRaised P (ok _, s) = P s.job
  OrRaised P (raise e, s) = (n : ℕ) × ((fault n ≡ lost e) ⊎ (fault n ≡ late e))

  -- What the body of the try statement leaves, if it does not raise.
  abbrev IfReturned : Result (Unit {0}) × Server → Type 0
  IfReturned (ok _, s) = IsSettled s.job
  IfReturned (raise e, s) = Unit
