-- ===== src/Jobs/FaultTests.antt =====
-- api/routes.py: a job whose last event is lost.
use inference_forge.Base.{ℕ, ◌≡◌, refl, ◌⊎◌, none, some, [], ◌∷◌, ◌==◌, if◌then◌else◌}
use inference_forge.Errors.{Error, other_exception, ok, raise}
use inference_forge.Estimator.Eta.{eta_estimator}
use inference_forge.Jobs.Store.{
  pending, no_job, failed, start, increment_progress, publish_progress, publish_done, finish, fail,
}
use inference_forge.Jobs.Process.{tally, sum_tokens}
use inference_forge.Jobs.Faults.{Fault, works, lost, late, Server, faulty_rounds, faulty_job}
use inference_forge.Jobs.Submit.{accept}
use inference_forge.Jobs.Intake.{IsStranded, faulty_accept, faulty_accept_lem}
use inference_forge.Jobs.Tests.{tickets, submitted, env, batch, job}

abbrev up : ℕ → Fault
up n = works

-- The command that publishes the results is lost.
abbrev no_event : ℕ → Fault
no_event n = if n == 4 then lost (other_exception "ConnectionError") else works

abbrev server : Server
server = record { job = job; commands = 0 }

-- The job has stored its results as done, and is marked as failed.
fails_when_done :
    (faulty_job env 2 no_event (batch ∷ []) 1 [] eta_estimator server).1.job.hash.status
    ≡ some failed
unfolding faulty_job faulty_rounds tally sum_tokens start increment_progress publish_progress
    publish_done finish fail
fails_when_done = refl

-- The command that sets the expiry is lost.
abbrev no_expiry : ℕ → Fault
no_expiry n = if n == 1 then lost (other_exception "ConnectionError") else works

abbrev empty_server : Server
empty_server = record { job = no_job; commands = 0 }

faulty_accept_lem_example :
    let x = faulty_accept 3600 4 no_expiry tickets submitted empty_server in
    ((x.0 ≡ ok tt) × (x.1.job ≡ (accept 3600 4 eta_estimator tickets submitted no_job).job))
    ⊎ ((err : Error) × ((x.0 ≡ raise err)
          × (IsStranded 3600 4 no_expiry no_job x.1.job
              × ((n : ℕ) × ((no_expiry n ≡ lost err) ⊎ (no_expiry n ≡ late err))))))
faulty_accept_lem_example =
    faulty_accept_lem 3600 4 no_expiry tickets submitted eta_estimator empty_server

-- The job stays, pending and with no expiry.
stays_for_good :
    ((faulty_accept 3600 4 no_expiry tickets submitted empty_server).1.job.hash.status
      ≡ some pending)
    × ((faulty_accept 3600 4 no_expiry tickets submitted empty_server).1.job.ttl ≡ none)
unfolding faulty_accept
stays_for_good = (refl, refl)
