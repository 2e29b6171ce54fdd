-- ===== src/Jobs/Conforms.antt =====
-- api/routes.py and api/schemas.py: the final event of a job, and the failures that the caller makes,
-- are of the classes that the schemas document.
use inference_forge.Base.{ℕ, ◌≡◌, refl, true, List, [], ◌∷◌}
use inference_forge.Base.Fraction.{Fraction}
use inference_forge.Errors.{Result}
use inference_forge.Json.{Json, natural, text, Fields, put}
use inference_forge.Text.{Text, codes}
use inference_forge.Schemas.Responses.{are_dicts, failed_ticket, job_stats, stream_done_event}
use inference_forge.Jobs.Store.{finished, Stats, Job}
use inference_forge.Jobs.Submit.{Submission}
use inference_forge.Jobs.Accounts.{all_tokens}
use inference_forge.Jobs.Stream.{items_of, stats_json, fields_of}
use inference_forge.Jobs.Whole.{IsServed}
use inference_forge.Caller.Retry.{failure_result}

are_dicts-items_of : (ds : List Fields) → are_dicts (items_of ds) ≡ true
are_dicts-items_of [] = refl
are_dicts-items_of (d ∷ ds) = are_dicts-items_of ds

module _ (decimal : Fraction → Text) (dumps : Json → Text) (loads : Text → Result Json) where
  stats-job_stats :
      (s : Stats) (n : ℕ)
      → s.total_tokens ≡ natural n
      → job_stats (stats_json decimal dumps loads s) ≡ true
  unfolding job_stats
  stats-job_stats s n h = rw h refl

  -- The final event that a served request publishes is a StreamDoneEvent: its results are dicts,
  -- and each of its statistics is there, the tokens as an int and the others as floats.
  pub final_event-Conforms :
      (tickets : List Text) (s : Submission) (before after : Job)
      → (served : IsServed tickets s before after)
      → stream_done_event (fields_of decimal dumps loads (finished served.all served.stats)) ≡ true
  unfolding stream_done_event
  final_event-Conforms tickets s before after served =
      rw
        (
          are_dicts-items_of served.all,
          stats-job_stats served.stats (all_tokens served.all) served.tokens,
        )
        refl

-- A failure that the caller makes of a ticket is a FailedTicket, as it is and with the ticket that
-- the job puts in.
failure_result-failed_ticket :
    (ticket error other : Text)
    → (failed_ticket (failure_result ticket error) ≡ true)
      × (failed_ticket (put (codes "ticket") (text other) (failure_result ticket error)) ≡ true)
unfolding failed_ticket
failure_result-failed_ticket ticket error other = (refl, refl)
