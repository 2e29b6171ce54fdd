-- ===== src/Jobs/ClientTests.antt =====
-- api/routes.py: a client of a request with two spellings of one ticket.
use inference_forge.Base.{All, ℕ, ◌≤◌, ◌<◌, ◌≡◌, refl, true, false, some, [], ◌∷◌, ◌++◌, length}
use inference_forge.Base.Fraction.{Fraction}
use inference_forge.Errors.{Result, ok}
use inference_forge.Json.{Json, text, array, object, Fields, field}
use inference_forge.Json
use inference_forge.Text.{Text, codes, strip, lstrip, rstrip, is_space}
use inference_forge.Batcher.Ordered.{ordered}
use inference_forge.Estimator.Eta.{eta_estimator}
use inference_forge.Cache.Example.{server, library, serves, Entries, empty_cache, answer}
use inference_forge.Cache.{Cache, ticket_key}
use inference_forge.Jobs.Submit.{Submission, nothing_seen, deduplicate}
use inference_forge.Jobs.Resubmitted.{IsStored, IsAnswer, resubmitted}
use inference_forge.Jobs.Store.{progress, finished, Job, no_job, done, number_or_zero}
use inference_forge.Jobs.Results.{Stream, listen, stop}
use inference_forge.Schemas.Responses.{stream_done_event}
use inference_forge.Jobs.Conforms.{final_event-Conforms}
use inference_forge.Jobs.Stream.{fields_of, frames, stream_job, drop, ReadsBack}
use inference_forge.Jobs.Client.{final_frame, stream_of_served}
use inference_forge.Jobs.Whole.{HasEach, job_of}
use inference_forge.Jobs.Tests.{tickets, submitted, env, told, same_task, served, adds}

abbrev after : Job
after = job_of server library ordered env told same_task tickets submitted 4 eta_estimator no_job

abbrev decimal : Fraction → Text
decimal q = codes "0.5"

-- A dump that keeps no more than whether the status is done.
abbrev dumps : Json → Text
dumps (object (field _ (text status) _)) = codes "d"
dumps _ = codes "p"

abbrev loads : Text → Result Json
loads t = elim (Json.same_text t (codes "d")) [
  | true ↦ ok (object (field (codes "status") (text (codes "done")) Json.done))
  | false ↦ ok (object Json.done)
]

reads : ReadsBack decimal dumps loads
reads (progress completed total cache_hits failed eta) = (Json.done, (refl, refl))
reads (finished results stats) =
    (field (codes "status") (text (codes "done")) Json.done, (refl, refl))

stream_of_served_example :
    (1 ≤ length served.progressed
      → (st : Stream) × (stream_job decimal dumps loads 1 after ≡ some st)
        × (st.sent
            ≡ frames decimal dumps loads (drop 1 served.progressed)
              ++ final_frame tickets submitted no_job after served decimal dumps loads reads ∷ [])
        × (st.state ≡ stop))
    × (length served.progressed < 1
        → (st : Stream) × (stream_job decimal dumps loads 1 after ≡ some st)
          × (st.sent ≡ [])
          × (st.state ≡ listen))
stream_of_served_example =
    stream_of_served tickets submitted no_job after served decimal dumps loads reads 1 refl

final_event-Conforms_example :
    stream_done_event (fields_of decimal dumps loads (finished served.all served.stats)) ≡ true
final_event-Conforms_example =
    final_event-Conforms decimal dumps loads tickets submitted no_job after served

-- The cache has an answer for both spellings.
abbrev filled : Cache Entries
filled = record empty_cache { redis = (ticket_key library (codes "a"), codes "x") ∷ [] }

IsStored-first : IsStored server library serves filled.redis (codes "a")
unfolding ticket_key strip lstrip rstrip is_space
IsStored-first = record {
  raw = codes "x";
  result = answer;
  held = refl;
  reads = refl;
  tokens = (0, refl);
}

IsStored-second : IsStored server library serves filled.redis (codes " a")
unfolding ticket_key strip lstrip rstrip is_space
IsStored-second = record {
  raw = codes "x";
  result = answer;
  held = refl;
  reads = refl;
  tokens = (0, refl);
}

resubmitted_example :
    (s : Submission) × ((deduplicate server library tickets nothing_seen filled).0 ≡ ok s)
    × (s.unique_tickets ≡ [])
    × All (IsAnswer server library serves filled.redis) s.pre_cached_results
    × HasEach library tickets s.pre_cached_results
    × ((task : ℕ → ℕ → Text → Result Fields)
        → let again =
            job_of server library ordered env told task tickets s 4 eta_estimator no_job in
          (again.hash.status ≡ some done)
          × (number_or_zero again.hash.completed ≡ length tickets)
          × (again.results ≡ some s.pre_cached_results))
resubmitted_example =
    resubmitted server library serves ordered env told adds tickets filled 4 eta_estimator no_job
      (IsStored-first, (IsStored-second, tt))
