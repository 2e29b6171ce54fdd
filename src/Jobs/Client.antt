-- ===== src/Jobs/Client.antt =====
-- api/routes.py: what the client of a request that was served sees at the endpoints.
use inference_forge.Base.{
  ℕ, ◌+◌, ◌≤◌, ◌<◌, ◌≡◌, refl, ◌∙◌, ap, not, none, some, List, [], ◌∷◌, ◌++◌, length, length-append,
  keep, arith,
}
use inference_forge.Base.Fraction.{Fraction}
use inference_forge.Errors.{Result}
use inference_forge.Json.{Json}
use inference_forge.Text.{Text}
use inference_forge.Jobs.Store.{finished, Job, done, exists, get_state}
use inference_forge.Jobs.Submit.{Submission}
use inference_forge.Jobs.Process.{is_error}
use inference_forge.Jobs.Results.{
  reply, results_of, if_any, Stream, listen, stop, sse, sse_generator,
}
use inference_forge.Jobs.Answers.{partition_length}
use inference_forge.Jobs.Stream.{
  payload, messages, frames, stream_job, drop, ReadsBack, streamed, drop-early, drop-late, All-drop,
}
use inference_forge.Jobs.Whole.{IsServed}

module _ (tickets : List Text) (s : Submission) (before after : Job)
    (served : IsServed tickets s before after) where
  -- The results endpoint gives the client of a served request each result, those without an error
  -- apart from those with one, and together there is one for each different normalized text.
  pub results_of_served :
      (results_of after
        ≡ reply (record {
          status = done;
          progress = none;
          results = some (keep (λ r. not (is_error r)) served.all);
          failures = if_any (keep is_error served.all);
          reason = none;
        }))
      × (length (keep (λ r. not (is_error r)) served.all) + length (keep is_error served.all)
          ≡ length s.seen)
  unfolding results_of get_state exists
  results_of_served =
      (rw (served.status, served.results) refl, partition_length served.all ∙ served.each)

  module _ (decimal : Fraction → Text) (dumps : Json → Text) (loads : Text → Result Json)
      (reads : ReadsBack decimal dumps loads) where
    found :
        (k : ℕ)
        → stream_job decimal dumps loads k after
          ≡ some (sse_generator loads (messages decimal dumps loads (drop k after.events)))
    unfolding stream_job exists sse_generator
    found k = rw served.status refl

    -- The final event of the job as a client reads it.
    abbrev pub final_frame : Text
    final_frame = sse (dumps (payload decimal dumps loads (finished served.all served.stats)))

    -- Of a served request with no earlier event, a client that subscribes before the final event
    -- receives each later event in order, the final one with the results of the store last, and its
    -- stream ends. A client that subscribes behind the final event finds the job, receives nothing,
    -- and its stream goes on listening, though nothing more is published.
    pub stream_of_served :
        (k : ℕ)
        → before.events ≡ []
        → (k ≤ length served.progressed
            → (st : Stream) × (stream_job decimal dumps loads k after ≡ some st)
              × (st.sent
                  ≡ frames decimal dumps loads (drop k served.progressed) ++ final_frame ∷ [])
              × (st.state ≡ stop))
          × (length served.progressed < k
              → (st : Stream) × (stream_job decimal dumps loads k after ≡ some st)
                × (st.sent ≡ [])
                × (st.state ≡ listen))
    unfolding sse_generator
    stream_of_served k fresh =
        let last = finished served.all served.stats in
        let published : after.events ≡ served.progressed ++ last ∷ [] =
          served.events ∙ ap (λ es. es ++ (served.progressed ++ last ∷ [])) fresh in
        (
          λ early.
              let left : drop k after.events ≡ drop k served.progressed ++ last ∷ [] =
                ap (drop k) published ∙ drop-early k served.progressed last early in
              let (sent, state) =
                streamed decimal dumps loads reads (drop k served.progressed) served.all
                  served.stats (All-drop _ k served.progressed served.only_progress) in
              (_, found k, rw left sent, rw left state),
          λ late.
              let left : drop k after.events ≡ [] =
                ap (drop k) published
                ∙ drop-late k (served.progressed ++ last ∷ [])
                    (rw length-append (omega (arith, late))) in
              (_, found k, rw left refl, rw left refl),
        )
