-- ===== src/Jobs/Answers.antt =====
-- api/routes.py: what the endpoints of a job answer.
use mathlib.Core.List.{append-nil}
use inference_forge.Base.{
  ℕ, ◌+◌, ◌≡◌, refl, ◌∙◌, ap, Bool, true, false, not, none, some, List, [], ◌∷◌, ◌++◌, length,
  length-append, keep, All, arith,
}
use inference_forge.Errors.{Result}
use inference_forge.Json.{Json, Fields}
use inference_forge.Text.{Text}
use inference_forge.Jobs.Store.{Job, done, exists, get_state}
use inference_forge.Jobs.Process.{is_error}
use inference_forge.Jobs.Outcome.{IsDone}
use inference_forge.Jobs.Results.{
  reply, results_of, if_any, Message, listen, stop, continue_at, sse, sse_generator, Stream,
  listened,
}

pub partition_length :
    (ds : List Fields)
    → length (keep (λ r. not (is_error r)) ds) + length (keep is_error ds) ≡ length ds
partition_length [] = refl
partition_length (d ∷ ds) = ground (arith, partition_length ds)

-- When a job is done, the results endpoint answers with every result of the job: those without an
-- error as results and the others as failures. Together they are those found in the cache and one
-- for each ticket classified.
pub results_of_done :
    (total : ℕ) (pre : List Fields) (before after : Job) (n : ℕ)
    → IsDone total pre before n after
    → (all : List Fields) × (results_of after
        ≡ reply (record {
          status = done;
          progress = none;
          results = some (keep (λ r. not (is_error r)) all);
          failures = if_any (keep is_error all);
          reason = none;
        }))
      × (length (keep (λ r. not (is_error r)) all) + length (keep is_error all) ≡ length pre + n)
unfolding results_of get_state exists
results_of_done total pre before after n d = (
  pre ++ d.new,
  rw (d.status, d.results) refl,
  partition_length (pre ++ d.new) ∙ rw (length-append, d.each) refl,
)

-- The messages of a channel that are passed on.
abbrev pub with_text : Bool → Text → List Text → List Text
with_text true content ts = sse content ∷ ts
with_text false content ts = ts

abbrev pub texts : List Message → List Text
texts [] = []
texts (m ∷ ms) = with_text m.is_message m.content (texts ms)

module _ (loads : Text → Result Json) where
  -- The messages that do not end a stream.
  abbrev pub GoesOn : Message → Type 0
  GoesOn m = continue_at (loads m.content) ≡ listen

  listened_lem :
      (b : Bool) (content : Text) (s : Stream)
      → continue_at (loads content) ≡ listen
      → ((listened loads b content s).sent ≡ with_text b content s.sent)
        × ((listened loads b content s).state ≡ s.state)
  listened_lem true content s h = rw h (refl, refl)
  listened_lem false content s h = (refl, refl)

  with_text-append :
      (b : Bool) (content : Text) (xs ys : List Text)
      → with_text b content (xs ++ ys) ≡ with_text b content xs ++ ys
  with_text-append true content xs ys = refl
  with_text-append false content xs ys = refl

  sse_generator-append :
      (before after : List Message)
      → All GoesOn before
      → ((sse_generator loads (before ++ after)).sent
          ≡ texts before ++ (sse_generator loads after).sent)
        × ((sse_generator loads (before ++ after)).state ≡ (sse_generator loads after).state)
  unfolding sse_generator
  sse_generator-append [] after h = (refl, refl)
  sse_generator-append (m ∷ ms) after (h, hs) =
      let (sent, state) = sse_generator-append ms after hs in
      let (sent', state') =
        listened_lem m.is_message m.content (sse_generator loads (ms ++ after)) h in
      (
        sent'
            ∙ ap (with_text m.is_message m.content) sent
            ∙ with_text-append m.is_message m.content (texts ms) _,
        state' ∙ state,
      )

  ends_at :
      (after : List Message) (last : Message)
      → last.is_message ≡ true
      → continue_at (loads last.content) ≡ stop
      → ((sse_generator loads (last ∷ after)).sent ≡ sse last.content ∷ [])
        × ((sse_generator loads (last ∷ after)).state ≡ stop)
  unfolding sse_generator
  ends_at after last m s = rw (m, s) (refl, refl)

  -- A stream passes on every message up to the one that ends it, with this one, and none behind
  -- it; and while none ends it, it passes all on and listens.
  pub sse_generator_lem :
      (before after : List Message) (last : Message)
      → All GoesOn before
      → last.is_message ≡ true
      → continue_at (loads last.content) ≡ stop
      → ((sse_generator loads (before ++ last ∷ after)).sent
          ≡ texts before ++ sse last.content ∷ [])
        × ((sse_generator loads (before ++ last ∷ after)).state ≡ stop)
        × ((sse_generator loads before).sent ≡ texts before)
        × ((sse_generator loads before).state ≡ listen)
  unfolding sse_generator
  sse_generator_lem before after last h m s =
      let (sent, state) = sse_generator-append before (last ∷ after) h in
      let (sent', state') = sse_generator-append before [] h in
      let ends = ends_at after last m s in
      (
        sent ∙ ap (λ ts. texts before ++ ts) ends.0,
        state ∙ ends.1,
        rw append-nil at (rw (append-nil (texts before)) at sent'),
        rw append-nil at state',
      )
