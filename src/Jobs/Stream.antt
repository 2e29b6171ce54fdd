-- ===== src/Jobs/Stream.antt =====
-- api/routes.py and pipeline/job_store.py: stream_job, over the events that a job published.
--
-- `dumps` is json.dumps, and `decimal` the literal of a rounded float. Redis keeps no message of a
-- channel: a subscriber gets what is published behind its subscription, `k` events after the first.
-- The first message is about the subscription itself.
use inference_forge.Base.{
  ℕ, zero, suc, ◌≤◌, ◌≡◌, refl, sym, ap, true, false, Option, none, some, List, [], ◌∷◌, ◌++◌,
  length, All, arith,
}
use inference_forge.Base.Fraction.{Fraction}
use inference_forge.Errors.{Result, ok}
use inference_forge.Json.{
  Json, natural, number, text, array, object, Items, end, item, Fields, field,
}
use inference_forge.Json
use inference_forge.Text.{Text, codes}
use inference_forge.Jobs.Store.{Event, progress, finished, Stats, Job, exists}
use inference_forge.Jobs.Quiet.{IsProgress}
use inference_forge.Jobs.Results.{Message, Stream, stop, sse, continue_at, sse_generator}
use inference_forge.Jobs.Answers.{texts, GoesOn, sse_generator_lem}

abbrev pub items_of : List Fields → Items
items_of [] = end
items_of (d ∷ ds) = item (object d) (items_of ds)

abbrev pub drop {ℓ} : {A : Type ℓ} → ℕ → List A → List A
drop zero xs = xs
drop (suc n) [] = []
drop (suc n) (x ∷ xs) = drop n xs

module _ (decimal : Fraction → Text) (dumps : Json → Text) (loads : Text → Result Json) where
  abbrev pub float : Fraction → Json
  float q = number (decimal q)

  -- The dict `stats`.
  abbrev pub stats_json : Stats → Fields
  stats_json s = field (codes "total_tokens") s.total_tokens (
      field (codes "cost_usd") (float s.cost_usd) (
        field (codes "p50_ms") (float s.p50_ms) (
          field (codes "p95_ms") (float s.p95_ms) (
            field (codes "p99_ms") (float s.p99_ms) (
              field (codes "cache_hit_rate") (float s.cache_hit_rate) (
                field (codes "failure_rate") (float s.failure_rate)
                  (field (codes "duration_seconds") (float s.duration_seconds) Json.done)))))))

  abbrev pub fields_of : Event → Fields
  fields_of (progress completed total cache_hits failed eta_seconds) =
      field (codes "completed") (natural completed) (
        field (codes "total") (natural total) (
          field (codes "cache_hits") (natural cache_hits) (
            field (codes "failed") (natural failed)
              (field (codes "eta_seconds") (number (decimal eta_seconds)) Json.done))))
  fields_of (finished results stats) = field (codes "status") (text (codes "done")) (
      field (codes "results") (array (items_of results))
        (field (codes "stats") (object (stats_json stats)) Json.done))

  abbrev pub payload : Event → Json
  payload e = object (fields_of e)

  abbrev pub message : Event → Message
  message e = record { is_message = true; content = dumps (payload e) }

  abbrev pub messages : List Event → List Message
  messages [] = []
  messages (e ∷ es) = message e ∷ messages es

  abbrev pub subscribed : Message
  subscribed = record { is_message = false; content = [] }

  -- The events as a client reads them.
  abbrev pub frames : List Event → List Text
  frames [] = []
  frames (e ∷ es) = sse (dumps (payload e)) ∷ frames es

  -- The 404, or the stream of a client that subscribes behind the first `k` events.
  unfoldable pub stream_job : ℕ → Job → Option Stream
  stream_job k j = elim (exists j) [
    | false ↦ none
    | true ↦ some (sse_generator loads (subscribed ∷ messages (drop k j.events)))
  ]

  -- json.loads of a dumped payload is a dict with the same status, or with none.
  abbrev pub ReadsBack : Type 0
  ReadsBack =
      (e : Event)
      → (d : Fields) × ((loads (dumps (payload e)) ≡ ok (object d))
          × (Json.get (codes "status") d ≡ Json.get (codes "status") (fields_of e)))

  module _ (reads : ReadsBack) where
    progress-GoesOn : (e : Event) → IsProgress e → GoesOn loads (message e)
    progress-GoesOn (progress completed total cache_hits failed eta) h =
        let (d, (e, same)) = reads (progress completed total cache_hits failed eta) in
        rw (e, same) refl
    progress-GoesOn (finished results stats) h = absurd h

    messages-GoesOn : (es : List Event) → All IsProgress es → All (GoesOn loads) (messages es)
    messages-GoesOn [] h = tt
    messages-GoesOn (e ∷ es) (h, hs) = (progress-GoesOn e h, messages-GoesOn es hs)

    finished-stop :
        (results : List Fields) (stats : Stats)
        → continue_at (loads (message (finished results stats)).content) ≡ stop
    finished-stop results stats =
        let (d, (e, same)) = reads (finished results stats) in rw (e, same) refl

    texts-messages : (es : List Event) → texts (messages es) ≡ frames es
    texts-messages [] = refl
    texts-messages (e ∷ es) = ap (λ ts. sse (dumps (payload e)) ∷ ts) (texts-messages es)

    messages-append :
        (es : List Event) (e : Event) → messages (es ++ e ∷ []) ≡ messages es ++ message e ∷ []
    messages-append [] e = refl
    messages-append (x ∷ es) e = ap (λ ms. message x ∷ ms) (messages-append es e)

    -- The events behind the first `k`, the last of which is the final one.
    pub streamed :
        (es : List Event) (results : List Fields) (stats : Stats)
        → All IsProgress es
        → ((sse_generator loads (messages (es ++ finished results stats ∷ []))).sent
            ≡ frames es ++ sse (dumps (payload (finished results stats))) ∷ [])
          × ((sse_generator loads (messages (es ++ finished results stats ∷ []))).state ≡ stop)
    streamed es results stats h =
        let last = finished results stats in
        let s =
          sse_generator_lem loads (messages es) [] (message last) (messages-GoesOn es h) refl
            (finished-stop results stats) in
        rw (messages-append, sym (texts-messages es)) (s.0, s.1)

module _ {ℓ} {A : Type ℓ} where
  pub drop-early :
      (k : ℕ) (xs : List A) (x : A) → k ≤ length xs → drop k (xs ++ x ∷ []) ≡ drop k xs ++ x ∷ []
  drop-early zero xs x h = refl
  drop-early (suc k) [] x h = absurd (omega (arith, h))
  drop-early (suc k) (y ∷ xs) x h = drop-early k xs x (omega (arith, h))

  pub drop-late : (k : ℕ) (xs : List A) → length xs ≤ k → drop k xs ≡ []
  drop-late zero [] h = refl
  drop-late zero (x ∷ xs) h = absurd (omega (arith, h))
  drop-late (suc k) [] h = refl
  drop-late (suc k) (x ∷ xs) h = drop-late k xs (omega (arith, h))

  pub All-drop {κ} : (P : A → Type κ) (k : ℕ) (xs : List A) → All P xs → All P (drop k xs)
  All-drop P zero xs h = h
  All-drop P (suc k) [] h = tt
  All-drop P (suc k) (x ∷ xs) h = All-drop P k xs h.1
