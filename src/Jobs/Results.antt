-- ===== src/Jobs/Results.antt =====
-- api/routes.py: get_results and _sse_generator, over the store of Store.
use inference_forge.Base.{
  Bool, true, false, not, Option, none, some, List, [], ◌∷◌, ◌++◌, ◌==◌, keep, if◌then◌else◌,
}
use inference_forge.Base.Fraction.{Fraction}
use inference_forge.Errors.{Error, other_exception, json_decode, Result, ok, raise}
use inference_forge.Json.{Json, text, object, Fields, get, same_text}
use inference_forge.Text.{Text, codes, is_empty}
use inference_forge.Jobs.Store.{
  Hash, Job, JobStatus, pending, processing, done, failed, get_state, get_results,
}
use inference_forge.Jobs.Process.{is_error}

-- A ResultsResponse; `reason` stands in its stats. The progress is not rounded.
pub record Response : Type 0 where
  pub status : JobStatus
  pub progress : Option Fraction
  pub results : Option (List Fields)
  pub failures : Option (List Fields)
  pub reason : Option Text

-- The 404, a response, or an exception, which FastAPI answers with a 500.
pub data Reply : Type 0 where
  not_found : Reply
  reply : Response → Reply
  crash : Error → Reply

abbrev pub or_default {ℓ} : {A : Type ℓ} → A → Option A → A
or_default d none = d
or_default d (some a) = a

-- completed / total if total else 0.0
abbrev pub progress_of : Hash → Fraction
progress_of h =
    let total = or_default 1 h.total in
    if total == 0
    then record { num = 0; den = 1 }
    else record { num = or_default 0 h.completed; den = total }

abbrev pub if_any : List Fields → Option (List Fields)
if_any [] = none
if_any (d ∷ ds) = some (d ∷ ds)

-- Without the results, which may have expired, iterating over None is a TypeError.
abbrev pub split_results : Option (List Fields) → Reply
split_results none = crash (other_exception "TypeError")
split_results (some all) = reply (record {
  status = done;
  progress = none;
  results = some (keep (λ r. not (is_error r)) all);
  failures = if_any (keep is_error all);
  reason = none;
})

-- state.get("error", "") or "unknown_error"
abbrev pub reason_of : Option Text → Text
reason_of none = codes "unknown_error"
reason_of (some t) = if is_empty t then codes "unknown_error" else t

abbrev pub in_progress : JobStatus → Hash → Reply
in_progress status h = reply (record {
  status = status;
  progress = some (progress_of h);
  results = none;
  failures = none;
  reason = none;
})

abbrev pub by_status : JobStatus → Hash → Job → Reply
by_status done h j = split_results (get_results j)
by_status failed h j = reply (record {
  status = failed;
  progress = some (progress_of h);
  results = none;
  failures = none;
  reason = some (reason_of h.error);
})
by_status pending h j = in_progress pending h
by_status processing h j = in_progress processing h

unfoldable pub results_of : Job → Reply
results_of j = elim (get_state j) [
  | none ↦ not_found
  | some h ↦ by_status (or_default pending h.status) h j
]

-- A message of the channel; those of another type are about the subscription.
pub record Message : Type 0 where
  pub is_message : Bool
  pub content : Text

-- How a stream goes on behind a message that it passed on.
pub data Continue : Type 0 where
  listen stop : Continue
  broken : Error → Continue

abbrev pub is_done : Option Json → Bool
is_done (some (text status)) = same_text status (codes "done")
is_done _ = false

-- Of a value that is no dict, `.get` is an AttributeError.
abbrev pub continue_at : Result Json → Continue
continue_at (raise json_decode) = listen
continue_at (raise e) = broken e
continue_at (ok (object d)) = if is_done (get (codes "status") d) then stop else listen
continue_at (ok _) = broken (other_exception "AttributeError")

-- What a client receives, and what ended the stream: nothing yet while it listens.
pub record Stream : Type 0 where
  pub sent : List Text
  pub state : Continue

abbrev pub sse : Text → Text
sse content = codes "data: " ++ content ++ 10 ∷ 10 ∷ []

module _ (loads : Text → Result Json) where
  abbrev pub passed_on : Text → Stream → Stream
  passed_on content s = record s { sent = sse content ∷ s.sent }

  abbrev pub go_on : Continue → Stream → Stream
  go_on listen s = s
  go_on stop s = record { sent = []; state = stop }
  go_on (broken e) s = record { sent = []; state = broken e }

  abbrev pub listened : Bool → Text → Stream → Stream
  listened false content rest = rest
  listened true content rest = passed_on content (go_on (continue_at (loads content)) rest)

  unfoldable pub sse_generator : List Message → Stream
  sse_generator [] = record { sent = []; state = listen }
  sse_generator (m ∷ ms) = listened m.is_message m.content (sse_generator ms)
