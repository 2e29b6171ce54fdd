-- ===== src/Scripts/Laws.antt =====
-- scripts/: what the debugging scripts show of the caller's own request and parsing.
use inference_forge.Base.{ℕ, ◌≡◌, refl, ap, false, [], ◌∷◌, ◌++◌, ◌==◌, arith}
use inference_forge.Errors.{
  circuit_breaker_open, http_status, json_decode, value_error, other_exception, cancelled, Result,
  ok, raise,
}
use inference_forge.Json.{Json, null, boolean, natural, number, text, array, object, put}
use inference_forge.Text.{Text, codes}
use inference_forge.Caller.Thinking.{strip_think_tags}
use inference_forge.Caller.Extract.{extract_json_object}
use inference_forge.Caller.Answer.{and_then, content_of, or_extract, parse_content}
use inference_forge.Caller.Request
use inference_forge.Caller.Request.{Api, Request}
use inference_forge.Scripts.{
  rstrip_slash, payload, request_of, Verdict, loads_ok, extract_ok, extract_failed, extracted,
  loaded, judged, debug_parse,
}

-- d["max_tokens"] = n
abbrev pub with_max_tokens : ℕ → Json → Json
with_max_tokens n (object d) = object (put (codes "max_tokens") (natural n) d)
with_max_tokens n j = j

-- A text that ends with a character other than a slash.
abbrev pub EndsOtherwise : Text → Type 0
EndsOtherwise t = (s : Text) × ((c : ℕ) × ((t ≡ s ++ c ∷ []) × ((c == b'/') ≡ false)))

rstrip_slash-last :
    (s : Text) (c : ℕ) → (c == b'/') ≡ false → rstrip_slash (s ++ c ∷ []) ≡ s ++ c ∷ []
rstrip_slash-last [] c h = ground arith
rstrip_slash-last (d ∷ []) c h = ground arith
rstrip_slash-last (d ∷ e ∷ ds) c h = rw (rstrip_slash-last (e ∷ ds) c h) (ground arith)

module _ (api : Api) (ticket : Text) where
  payload_lem : payload api ticket ≡ with_max_tokens 256 (Request.payload api ticket)
  unfolding payload Request.payload
  payload_lem = refl

  -- The request of the scripts is the caller's for the same ticket, but for max_tokens, and for the
  -- address if sarvam_api_base ends with a slash.
  pub request_of_lem :
      EndsOtherwise api.sarvam_api_base
      → request_of api ticket ≡ record (Request.request_of api ticket) {
        json = with_max_tokens 256 (Request.payload api ticket);
      }
  request_of_lem (s, (c, (e, h))) = rw (payload_lem) (
      ap
        (λ base. record (Request.request_of api ticket) {
          url = base ++ codes "/chat/completions";
          json = with_max_tokens 256 (Request.payload api ticket);
        })
        (rw e (rstrip_slash-last s c h)))

-- The outcome that a verdict tells.
abbrev pub outcome : Result Verdict → Result Json
outcome (ok (loads_ok result)) = ok result
outcome (ok (extract_ok result)) = ok result
outcome (ok extract_failed) = raise json_decode
outcome (raise e) = raise e

module _ (loads : Text → Result Json) where
  extracted-outcome : (r : Result Json) → outcome (extracted loads r) ≡ r
  extracted-outcome (ok v) = refl
  extracted-outcome (raise json_decode) = refl
  extracted-outcome (raise circuit_breaker_open) = refl
  extracted-outcome (raise (http_status n after)) = refl
  extracted-outcome (raise value_error) = refl
  extracted-outcome (raise (other_exception name)) = refl
  extracted-outcome (raise cancelled) = refl

  loaded-outcome :
      (content : Text) (r : Result Json)
      → outcome (loaded loads content r) ≡ or_extract loads r content
  loaded-outcome content (ok v) = refl
  loaded-outcome content (raise json_decode) = extracted-outcome (extract_json_object loads content)
  loaded-outcome content (raise circuit_breaker_open) = refl
  loaded-outcome content (raise (http_status n after)) = refl
  loaded-outcome content (raise value_error) = refl
  loaded-outcome content (raise (other_exception name)) = refl
  loaded-outcome content (raise cancelled) = refl

  judged-outcome : (content : Json) → outcome (judged loads content) ≡ parse_content loads content
  unfolding parse_content
  judged-outcome (text content) = loaded-outcome content (loads (strip_think_tags content))
  judged-outcome null = refl
  judged-outcome (boolean b) = refl
  judged-outcome (natural n) = refl
  judged-outcome (number t) = refl
  judged-outcome (array is) = refl
  judged-outcome (object d) = refl

  -- The verdict of debug_parse.py on an answer is what the caller makes of its content, whatever
  -- json.loads does.
  pub debug_parse_lem :
      (answer : Json)
      → outcome (debug_parse loads answer) ≡ and_then (content_of answer) (parse_content loads)
  unfolding debug_parse
  debug_parse_lem answer = of_content (content_of answer)
    where
      of_content :
          (r : Result Json) → outcome (and_then r (judged loads)) ≡ and_then r (parse_content loads)
      of_content (ok content) = judged-outcome content
      of_content (raise e) = refl
