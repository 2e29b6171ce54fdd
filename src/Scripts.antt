-- ===== src/Scripts.antt =====
-- scripts/dump_one_sarvam_roundtrip.py and scripts/debug_parse.py: one call of the live API each, and
-- what they print.
--
-- The layout of what is printed, the flushes, the timeouts and the exit of the interpreter are left
-- out. `rstrip_slash` is str.rstrip("/").
pub mod Laws
mod Tests
use inference_forge.Base.{
  ℕ, Bool, true, false, Option, none, some, List, [], ◌∷◌, ◌++◌, ◌==◌, ◌&&◌, length, if◌then◌else◌,
}
use inference_forge.Errors.{json_decode, other_exception, Result, ok, raise}
use inference_forge.Json.{Json, null, natural, number, text, array, object, item, end, field, done}
use inference_forge.Text.{Text, codes, is_empty}
use inference_forge.Caller.Thinking.{strip_think_tags}
use inference_forge.Caller.Extract.{extract_json_object}
use inference_forge.Caller.Answer.{and_then, get_or, content_of}
use inference_forge.Caller.Request.{Api, Request, Response, system_prompt, message_of}
use inference_forge.Jobs.Process.{truthy}

abbrev pub rstrip_slash : Text → Text
rstrip_slash [] = []
rstrip_slash (c ∷ cs) =
    let rest = rstrip_slash cs in if c == b'/' && is_empty rest then [] else c ∷ rest

module _ (api : Api) where
  -- The payload of both scripts.
  unfoldable pub payload : Text → Json
  payload ticket = object (
      field (codes "model") (text api.sarvam_model) (
        field (codes "messages")
          (array (
            item (message_of (codes "system") system_prompt)
              (item (message_of (codes "user") ticket) end)))
          (field (codes "max_tokens") (natural 256) (
            field (codes "temperature") (number (codes "0.2")) (
              field (codes "reasoning_effort") (text (codes "low")) (
                field (codes "response_format")
                  (object (field (codes "type") (text (codes "json_object")) done)) done))))))

  abbrev pub request_of : Text → Request
  request_of ticket = record {
    url = rstrip_slash api.sarvam_api_base ++ codes "/chat/completions";
    json = payload ticket;
    api_subscription_key = api.sarvam_api_key;
  }

-- What dump_one_sarvam_roundtrip.py prints of the request and the response; `raw_text` is the first
-- 8000 characters of the response.
pub data Printed : Type 0 where
  request : (url : Text) → Json → Printed
  http_status : ℕ → Printed
  body : Json → Printed
  inner_content : Json → Printed
  raw_text : Printed

-- Behind the body: within the try statement, whose handler prints the text.
abbrev pub shown_content : Result Json → List Printed
shown_content (ok content) = inner_content content ∷ []
shown_content (raise _) = raw_text ∷ []

abbrev pub if_choices : Json → Result Json → List Printed
if_choices b (raise _) = raw_text ∷ []
if_choices b (ok choices) = if truthy (some choices) then shown_content (content_of b) else []

abbrev pub shown_body : ℕ → Result Json → List Printed
shown_body status (raise _) = raw_text ∷ []
shown_body status (ok b) =
    body b ∷ (if status == 200 then if_choices b (get_or (codes "choices") null b) else [])

unfoldable pub shown : Response → List Printed
shown r = http_status r.status_code ∷ shown_body r.status_code r.body

abbrev pub printed : Request → Result Response → Result (List Printed)
printed q (raise e) = raise e
printed q (ok r) = ok (request q.url q.json ∷ shown r)

abbrev pub invoice : Text
invoice = codes "My invoice is wrong."

-- None is the exit with the code 2 in mock mode. What was printed before an exception of the POST
-- is left out.
unfoldable pub dump : Api → Option (Result (List Printed))
dump api =
    let q = request_of api invoice in
    if api.mock_mode then none else some (printed q (api.client q 0))

-- What debug_parse.py prints last.
pub data Verdict : Type 0 where
  loads_ok : Json → Verdict
  extract_ok : Json → Verdict
  extract_failed : Verdict

module _ (loads : Text → Result Json) where
  abbrev pub extracted : Result Json → Result Verdict
  extracted (ok result) = ok (extract_ok result)
  extracted (raise json_decode) = ok extract_failed
  extracted (raise e) = raise e

  abbrev pub loaded : Text → Result Json → Result Verdict
  loaded content (ok result) = ok (loads_ok result)
  loaded content (raise json_decode) = extracted (extract_json_object loads content)
  loaded content (raise e) = raise e

  -- len, `in` or re.sub raises for a content that is no text.
  abbrev pub judged : Json → Result Verdict
  judged (text content) = loaded content (loads (strip_think_tags content))
  judged _ = raise (other_exception "TypeError")

  unfoldable pub debug_parse : Json → Result Verdict
  debug_parse answer = and_then (content_of answer) judged

abbrev pub warmup : Text
warmup = codes "Warmup ticket."

-- debug_parse.py, whose status of the response decides nothing.
unfoldable pub debug : Api → Result Verdict
debug api =
    and_then (api.client (request_of api warmup) 0) (λ r. and_then r.body (debug_parse api.loads))
