-- ===== src/Caller/Request.antt =====
-- pipeline/caller.py: _single_api_call up to the response, and the throttle on its calls.
--
-- Time is in nanoseconds. `delay i` is how long it takes from one reading of the clock to the
-- next, number `i`, beyond the sleep between the two, a response's time included: the clock never
-- runs backwards and a sleep is never short. The lock makes each passage of the throttle one step.
-- `client` is the POST, which sees the time, with the response's body as response.json() gives it,
-- `is_success` httpx's test of a status, and `inc` whether prometheus_client takes the tokens for
-- its counter, which refuses a value that is no number or a negative one. The logs are left out,
-- and of the metrics all but this refusal.
use Prim.Native.String.{String}
use inference_forge.Base.{
  ℕ, suc, ◌+◌, ◌-◌, ◌*◌, Bool, true, false, Option, List, ◌∷◌, ltb, ◌++◌, if◌then◌else◌,
}
use inference_forge.Errors.{http_status, Result, ok, raise}
use inference_forge.Json.{Json, natural, number, text, array, object, item, end, field, done}
use inference_forge.Text.{Text, codes}
use inference_forge.Caller.Answer.{and_then, parse_answer}

-- The module's _last_call_ts, with the time, the number of readings made, and the times at which
-- client.post was called, newest first.
pub record Throttle : Type 0 where
  pub last_call_ts : ℕ
  pub posts : List ℕ
  pub time : ℕ
  pub reads : ℕ

pub record Response : Type 0 where
  pub status_code : ℕ
  pub retry_after : Option String
  pub body : Result Json

-- The arguments of client.post; the header is api-subscription-key.
pub record Request : Type 0 where
  pub url : Text
  pub json : Json
  pub api_subscription_key : Text

pub record Api : Type 0 where
  pub sarvam_api_base : Text
  pub sarvam_model : Text
  pub sarvam_api_key : Text
  pub mock_mode : Bool
  pub mock_latency_ms : ℕ
  pub min_interval_ms : ℕ
  pub delay : ℕ → ℕ
  pub client : Request → ℕ → Result Response
  pub is_success : ℕ → Bool
  pub loads : Text → Result Json
  pub inc : Json → Result (Unit {0})

abbrev pub milliseconds : ℕ → ℕ
milliseconds n = n * 1000000

-- SYSTEM_PROMPT
abbrev pub system_prompt : Text
system_prompt =
    codes "You are a support ticket classifier. Respond ONLY in valid JSON, no markdown, "
    ++ codes "no explanation: "
    ++ codes
        "{\"category\": \"<one of: hardware_issue|software_issue|model_quality|billing|other>\", "
    ++ codes "\"priority\": \"<one of: low|medium|high|critical>\", "
    ++ codes "\"summary\": \"<one sentence, max 20 words>\"}"

abbrev pub message_of : Text → Text → Json
message_of role content =
    object (field (codes "role") (text role) (field (codes "content") (text content) done))

module _ (api : Api) where
  unfoldable pub payload : Text → Json
  payload ticket = object (
      field (codes "model") (text api.sarvam_model) (
        field (codes "messages")
          (array (
            item (message_of (codes "system") system_prompt)
              (item (message_of (codes "user") ticket) end)))
          (field (codes "max_tokens") (natural 1024) (
            field (codes "temperature") (number (codes "0.2")) (
              field (codes "reasoning_effort") (text (codes "low")) (
                field (codes "response_format")
                  (object (field (codes "type") (text (codes "json_object")) done)) done))))))

  abbrev pub request_of : Text → Request
  request_of ticket = record {
    url = api.sarvam_api_base ++ codes "/chat/completions";
    json = payload ticket;
    api_subscription_key = api.sarvam_api_key;
  }

  abbrev pub monotonic : Throttle → Throttle
  monotonic s = record s { time = s.time + api.delay s.reads; reads = suc s.reads }

  abbrev pub sleep : ℕ → Throttle → Throttle
  sleep n s = record s { time = s.time + n }

  -- The body of `async with _rate_limit_lock`. `wait` is min_interval - (now - _last_call_ts), and
  -- a wait of 0 is what `if wait > 0` leaves of a negative one.
  unfoldable pub pass_lock : Throttle → Throttle
  pass_lock s =
      let now = monotonic s in
      let wait = s.last_call_ts + milliseconds api.min_interval_ms - now.time in
      let after = monotonic (sleep wait now) in record after { last_call_ts = after.time }

  unfoldable pub throttle : Throttle → Throttle
  unfolding pass_lock
  throttle s = if ltb 0 api.min_interval_ms then pass_lock s else s

  abbrev pub mock_answer : Json × Json
  mock_answer = (
    object (
        field (codes "category") (text (codes "other")) (
          field (codes "priority") (text (codes "low"))
            (field (codes "summary") (text (codes "Mock classification response.")) done))),
    natural 0,
  )

  -- response.raise_for_status()
  abbrev pub checked : Response → Result Response
  checked r =
      if api.is_success r.status_code then ok r else raise (http_status r.status_code r.retry_after)

  -- record_api_call(status="success", ...), which counts the tokens.
  abbrev pub recorded : Json × Json → Result (Json × Json)
  recorded (result, total_tokens) = and_then (api.inc total_tokens) (λ x. ok (result, total_tokens))

  abbrev pub answered : Result Response → Result (Json × Json)
  answered sent = and_then sent (λ r.
      and_then (checked r)
        (λ r'. and_then r'.body (λ body. and_then (parse_answer api.loads body) recorded)))

  -- start = time.monotonic(), client.post and the reading behind it, which elapsed_ms takes.
  abbrev pub post : Text → Throttle → Result Response × Throttle
  post ticket s =
      let start = monotonic s in
      (
        api.client (request_of ticket) start.time,
        monotonic (record start { posts = start.time ∷ start.posts }),
      )

  unfoldable pub single_api_call : Text → Throttle → Result (Json × Json) × Throttle
  unfolding throttle
  single_api_call ticket s = elim api.mock_mode [
    | true ↦ (ok mock_answer, sleep (milliseconds api.mock_latency_ms) s)
    | false ↦ let (r, s') = post ticket (throttle s) in (answered r, s')
  ]
