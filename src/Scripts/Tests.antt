-- ===== src/Scripts/Tests.antt =====
-- scripts/: the two scripts at work.
use inference_forge.Base.{◌≡◌, refl, true, false, none, some, [], ◌∷◌}
use inference_forge.Errors.{json_decode, ok, raise}
use inference_forge.Json.{Json, text, array, object, item, end, field, done}
use inference_forge.Text.{codes, strip, lstrip, rstrip, is_space}
use inference_forge.Text.Search.{contains}
use inference_forge.Caller.Thinking.{strip_think_tags, remove_blocks}
use inference_forge.Caller.Answer.{and_then, content_of, parse_content}
use inference_forge.Caller.Request.{Api}
use inference_forge.Scripts.{
  request_of, request, http_status, body, inner_content, shown, dump, invoice, loads_ok,
  debug_parse, debug,
}
use inference_forge.Scripts.Laws.{outcome, debug_parse_lem}

abbrev answer : Json
answer = object (
    field (codes "choices")
      (array (
        item
          (object (
            field (codes "message") (object (field (codes "content") (text (codes "{}")) done))
              done))
          end))
      done)

abbrev api : Api
api = record {
  sarvam_api_base = codes "https://api/v1";
  sarvam_model = codes "sarvam-m";
  sarvam_api_key = codes "k";
  mock_mode = false;
  mock_latency_ms = 0;
  min_interval_ms = 0;
  delay = λ i. 1;
  client = λ q now. ok (record { status_code = 200; retry_after = none; body = ok answer });
  is_success = λ n. true;
  loads = λ t. ok (object done);
  inc = λ j. ok tt;
}

dumped :
    dump api
    ≡ some (
        ok (
          request (codes "https://api/v1/chat/completions") (request_of api invoice).json
          ∷ http_status 200
          ∷ body answer
          ∷ inner_content (text (codes "{}"))
          ∷ []))
unfolding dump shown content_of
dumped = refl

debugged : debug api ≡ ok (loads_ok (object done))
unfolding debug debug_parse content_of strip_think_tags contains strip lstrip rstrip is_space
    remove_blocks
debugged = refl

debug_parse_lem_example :
    outcome (debug_parse (λ t. raise json_decode) answer)
    ≡ and_then (content_of answer) (parse_content (λ t. raise json_decode))
debug_parse_lem_example = debug_parse_lem (λ t. raise json_decode) answer
