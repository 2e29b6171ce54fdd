-- ===== src/Caller/Answer.antt =====
-- pipeline/caller.py: _single_api_call from the response's body on, with no mock mode.
use inference_forge.Base.{none, some, [], ◌∷◌}
use inference_forge.Errors.{json_decode, other_exception, Result, ok, raise}
use inference_forge.Json.{Json, text, natural, array, object, item, end, done, get}
use inference_forge.Text.{Text, codes}
use inference_forge.Caller.Thinking.{strip_think_tags}
use inference_forge.Caller.Extract.{extract_json_object}

abbrev pub and_then {ℓ κ} : {A : Type ℓ} {B : Type κ} → Result A → (A → Result B) → Result B
and_then (ok a) next = next a
and_then (raise e) next = raise e

-- value[key] with a text as the key
abbrev pub at_key : Text → Json → Result Json
at_key key (object d) = elim (get key d) [
  | none ↦ raise (other_exception "KeyError")
  | some v ↦ ok v
]
at_key key _ = raise (other_exception "TypeError")

-- value[0]. A dict has no key 0; the first character of a text is a text.
abbrev pub at_zero : Json → Result Json
at_zero (array (item v _)) = ok v
at_zero (array end) = raise (other_exception "IndexError")
at_zero (object _) = raise (other_exception "KeyError")
at_zero (text (c ∷ _)) = ok (text (c ∷ []))
at_zero (text []) = raise (other_exception "IndexError")
at_zero _ = raise (other_exception "TypeError")

-- value.get(key, default): only a dict has the method.
abbrev pub get_or : Text → Json → Json → Result Json
get_or key default (object d) = elim (get key d) [ none ↦ ok default | some v ↦ ok v ]
get_or key default _ = raise (other_exception "AttributeError")

-- data["choices"][0]["message"]["content"]
unfoldable pub content_of : Json → Result Json
content_of body = and_then (at_key (codes "choices") body) (λ choices.
    and_then (at_zero choices)
      (λ first. and_then (at_key (codes "message") first) (at_key (codes "content"))))

unfoldable pub total_tokens_of : Json → Result Json
total_tokens_of body =
    and_then (get_or (codes "usage") (object done) body) (get_or (codes "total_tokens") (natural 0))

module _ (loads : Text → Result Json) where
  -- try: json.loads(content_clean) except json.JSONDecodeError
  abbrev pub or_extract : Result Json → Text → Result Json
  or_extract (raise json_decode) content = extract_json_object loads content
  or_extract r content = r

  -- Of a content that is no text, `in`, rfind or re.sub raises; it is a TypeError but for a list or
  -- a dict that has the tag (an AttributeError), and the caller tells the two apart nowhere.
  unfoldable pub parse_content : Json → Result Json
  parse_content (text content) = or_extract (loads (strip_think_tags content)) content
  parse_content _ = raise (other_exception "TypeError")

  unfoldable pub parse_answer : Json → Result (Json × Json)
  unfolding content_of total_tokens_of parse_content
  parse_answer body = and_then (content_of body) (λ content.
      and_then (total_tokens_of body)
        (λ total_tokens. and_then (parse_content content) (λ result. ok (result, total_tokens))))
