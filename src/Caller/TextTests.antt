-- ===== src/Caller/TextTests.antt =====
-- pipeline/caller.py: the theorems on the text of an answer at work.
use inference_forge.Base.{◌+◌, ◌≡◌, ◌≢◌, refl, true, false, none, some, [], ◌∷◌, ◌++◌, length}
use inference_forge.Errors.{json_decode, Result, ok, raise}
use inference_forge.Text.{Text, codes, strip, lstrip, rstrip, is_space}
use inference_forge.Text.Search.{contains, rfind, drop}
use inference_forge.Json.{Json, natural, text, object, Fields, done, field, put, without}
use inference_forge.Json
use inference_forge.Caller.Thinking.{close_tag, strip_think_tags, remove_blocks}
use inference_forge.Caller.Extract.{searched, balanced, extract_json_object, opening, closing}
use inference_forge.Caller.Blocks.{extract_json_object_lem}

abbrev thought : Text
thought = codes "<think>a</think>b"

left : rfind close_tag thought ≡ some 8
unfolding rfind
left = refl

more : strip (drop (8 + length close_tag) thought) ≢ []
unfolding strip lstrip rstrip is_space
more h = cc

-- json.loads of the texts below.
abbrev loads : Text → Result Json
loads t = elim (Json.same_text t (codes "{1}")) [
  | true ↦ ok (object done)
  | false ↦ raise json_decode
]

abbrev prose : Text
prose = codes "So: {1} {"

prose_found : searched prose ≡ codes "So: " ++ opening ∷ (codes "1" ++ closing ∷ codes " {")
unfolding strip_think_tags contains strip lstrip rstrip is_space remove_blocks
prose_found = refl

reads : extract_json_object loads prose ≡ ok (object done)
reads =
    extract_json_object_lem loads prose (codes "So: ") (codes "1") (codes " {") (object done)
      prose_found refl refl refl refl

abbrev unbalanced : Text
unbalanced = codes "{ {1}"

unbalanced_found : searched unbalanced ≡ codes "" ++ opening ∷ codes " {1}"
unfolding strip_think_tags contains strip lstrip rstrip is_space remove_blocks
unbalanced_found = refl

never : balanced 0 (codes " {1}") ≡ none
unfolding balanced
never = refl
