-- ===== src/Caller/Extract.antt =====
-- pipeline/caller.py: _extract_json_object, over any json.loads.
use inference_forge.Base.{
  ℕ, zero, suc, true, false, Option, none, some, [], ◌∷◌, ◌==◌, length, if◌then◌else◌,
}
use inference_forge.Errors.{json_decode, Result, ok, raise}
use inference_forge.Text.{Text, is_empty}
use inference_forge.Caller.Thinking.{strip_think_tags}

abbrev pub opening : ℕ
opening = 0x7b

abbrev pub closing : ℕ
closing = 0x7d

-- A block and what stands behind it.
pub record Block : Type 0 where
  pub candidate : Text
  pub behind : Text

abbrev pub with_char : ℕ → Option Block → Option Block
with_char c none = none
with_char c (some b) = some (record { candidate = c ∷ b.candidate; behind = b.behind })

-- The inner loop, behind its first brace, to the brace that takes the depth to zero. The loop's
-- depth is suc above.
unfoldable pub balanced : ℕ → Text → Option Block
balanced above [] = none
balanced above (c ∷ cs) = with_char c (elim (c == opening) [
  | true ↦ balanced (suc above) cs
  | false ↦ elim (c == closing) [
    | false ↦ balanced above cs
    | true ↦ elim above [
      | zero ↦ some (record { candidate = []; behind = cs })
      | suc rest ↦ balanced rest cs
    ]
  ]
])

-- cleaned if cleaned else text
abbrev pub searched : Text → Text
searched text = let cleaned = strip_think_tags text in if is_empty cleaned then text else cleaned

-- except json.JSONDecodeError: the search goes on; what else json.loads raises escapes.
abbrev pub or_later {ℓ} : {V : Type ℓ} → Result V → Result V → Result V
or_later (ok v) later = ok v
or_later (raise json_decode) later = later
or_later (raise e) later = raise e

module _ {ℓ} {V : Type ℓ} (loads : Text → Result V) where
  -- The outer loop from search_start on. Behind a candidate that does not parse, its characters
  -- are skipped: search_start = idx + 1.
  unfoldable pub extract_from : ℕ → Text → Result V
  extract_from skip [] = raise json_decode
  extract_from (suc skip) (c ∷ cs) = extract_from skip cs
  extract_from zero (c ∷ cs) = elim (c == opening) [
    | false ↦ extract_from zero cs
    | true ↦ elim (balanced 0 cs) [
      | none ↦ raise json_decode
      | some b ↦ or_later (loads (c ∷ b.candidate)) (extract_from (length b.candidate) cs)
    ]
  ]

  unfoldable pub extract_json_object : Text → Result V
  extract_json_object text = extract_from 0 (searched text)
