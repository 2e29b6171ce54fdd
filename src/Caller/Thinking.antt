-- ===== src/Caller/Thinking.antt =====
-- pipeline/caller.py: _strip_think_tags.
use inference_forge.Base.{
  ℕ, zero, suc, ◌+◌, ◌≡◌, ◌≢◌, ◌-◌, refl, inl, inr, Bool-cases, true, false, Option, none, some, [],
  ◌∷◌, length, if◌then◌else◌, arith,
}
use inference_forge.Text.{Text, codes, is_empty, strip}
use inference_forge.Text.Search.{
  starts_with, contains, find, rfind, drop, find-none, rfind-none, contains-drop,
  contains-after_last, contains-strip,
}

abbrev pub open_tag : Text
open_tag = codes "<think>"

abbrev pub close_tag : Text
close_tag = codes "</think>"

-- Where a block that begins here ends: behind the nearest closing tag, as `.*?` takes the least.
abbrev pub block_length : Text → Option ℕ
block_length t = elim (find close_tag (drop (length open_tag) t)) [
  | none ↦ none
  | some i ↦ some (length open_tag + i + length close_tag)
]

-- re.sub(r"<think>.*?</think>", "", text, flags=re.DOTALL), with so many characters still to skip.
unfoldable pub remove_blocks : ℕ → Text → Text
remove_blocks skip [] = []
remove_blocks (suc skip) (c ∷ cs) = remove_blocks skip cs
remove_blocks zero (c ∷ cs) =
    let kept = c ∷ remove_blocks 0 cs in
    elim (starts_with open_tag (c ∷ cs)) [
      | false ↦ kept
      | true ↦ elim (block_length (c ∷ cs)) [ none ↦ kept | some n ↦ remove_blocks (n - 1) cs ]
    ]

abbrev pub unless_empty : Text → Text → Text
unless_empty t other = if is_empty t then other else t

-- text[text.rfind("</think>") + len("</think>") :]
abbrev pub after_last : Option ℕ → Text → Text
after_last (some i) t = drop (i + length close_tag) t
after_last none t = drop (length close_tag - 1) t

unfoldable pub strip_think_tags : Text → Text
strip_think_tags text =
    if contains close_tag text
    then unless_empty (strip (after_last (rfind close_tag text) text)) (strip text)
    else unless_empty (strip (remove_blocks 0 text)) (strip text)

-- Without a closing tag the regular expression matches nowhere.
remove_blocks_none : (t : Text) → contains close_tag t ≡ false → remove_blocks 0 t ≡ t
unfolding remove_blocks
remove_blocks_none [] h = refl
remove_blocks_none (c ∷ cs) h =
    let later = contains-drop close_tag (c ∷ cs) 1 h in
    let nowhere =
      find-none close_tag (drop (length open_tag) (c ∷ cs))
        (contains-drop close_tag (c ∷ cs) (length open_tag) h) in
    ground (arith, remove_blocks_none cs later, nowhere)

-- The function, with no regular expression: what stands behind the last closing tag, if there is
-- one and more than white space stands there, and else the whole text; in both cases stripped.
pub strip_think_tags_lem :
    (text : Text)
    → strip_think_tags text ≡ (
        if contains close_tag text
        then unless_empty (strip (after_last (rfind close_tag text) text)) (strip text)
        else strip text)
unfolding strip_think_tags
strip_think_tags_lem text = elim (Bool-cases (contains close_tag text)) [
  | inl there ↦ rw there refl
  | inr nowhere ↦ rw (nowhere, remove_blocks_none text nowhere) (ground arith)
]

clean-unless_empty :
    (t other : Text)
    → t ≢ []
    → contains close_tag t ≡ false
    → contains close_tag (unless_empty t other) ≡ false
clean-unless_empty [] other more h = elim (more refl) [ ]
clean-unless_empty (_ ∷ _) other more h = h

-- A closing tag is left in the result only if nothing but white space stands behind the last one.
pub strip_think_tags_clean :
    (text : Text) (i : ℕ)
    → rfind close_tag text ≡ some i
    → strip (drop (i + length close_tag) text) ≢ []
    → contains close_tag (strip_think_tags text) ≡ false
unfolding strip_think_tags
strip_think_tags_clean text i e more = elim (Bool-cases (contains close_tag text)) [
  | inr nowhere ↦ let none_found = rfind-none close_tag text nowhere in cc
  | inl there ↦
      rw (there, e)
        (clean-unless_empty (strip (drop (i + length close_tag) text)) (strip text) more (
          contains-strip 60 (codes "/think>") (drop (i + length close_tag) text)
            (contains-after_last (codes "/think>") 60 text i e)))
]
