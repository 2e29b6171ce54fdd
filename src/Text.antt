-- ===== src/Text.antt =====
-- Python's str as the list of its code points, and the methods of str that the pipeline calls.
pub mod Search
pub mod Decimal
use Prim.Native.Char.{Char, code}
use Prim.Native.String.{String}
use inference_forge.Base.{
  ℕ, Bool, true, false, not, List, [], ◌∷◌, ◌++◌, leb, ◌==◌, ◌&&◌, ◌||◌, if◌then◌else◌,
}

abbrev pub Text : Type 0
Text = List ℕ

-- A literal of the source.
abbrev pub codes : String → Text
codes String.[] = []
codes (String.◌∷◌ c s) = code c ∷ codes s

-- str.isspace: what split() and strip() take for white space.
unfoldable pub is_space : ℕ → Bool
is_space c =
    leb 9 c && leb c 13
    || leb 28 c && leb c 32
    || c == 0x85
    || c == 0xa0
    || c == 0x1680
    || leb 0x2000 c && leb c 0x200a
    || c == 0x2028
    || c == 0x2029
    || c == 0x202f
    || c == 0x205f
    || c == 0x3000

abbrev pub begins_word : Text → Bool
begins_word [] = false
begins_word (c ∷ cs) = not (is_space c)

abbrev pub extend : ℕ → Bool → List Text → List Text
extend c true (w ∷ ws) = (c ∷ w) ∷ ws
extend c true [] = (c ∷ []) ∷ []
extend c false ws = (c ∷ []) ∷ ws

-- str.split() with no separator: the runs of other characters.
unfoldable pub split : Text → List Text
unfolding is_space
split [] = []
split (c ∷ cs) = let rest = split cs in if is_space c then rest else extend c (begins_word cs) rest

abbrev pub is_empty : Text → Bool
is_empty [] = true
is_empty (_ ∷ _) = false

unfoldable pub lstrip : Text → Text
unfolding is_space
lstrip [] = []
lstrip (c ∷ cs) = if is_space c then lstrip cs else c ∷ cs

-- A white character at the end is one with nothing kept behind it.
unfoldable pub rstrip : Text → Text
unfolding is_space
rstrip [] = []
rstrip (c ∷ cs) = let rest = rstrip cs in if is_space c && is_empty rest then [] else c ∷ rest

-- str.strip()
unfoldable pub strip : Text → Text
unfolding lstrip rstrip
strip t = rstrip (lstrip t)
