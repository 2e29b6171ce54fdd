-- ===== src/Text/Search.antt =====
-- Searching a text for another: `in`, find and rfind, over suffixes.
use native.Mathlib.Nat.{zero-add, suc-add}
use inference_forge.Base.{
  ℕ, zero, suc, ◌+◌, ◌≡◌, inl, inr, Bool-cases, Bool, true, false, Option, none, some, [], ◌∷◌,
  ◌==◌, ◌&&◌, ◌||◌, length, if◌then◌else◌, arith,
}
use inference_forge.Text.{Text, is_empty, is_space, lstrip, rstrip, strip}

abbrev pub starts_with : Text → Text → Bool
starts_with [] t = true
starts_with (s ∷ ss) [] = false
starts_with (s ∷ ss) (c ∷ cs) = s == c && starts_with ss cs

-- `s in t`
unfoldable pub contains : Text → Text → Bool
contains s [] = is_empty s
contains s (c ∷ cs) = starts_with s (c ∷ cs) || contains s cs

-- t.find(s)
unfoldable pub find : Text → Text → Option ℕ
find s [] = if is_empty s then some 0 else none
find s (c ∷ cs) =
    let later = find s cs in
    if starts_with s (c ∷ cs) then some 0 else elim later [ none ↦ none | some i ↦ some (suc i) ]

-- t.rfind(s)
unfoldable pub rfind : Text → Text → Option ℕ
rfind s [] = if is_empty s then some 0 else none
rfind s (c ∷ cs) = elim (rfind s cs) [
  | some i ↦ some (suc i)
  | none ↦ if starts_with s (c ∷ cs) then some 0 else none
]

abbrev pub drop : ℕ → Text → Text
drop zero t = t
drop (suc n) [] = []
drop (suc n) (c ∷ cs) = drop n cs

-- The searches agree on whether there is an occurrence.
pub find-none : (s t : Text) → contains s t ≡ false → find s t ≡ none
unfolding contains find
find-none s [] h = ground arith
find-none s (c ∷ cs) h = ground (arith, find-none s cs)

pub rfind-none : (s t : Text) → contains s t ≡ false → rfind s t ≡ none
unfolding contains rfind
rfind-none s [] h = ground arith
rfind-none s (c ∷ cs) h = ground (arith, rfind-none s cs)

pub rfind-some : (s t : Text) → contains s t ≡ true → (i : ℕ) × (rfind s t ≡ some i)
unfolding contains rfind
rfind-some s [] h = (0, ground arith)
rfind-some s (c ∷ cs) h = elim (Bool-cases (contains s cs)) [
  | inl there ↦ let (i, e) = rfind-some s cs there in (suc i, ground arith)
  | inr only ↦ (0, ground (arith, rfind-none s cs only))
]

-- A suffix has no occurrence that the whole has not.
pub contains-drop : (s t : Text) (n : ℕ) → contains s t ≡ false → contains s (drop n t) ≡ false
contains-drop s t zero h = h
contains-drop s [] (suc n) h = h
contains-drop s (c ∷ cs) (suc n) h = contains-drop s cs n (unfold contains in ground arith)

not_rfind : (s t : Text) → rfind s t ≡ none → contains s t ≡ false
not_rfind s t e = elim (Bool-cases (contains s t)) [
  | inl there ↦ let (i, f) = rfind-some s t there in cc
  | inr no_more ↦ no_more
]

-- Behind the last occurrence there is none.
pub contains-after_last :
    (s : Text) (c : ℕ) (t : Text) (i : ℕ)
    → rfind (c ∷ s) t ≡ some i
    → contains (c ∷ s) (drop (i + length (c ∷ s)) t) ≡ false
unfolding rfind
contains-after_last s c [] i e = cc
contains-after_last s c (d ∷ ds) zero e =
    rw zero-add (contains-drop (c ∷ s) ds (length s) (not_rfind (c ∷ s) ds (ground arith)))
contains-after_last s c (d ∷ ds) (suc i) e =
    rw suc-add (contains-after_last s c ds i (ground arith))

-- Stripping makes no occurrence.
contains-lstrip : (s t : Text) → contains s t ≡ false → contains s (lstrip t) ≡ false
unfolding lstrip
contains-lstrip s [] h = h
contains-lstrip s (c ∷ cs) h = elim (Bool-cases (is_space c)) [
  | inl white ↦ rw (white, lstrip) (contains-lstrip s cs (contains-drop s (c ∷ cs) 1 h))
  | inr black ↦ rw (black, lstrip) h
]

starts_with-rstrip : (s t : Text) → starts_with s t ≡ false → starts_with s (rstrip t) ≡ false
unfolding rstrip
starts_with-rstrip [] t h = h
starts_with-rstrip (x ∷ s) [] h = h
starts_with-rstrip (x ∷ s) (c ∷ cs) h = ground (arith, starts_with-rstrip s cs)

contains-rstrip :
    (x : ℕ) (s t : Text) → contains (x ∷ s) t ≡ false → contains (x ∷ s) (rstrip t) ≡ false
unfolding contains rstrip
contains-rstrip x s [] h = h
contains-rstrip x s (c ∷ cs) h = ground (arith, contains-rstrip x s cs, starts_with-rstrip s cs)

pub contains-strip :
    (x : ℕ) (s t : Text) → contains (x ∷ s) t ≡ false → contains (x ∷ s) (strip t) ≡ false
unfolding strip
contains-strip x s t h = contains-rstrip x s (lstrip t) (contains-lstrip (x ∷ s) t h)
