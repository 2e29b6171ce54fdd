-- ===== src/Jobs/Shares.antt =====
-- api/routes.py: which of a request's tickets get a result from the cache and which are classified.
use mathlib.Core.List.{append-nil, append_assoc, Perm, perm_middle}
use mathlib.Core.List.Perm
use inference_forge.Base.{
  ◌+◌, ◌≡◌, refl, sym, ◌∙◌, ap, ◌⊎◌, true, Option, some, List, [], ◌∷◌, ◌++◌, map, length,
  length-append, arith,
}
use inference_forge.Json.{Json, text, boolean, Fields, get, put, get-put, get-put-other}
use inference_forge.Text.{Text, codes}
use inference_forge.Jobs.Submit.{mark}

abbrev pub Among : Text → List Text → Type 0
Among t [] = ⊥
Among t (u ∷ us) = (t ≡ u) ⊎ Among t us

-- The ticket that a result names, and the name of a ticket.
abbrev pub ticket_of : Fields → Option Json
ticket_of d = get (codes "ticket") d

abbrev pub name_of : Text → Option Json
name_of t = some (text t)

pub ticket_of-put :
    (t : Text) (d : Fields) → ticket_of (put (codes "ticket") (text t) d) ≡ name_of t
ticket_of-put t d = get-put (codes "ticket") (text t) d

ticket_of-mark : (t : Text) (d : Fields) → ticket_of (mark t d) ≡ name_of t
ticket_of-mark t d =
    get-put-other (codes "cache_hit") (codes "ticket") (boolean true)
      (put (codes "ticket") (text t) d) refl
    ∙ ticket_of-put t d

pub map-append {ℓ κ} :
    {A : Type ℓ} {B : Type κ} (f : A → B) (xs ys : List A) → map f (xs ++ ys) ≡ map f xs ++ map f ys
map-append f [] ys = refl
map-append f (x ∷ xs) ys = ap (λ l. f x ∷ l) (map-append f xs ys)

module _ {ℓ} (Found : Text → Fields → Type ℓ) (Missed : Text → Type ℓ) where
  -- Tickets, newest first, each of which is found, with its result marked, or missed and to be
  -- classified.
  pub data Shares : List Text → List Text → List Fields → Type ℓ where
    nothing : Shares [] [] []
    classify :
        {fs us : List Text} {ps : List Fields} (t : Text)
        → Missed t
        → Shares fs us ps
        → Shares (t ∷ fs) (us ++ t ∷ []) ps
    answer :
        {fs us : List Text} {ps : List Fields} (t : Text) (d : Fields)
        → Found t d
        → Shares fs us ps
        → Shares (t ∷ fs) us (ps ++ mark t d ∷ [])

  pub length-Shares :
      {fs us : List Text} {ps : List Fields} → Shares fs us ps → length us + length ps ≡ length fs
  length-Shares nothing = refl
  length-Shares (classify {us = us} t m h) =
      rw (length-append us (t ∷ [])) (omega (arith, length-Shares h))
  length-Shares (answer {ps = ps} t d f h) =
      rw (length-append ps (mark t d ∷ [])) (omega (arith, length-Shares h))

  -- The results and the tickets to classify name each ticket once.
  pub Shares-named :
      {fs us : List Text} {ps : List Fields}
      → Shares fs us ps
      → Perm (map ticket_of ps ++ map name_of us) (map name_of fs)
  Shares-named nothing = Perm.refl []
  Shares-named (classify {us = us} {ps = ps} t m h) =
      let a = map ticket_of ps in
      let b = map name_of us in
      rw (map-append name_of us (t ∷ []), sym (append_assoc a b (name_of t ∷ [])))
        (Perm.trans (perm_middle (a ++ b) [])
          (Perm.cons (name_of t) (rw (append-nil (a ++ b)) (Shares-named h))))
  Shares-named (answer {us = us} {ps = ps} t d f h) =
      let a = map ticket_of ps in
      let b = map name_of us in
      rw
        (
          map-append ticket_of ps (mark t d ∷ []),
          append_assoc a (ticket_of (mark t d) ∷ []) b,
          ticket_of-mark t d,
        )
        (Perm.trans (perm_middle a b) (Perm.cons (name_of t) (Shares-named h)))
