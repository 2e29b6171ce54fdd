-- ===== src/Caller/Blocks.antt =====
-- pipeline/caller.py: which blocks _extract_json_object finds.
use mathlib.Core.Path.{subst, ap₂}
use inference_forge.Base.{
  ℕ, zero, suc, ◌+◌, ◌≡◌, refl, sym, ap, ◌⊎◌, inl, inr, Bool-cases, Option-cases, Option, none,
  some, [], ◌∷◌, ◌++◌, ◌==◌, length, if◌then◌else◌, arith,
}
use inference_forge.Errors.{
  json_decode, circuit_breaker_open, http_status, value_error, other_exception, cancelled, Result,
  ok, raise,
}
use inference_forge.Text.{Text}
use inference_forge.Caller.Extract.{
  opening, closing, Block, with_char, balanced, or_later, extract_from, extract_json_object,
  searched,
}

-- What a block is, apart from the loop that finds it.
abbrev pub count : ℕ → Text → ℕ
count c [] = 0
count c (d ∷ ds) = if d == c then suc (count c ds) else count c ds

pub record Splits (depth : ℕ) (t : Text) (b : Block) : Type 0 where
  pub parts : b.candidate ++ b.behind ≡ t
  pub braces : count closing b.candidate ≡ depth + count opening b.candidate

abbrev pub OnSome {ℓ} : (Block → Type ℓ) → Option Block → Type ℓ
OnSome P none = Unit
OnSome P (some b) = P b

OnSome-with_char {ℓ} :
    (P Q : Block → Type ℓ) (c : ℕ) (o : Option Block)
    → ((b : Block) → P b → Q (record { candidate = c ∷ b.candidate; behind = b.behind }))
    → OnSome P o
    → OnSome Q (with_char c o)
OnSome-with_char P Q c none f h = tt
OnSome-with_char P Q c (some b) f h = f b h

cons :
    {d e : ℕ} {t : Text} (c : ℕ)
    → (e + count opening (c ∷ []) ≡ d + count closing (c ∷ []))
    → (b : Block) → Splits d t b
    → Splits e (c ∷ t) (record { candidate = c ∷ b.candidate; behind = b.behind })
cons c h b s = record { parts = ap (λ ds. c ∷ ds) s.parts; braces = ground (arith, s.braces, h) }

closes :
    (c : ℕ) (cs : Text) (n : ℕ)
    → c ≡ closing
    → ((d : ℕ) → OnSome (Splits (suc d) cs) (balanced d cs))
    → OnSome (Splits (suc n) (c ∷ cs)) (
        with_char c (elim n as (λ _. Option Block) [
          | zero ↦ some (record { candidate = []; behind = cs })
          | suc rest ↦ balanced rest cs
        ]))
closes c cs zero k deeper = record { parts = refl; braces = ground arith }
closes c cs (suc rest) k deeper =
    OnSome-with_char (Splits (suc rest) cs) _ c _ (cons c (ground arith)) (deeper rest)

pub balanced-Splits : (above : ℕ) (t : Text) → OnSome (Splits (suc above) t) (balanced above t)
unfolding balanced
balanced-Splits above [] = tt
balanced-Splits above (c ∷ cs) = elim (Bool-cases (c == opening)) [
  | inl o ↦ rw o (
      OnSome-with_char (Splits (suc (suc above)) cs) _ c _ (cons c (ground arith))
        (balanced-Splits (suc above) cs))
  | inr o ↦ elim (Bool-cases (c == closing)) [
    | inr k ↦
        rw (o, k)
          (OnSome-with_char (Splits (suc above) cs) _ c _ (cons c (ground arith))
            (balanced-Splits above cs))
    | inl k ↦ rw (o, k) (closes c cs above (ground arith) (λ d. balanced-Splits d cs))
  ]
]

module _ {ℓ} {V : Type ℓ} (loads : Text → Result V) where
  pub record Found (t : Text) (v : V) : Type ℓ where
    pub before : Text
    pub inner : Text
    pub after : Text
    pub parts : before ++ opening ∷ inner ++ after ≡ t
    pub braces : count closing (opening ∷ inner) ≡ count opening (opening ∷ inner)
    pub parses : loads (opening ∷ inner) ≡ ok v

  later : (c : ℕ) (cs : Text) (v : V) → Found cs v → Found (c ∷ cs) v
  later c cs v f = record {
    before = c ∷ f.before;
    inner = f.inner;
    after = f.after;
    parts = ap (λ ds. c ∷ ds) f.parts;
    braces = f.braces;
    parses = f.parses;
  }

  or_later-ok : (r l : Result V) (v : V) → or_later r l ≡ ok v → (r ≡ ok v) ⊎ (l ≡ ok v)
  or_later-ok (ok w) l v e = inl e
  or_later-ok (raise json_decode) l v e = inr e
  or_later-ok (raise circuit_breaker_open) l v e = cc
  or_later-ok (raise (http_status n r)) l v e = cc
  or_later-ok (raise value_error) l v e = cc
  or_later-ok (raise (other_exception m)) l v e = cc
  or_later-ok (raise cancelled) l v e = cc

  extract_from-Found : (skip : ℕ) (t : Text) (v : V) → extract_from loads skip t ≡ ok v → Found t v
  unfolding extract_from
  extract_from-Found skip [] v e = cc
  extract_from-Found (suc skip) (c ∷ cs) v e = later c cs v (extract_from-Found skip cs v e)
  extract_from-Found zero (c ∷ cs) v e = elim (Bool-cases (c == opening)) [
    | inr o ↦ later c cs v (extract_from-Found zero cs v (rw (o, extract_from) at e))
    | inl o ↦ elim (Option-cases (balanced 0 cs)) [
      | inl n ↦ let e' = rw (o, n, extract_from) at e in cc
      | inr (b, s) ↦
          let split = subst (OnSome (Splits 1 cs)) s (balanced-Splits 0 cs) in
          elim (or_later-ok (loads (c ∷ b.candidate)) (extract_from loads (length b.candidate) cs) v
            (rw (o, s, extract_from) at e)) [
              | inr l ↦ later c cs v (extract_from-Found (length b.candidate) cs v l)
              | inl l ↦
                  let start : c ≡ opening = ground arith in
                  record {
                    before = [];
                    inner = b.candidate;
                    after = b.behind;
                    parts = ap₂ (λ x xs. x ∷ xs) (sym start) split.parts;
                    braces = ground (arith, split.braces);
                    parses = subst (λ x. loads (x ∷ b.candidate) ≡ ok v) start l;
                  }
            ]
    ]
  ]

  -- What it returns is json.loads of a block of the searched text that begins with a brace and
  -- has as many closing as opening ones.
  pub extract_json_object-Found :
      (text : Text) (v : V) → extract_json_object loads text ≡ ok v → Found (searched text) v
  unfolding extract_json_object
  extract_json_object-Found text v e = extract_from-Found 0 (searched text) v e

  behind_prose :
      (prose t : Text)
      → count opening prose ≡ 0
      → extract_from loads 0 (prose ++ t) ≡ extract_from loads 0 t
  unfolding extract_from
  behind_prose [] t h = refl
  behind_prose (c ∷ cs) t h = ground (arith, behind_prose cs t)

  flat-balanced :
      (inner rest : Text)
      → count opening inner ≡ 0
      → count closing inner ≡ 0
      → balanced 0 (inner ++ closing ∷ rest)
        ≡ some (record { candidate = inner ++ closing ∷ []; behind = rest })
  unfolding balanced
  flat-balanced [] rest o k = refl
  flat-balanced (c ∷ cs) rest o k = ground (arith, flat-balanced cs rest)

  pub extract_json_object_lem :
      (text prose inner rest : Text) (v : V)
      → searched text ≡ prose ++ opening ∷ (inner ++ closing ∷ rest)
      → count opening prose ≡ 0
      → count opening inner ≡ 0
      → count closing inner ≡ 0
      → loads (opening ∷ (inner ++ closing ∷ [])) ≡ ok v
      → extract_json_object loads text ≡ ok v
  unfolding extract_json_object extract_from
  extract_json_object_lem text prose inner rest v shape p o k l =
      rw
        (
          shape,
          behind_prose prose (opening ∷ (inner ++ closing ∷ rest)) p,
          extract_from,
          flat-balanced inner rest o k,
          l,
        )
        refl

  -- An opening brace that is never balanced ends the search, whatever objects stand behind it.
  pub extract_json_object_gives_up :
      (text prose rest : Text)
      → searched text ≡ prose ++ opening ∷ rest
      → count opening prose ≡ 0
      → balanced 0 rest ≡ none
      → extract_json_object loads text ≡ raise json_decode
  unfolding extract_json_object extract_from
  extract_json_object_gives_up text prose rest shape p n =
      rw (shape, behind_prose prose (opening ∷ rest) p, extract_from, n) refl
