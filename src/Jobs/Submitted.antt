-- ===== src/Jobs/Submitted.antt =====
-- api/routes.py: what process_tickets makes of the tickets of a request.
use mathlib.Core.Path.{subst}
use inference_forge.Base.{
  ◌+◌, ◌≡◌, ◌⊎◌, refl, ap, ◌∙◌, map, inl, inr, Bool-cases, true, false, Option, none, some, List,
  [], ◌∷◌, length, length-append, arith,
}
use inference_forge.Errors.{Result, ok, raise}
use inference_forge.Json.{
  Json, null, boolean, natural, number, text, array, object, Fields, same_text_refl,
}
use inference_forge.Text.{Text}
use inference_forge.Cache.{Redis, Library, Cache, get}
use inference_forge.Jobs.Shares.{Among, Shares, nothing, classify, answer}
use inference_forge.Jobs.Submit.{
  Submission, nothing_seen, known, normalized, looked_up, submit_one, and_rest, deduplicate,
}

-- No two of the texts are the same, and none is in the list.
abbrev pub Distinct : List Text → Type 0
Distinct [] = Unit
Distinct (t ∷ ts) = (known t ts ≡ false) × Distinct ts

abbrev rev_onto : List Text → List Text → List Text
rev_onto [] before = before
rev_onto (t ∷ ts) before = rev_onto ts (t ∷ before)

length-rev_onto : (ts before : List Text) → length (rev_onto ts before) ≡ length ts + length before
length-rev_onto [] before = omega arith
length-rev_onto (t ∷ ts) before = length-rev_onto ts (t ∷ before) ∙ omega arith

Among-rev_onto :
    (t : Text) (ts before : List Text) → Among t ts ⊎ Among t before → Among t (rev_onto ts before)
Among-rev_onto t [] before (inl a) = absurd a
Among-rev_onto t [] before (inr a) = a
Among-rev_onto t (u ∷ ts) before (inl (inl e)) = Among-rev_onto t ts (u ∷ before) (inr (inl e))
Among-rev_onto t (u ∷ ts) before (inl (inr a)) = Among-rev_onto t ts (u ∷ before) (inl a)
Among-rev_onto t (u ∷ ts) before (inr a) = Among-rev_onto t ts (u ∷ before) (inr (inr a))

rev_onto-Among :
    (t : Text) (ts before : List Text) → Among t (rev_onto ts before) → Among t ts ⊎ Among t before
rev_onto-Among t [] before a = inr a
rev_onto-Among t (u ∷ ts) before a = elim (rev_onto-Among t ts (u ∷ before) a) [
  | inl x ↦ inl (inr x)
  | inr y ↦ elim y [ inl e ↦ inl (inl e) | inr z ↦ inr z ]
]

module _ {ℓ} {S : Type ℓ} (redis : Redis S) (lib : Library) where
  -- The cache had this dict for the ticket when it was looked up, or nothing.
  abbrev pub Found : Text → Fields → Type ℓ
  Found t d = (c : Cache S) × ((get redis lib t c).0 ≡ ok (some (object d)))

  abbrev pub Missed : Text → Type ℓ
  Missed t = (c : Cache S) × ((get redis lib t c).0 ≡ ok none)

  -- The books after the tickets `ts`. `firsts` are the tickets whose normalized text is new, newest
  -- first.
  pub record Balanced (ts : List Text) (s : Submission) : Type ℓ where
    pub firsts : List Text
    pub total : length s.unique_tickets + s.cached_count ≡ length ts
    pub shares : Shares Found Missed firsts s.unique_tickets s.pre_cached_results
    pub keys : s.seen ≡ map (normalized lib) firsts
    pub distinct : Distinct s.seen
    pub covers : (t : Text) → Among t ts → known (normalized lib t) s.seen ≡ true
    pub of_request : (t : Text) → Among t firsts → Among t ts

  abbrev OnOk {κ} : (Submission → Type κ) → Result Submission → Type κ
  OnOk P (raise e) = Unit
  OnOk P (ok s) = P s

  known_first : (t : Text) (seen : List Text) → known t (t ∷ seen) ≡ true
  known_first t seen = rw (known, same_text_refl t) refl

  known_later : (t u : Text) (seen : List Text) → known t seen ≡ true → known t (u ∷ seen) ≡ true
  known_later t u seen h = ground arith

  covers_more :
      (t : Text) (ts seen : List Text)
      → ((u : Text) → Among u ts → known (normalized lib u) seen ≡ true)
      → (u : Text) → Among u (t ∷ ts)
      → known (normalized lib u) (normalized lib t ∷ seen) ≡ true
  covers_more t ts seen h u (inl e) = rw e (known_first (normalized lib t) seen)
  covers_more t ts seen h u (inr a) = known_later (normalized lib u) (normalized lib t) seen (h u a)

  looked_up-Balanced :
      (t : Text) (ts : List Text) (s : Submission) (c : Cache S) (r : Result (Option Json))
      → (get redis lib t c).0 ≡ r
      → Balanced ts s
      → known (normalized lib t) s.seen ≡ false
      → OnOk
          (Balanced (t ∷ ts))
          (looked_up redis lib t (record s { seen = normalized lib t ∷ s.seen }) r)
  looked_up-Balanced t ts s c (raise e) got b f = tt
  looked_up-Balanced t ts s c (ok none) got b f = record {
    firsts = t ∷ b.firsts;
    total = rw length-append (omega (arith, b.total));
    shares = classify t (c, got) b.shares;
    keys = ap (λ ks. normalized lib t ∷ ks) b.keys;
    distinct = (f, b.distinct);
    covers = covers_more t ts s.seen b.covers;
    of_request = λ u a. elim a [ inl e ↦ inl e | inr x ↦ inr (b.of_request u x) ];
  }
  looked_up-Balanced t ts s c (ok (some (object d))) got b f = record {
    firsts = t ∷ b.firsts;
    total = omega (arith, b.total);
    shares = answer t d (c, got) b.shares;
    keys = ap (λ ks. normalized lib t ∷ ks) b.keys;
    distinct = (f, b.distinct);
    covers = covers_more t ts s.seen b.covers;
    of_request = λ u a. elim a [ inl e ↦ inl e | inr x ↦ inr (b.of_request u x) ];
  }
  looked_up-Balanced t ts s c (ok (some null)) got b f = tt
  looked_up-Balanced t ts s c (ok (some (boolean _))) got b f = tt
  looked_up-Balanced t ts s c (ok (some (natural _))) got b f = tt
  looked_up-Balanced t ts s c (ok (some (number _))) got b f = tt
  looked_up-Balanced t ts s c (ok (some (text _))) got b f = tt
  looked_up-Balanced t ts s c (ok (some (array _))) got b f = tt

  submit_one-Balanced :
      (t : Text) (ts : List Text) (s : Submission) (c : Cache S)
      → Balanced ts s
      → OnOk (Balanced (t ∷ ts)) (submit_one redis lib t s c).0
  unfolding submit_one
  submit_one-Balanced t ts s c b = elim (Bool-cases (known (normalized lib t) s.seen)) [
    | inl k ↦
        rw (submit_one, k)
          (record {
            firsts = b.firsts;
            total = omega (arith, b.total);
            shares = b.shares;
            keys = b.keys;
            distinct = b.distinct;
            covers = λ u a. elim a [ inl e ↦ rw e k | inr x ↦ b.covers u x ];
            of_request = λ u a. inr (b.of_request u a);
          })
    | inr k ↦ rw (submit_one, k) (looked_up-Balanced t ts s c (get redis lib t c).0 refl b k)
  ]

  and_rest-OnOk :
      (P Q : Submission → Type ℓ) (rest : Submission → Cache S → Result Submission × Cache S)
      (r : Result Submission × Cache S)
      → ((s : Submission) (c : Cache S) → P s → OnOk Q (rest s c).0)
      → OnOk P r.0
      → OnOk Q (and_rest redis lib rest r).0
  and_rest-OnOk P Q rest (raise e, c) f h = tt
  and_rest-OnOk P Q rest (ok s, c) f h = f s c h

  deduplicate-Balanced :
      (ts before : List Text) (s : Submission) (c : Cache S)
      → Balanced before s
      → OnOk (Balanced (rev_onto ts before)) (deduplicate redis lib ts s c).0
  unfolding deduplicate
  deduplicate-Balanced [] before s c b = b
  deduplicate-Balanced (t ∷ ts) before s c b =
      and_rest-OnOk (Balanced (t ∷ before)) (Balanced (rev_onto ts (t ∷ before)))
        (deduplicate redis lib ts) (submit_one redis lib t s c)
        (λ s' c' b'. deduplicate-Balanced ts (t ∷ before) s' c' b')
        (submit_one-Balanced t before s c b)

  -- Of a request that is accepted: each ticket is counted once, as unique or as cached. `firsts`
  -- are tickets of the request with pairwise different normalized texts, those seen, and each ticket
  -- of the request has one of these texts. Each of `firsts` is in one of two lists, in their order:
  -- its cached dict, with the ticket and cache_hit set, is in pre_cached_results, or nothing was in
  -- the cache for it and it is in unique_tickets. A duplicate is in neither.
  pub deduplicate_lem :
      (ts : List Text) (s : Submission) (c : Cache S)
      → (deduplicate redis lib ts nothing_seen c).0 ≡ ok s
      → Balanced ts s
  deduplicate_lem ts s c h =
      let b = subst (OnOk (Balanced (rev_onto ts []))) h (
        deduplicate-Balanced ts [] nothing_seen c (record {
          firsts = [];
          total = refl;
          shares = nothing;
          keys = refl;
          distinct = tt;
          covers = λ t a. absurd a;
          of_request = λ t a. a;
        })) in
      record {
        firsts = b.firsts;
        total = b.total ∙ length-rev_onto ts [] ∙ omega arith;
        shares = b.shares;
        keys = b.keys;
        distinct = b.distinct;
        covers = λ t a. b.covers t (Among-rev_onto t ts [] (inl a));
        of_request = λ t a. elim (rev_onto-Among t ts [] (b.of_request t a)) [
          | inl x ↦ x
          | inr x ↦ absurd x
        ];
      }
