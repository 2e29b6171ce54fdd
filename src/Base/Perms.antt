-- ===== src/Base/Perms.antt =====
-- What a permutation keeps: a predicate of all items, and the number that pass a test.
use mathlib.Core.Path.{◌≡◌, refl, ◌∙◌, subst}
use mathlib.Core.Logic.{∥∥₁_elim}
use mathlib.Core.Bool.{Bool}
use mathlib.Core.List.{List, [], ◌∷◌, Perm, Permᴰ}
use native.Mathlib.Nat.{ℕ_set}
use native.Mathlib.Omega.{arith}
use inference_forge.Base.Lists.{All, keep, length}

All-prop {ℓ κ} :
    {A : Type ℓ} (P : A → Type κ) → ((x : A) → IsProp (P x)) → (xs : List A) → IsProp (All P xs)
All-prop P p [] = hlevel
All-prop P p (x ∷ xs) = hlevel (p x, All-prop P p xs)

module _ {ℓ} {A : Type ℓ} where
  All-Permᴰ {κ} : (P : A → Type κ) {xs ys : List A} → Permᴰ xs ys → All P xs → All P ys
  All-Permᴰ P Permᴰ.nil h = h
  All-Permᴰ P (Permᴰ.cons e p) h = (subst P e h.0, All-Permᴰ P p h.1)
  All-Permᴰ P (Permᴰ.swap e f) h = (subst P f h.1.0, (subst P e h.0, h.1.1))
  All-Permᴰ P (Permᴰ.trans p q) h = All-Permᴰ P q (All-Permᴰ P p h)

  length-keep-Permᴰ :
      (test : A → Bool) {xs ys : List A}
      → Permᴰ xs ys
      → length (keep test xs) ≡ length (keep test ys)
  length-keep-Permᴰ test Permᴰ.nil = refl
  length-keep-Permᴰ test (Permᴰ.cons e p) = ground (arith, length-keep-Permᴰ test p)
  length-keep-Permᴰ test (Permᴰ.swap e f) = ground arith
  length-keep-Permᴰ test (Permᴰ.trans p q) = length-keep-Permᴰ test p ∙ length-keep-Permᴰ test q

  length-Permᴰ : {xs ys : List A} → Permᴰ xs ys → length xs ≡ length ys
  length-Permᴰ Permᴰ.nil = refl
  length-Permᴰ (Permᴰ.cons e p) = omega (arith, length-Permᴰ p)
  length-Permᴰ (Permᴰ.swap e f) = refl
  length-Permᴰ (Permᴰ.trans p q) = length-Permᴰ p ∙ length-Permᴰ q

  pub All-Perm {κ} :
      (P : A → Type κ) {xs ys : List A}
      → ((x : A) → IsProp (P x))
      → Perm xs ys
      → All P xs
      → All P ys
  All-Perm P {ys} p perm h = ∥∥₁_elim perm (All-prop P p ys) (λ q. All-Permᴰ P q h)

  pub length-keep-Perm :
      (test : A → Bool) {xs ys : List A}
      → Perm xs ys
      → length (keep test xs) ≡ length (keep test ys)
  length-keep-Perm test perm = ∥∥₁_elim perm (ℕ_set _ _) (length-keep-Permᴰ test)

  pub length-Perm : {xs ys : List A} → Perm xs ys → length xs ≡ length ys
  length-Perm perm = ∥∥₁_elim perm (ℕ_set _ _) length-Permᴰ
