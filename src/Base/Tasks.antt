-- ===== src/Base/Tasks.antt =====
-- Numbered tasks that each are in a phase, and what the tasks below a number weigh together.
use native.Mathlib.Decide.{dec_lt, ℕ_discrete}
use Prim.Native.Nat.{ℕ, zero, suc, ◌+◌, ◌*◌, ◌≤◌, ◌<◌}
use mathlib.Core.Path.{◌≡◌, refl}
use mathlib.Core.Logic.{ite}
use native.Mathlib.Omega.{arith}

module _ {ℓ} {Phase : Type ℓ} where
  abbrev pub update : (ℕ → Phase) → ℕ → Phase → ℕ → Phase
  update f i p j = ite (ℕ_discrete i j) p (f j)

  pub update_same : (f : ℕ → Phase) (i : ℕ) {p q : Phase} → p ≡ q → update f i p i ≡ q
  update_same f i e = ground (arith, e)

  -- The sum of what the tasks below a number weigh.
  abbrev pub total : (Phase → ℕ) → ℕ → (ℕ → Phase) → ℕ
  total w zero f = 0
  total w (suc n) f = w (f n) + total w n f

module _ {ℓ} {Phase : Type ℓ} (w : Phase → ℕ) where
  total-update_behind :
      (f : ℕ → Phase) (i : ℕ) (p : Phase) (n : ℕ) → n ≤ i → total w n (update f i p) ≡ total w n f
  total-update_behind f i p zero h = refl
  total-update_behind f i p (suc n) h =
      ground (arith, total-update_behind f i p n (omega (arith, h)))

  pub total-update :
      (f : ℕ → Phase) (i : ℕ) (p : Phase) (n : ℕ)
      → i < n
      → total w n (update f i p) + w (f i) ≡ total w n f + w p
  total-update f i p zero h = absurd (omega (arith, h))
  total-update f i p (suc n) h = ground (arith, total-update_behind f i p n, total-update f i p n)

  pub some_weight : (f : ℕ → Phase) (n : ℕ) → 0 < total w n f → (i : ℕ) × ((i < n) × (0 < w (f i)))
  some_weight f zero h = absurd (omega (arith, h))
  some_weight f (suc n) h = elim (dec_lt 0 (w (f n))) [
    | yes p ↦ (n, (omega arith, p))
    | no q ↦ let (i, (j, k)) = some_weight f n (omega (arith, h, q)) in (i, (omega (arith, j), k))
  ]

  pub total-zero : (f : ℕ → Phase) (n : ℕ) → total w n f ≡ 0 → (i : ℕ) → i < n → w (f i) ≡ 0
  total-zero f zero e i h = absurd (omega (arith, h))
  total-zero f (suc n) e i h = elim (ℕ_discrete i n) [
    | yes p ↦ rw p (omega (arith, e))
    | no q ↦ total-zero f n (omega (arith, e)) i (omega (arith, q, h))
  ]

  pub total-same : (p : Phase) (n : ℕ) → total w n (λ _. p) ≡ n * w p
  total-same p zero = omega arith
  total-same p (suc n) = omega (arith, total-same p n)

  pub total-has : (f : ℕ → Phase) (i n : ℕ) → i < n → w (f i) ≤ total w n f
  total-has f i zero h = absurd (omega (arith, h))
  total-has f i (suc n) h = elim (ℕ_discrete i n) [
    | yes p ↦ rw p (omega arith)
    | no q ↦ omega (arith, total-has f i n (omega (arith, q, h)))
  ]
