-- ===== src/Base/Fraction.antt =====
-- Exact fractions of natural numbers, which stand for the program's non-negative floats.
use native.Mathlib.Nat.{mul-le-mul_left, le_of_mul-le-mul_left}
use Prim.Native.Nat.{ℕ, ◌+◌, ◌-◌, ◌*◌, ◌≤◌, ◌<◌}
use mathlib.Core.Path.{◌≡◌}
use native.Mathlib.Omega.{arith}
use inference_forge.Base.Tests.{leb, if◌then◌else◌}

pub record Fraction : Type 0 where
  pub num : ℕ
  pub den : ℕ

abbrev pub whole : ℕ → Fraction
whole n = record { num = n; den = 1 }

infixl 65 ◌+ℚ◌
infixl 70 ◌*ℚ◌
infix 50 ◌≤ℚ◌
abbrev pub ◌+ℚ◌ : Fraction → Fraction → Fraction
a +ℚ b = record { num = a.num * b.den + b.num * a.den; den = a.den * b.den }

abbrev pub ◌*ℚ◌ : Fraction → Fraction → Fraction
a *ℚ b = record { num = a.num * b.num; den = a.den * b.den }

-- 1 - a, for a up to 1.
abbrev pub complement : Fraction → Fraction
complement a = record { num = a.den - a.num; den = a.den }

abbrev pub ◌≤ℚ◌ : Fraction → Fraction → Type 0
a ≤ℚ b = a.num * b.den ≤ b.num * a.den

abbrev pub max_fraction : Fraction → Fraction → Fraction
max_fraction a b = if leb (b.num * a.den) (a.num * b.den) then a else b

-- The weighted mean of `x` and `y` with weights p / (p + r) and r / (p + r).
module _ (p r xn xd yn yd bn bd : ℕ) where
  mean_below :
      xn * bd ≤ bn * xd
      → yn * bd ≤ bn * yd
      → (p * xn * ((p + r) * yd) + r * yn * ((p + r) * xd)) * bd
        ≤ bn * ((p + r) * xd * ((p + r) * yd))
  mean_below x y =
      let x' : (p * (p + r) * yd) * (xn * bd) ≤ (p * (p + r) * yd) * (bn * xd) =
        mul-le-mul_left _ x in
      let y' : (r * (p + r) * xd) * (yn * bd) ≤ (r * (p + r) * xd) * (bn * yd) =
        mul-le-mul_left _ y in
      omega arith

  mean_above :
      bn * xd ≤ xn * bd
      → bn * yd ≤ yn * bd
      → bn * ((p + r) * xd * ((p + r) * yd))
        ≤ (p * xn * ((p + r) * yd) + r * yn * ((p + r) * xd)) * bd
  mean_above x y =
      let x' : (p * (p + r) * yd) * (bn * xd) ≤ (p * (p + r) * yd) * (xn * bd) =
        mul-le-mul_left _ x in
      let y' : (r * (p + r) * xd) * (bn * yd) ≤ (r * (p + r) * xd) * (yn * bd) =
        mul-le-mul_left _ y in
      omega arith

module _ (a x y b : Fraction) (weight : a.num ≤ a.den) where
  abbrev mean : Fraction
  mean = a *ℚ x +ℚ complement a *ℚ y

  parts : a.num + (a.den - a.num) ≡ a.den
  parts = omega arith

  pub mean-le : x ≤ℚ b → y ≤ℚ b → mean ≤ℚ b
  mean-le hx hy =
      rw parts at (mean_below a.num (a.den - a.num) x.num x.den y.num y.den b.num b.den hx hy)

  pub le-mean : b ≤ℚ x → b ≤ℚ y → b ≤ℚ mean
  le-mean hx hy =
      rw parts at (mean_above a.num (a.den - a.num) x.num x.den y.num y.den b.num b.den hx hy)

pub ≤ℚ-trans : (a b c : Fraction) → 0 < b.den → a ≤ℚ b → b ≤ℚ c → a ≤ℚ c
≤ℚ-trans a b c h x y =
    let x' : c.den * (a.num * b.den) ≤ c.den * (b.num * a.den) = mul-le-mul_left _ x in
    let y' : a.den * (b.num * c.den) ≤ a.den * (c.num * b.den) = mul-le-mul_left _ y in
    let z : b.den * (a.num * c.den) ≤ b.den * (c.num * a.den) = omega arith in
    le_of_mul-le-mul_left z h
