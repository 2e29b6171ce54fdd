-- ===== src/Text/Decimal.antt =====
-- str(n) of a natural number.
use inference_forge.Base.{ℕ, zero, suc, ◌+◌, ◌/◌, ◌%◌, [], ◌∷◌, ◌++◌, ltb, if◌then◌else◌}
use inference_forge.Text.{Text}

-- With more digits to come than the fuel allows, the first are dropped: a number has fewer digits
-- than it counts, so str gives enough.
abbrev pub digits : ℕ → ℕ → Text
digits zero n = []
digits (suc fuel) n =
    let before = digits fuel (n / 10) in
    if ltb n 10 then (48 + n) ∷ [] else before ++ (48 + n % 10) ∷ []

abbrev pub decimal : ℕ → Text
decimal n = digits (suc n) n
