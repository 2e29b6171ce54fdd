-- ===== src/Estimator/Tests.antt =====
-- pipeline/estimator.py: the theorems at concrete inputs.
use inference_forge.Base.{◌≡◌, refl, [], ◌∷◌}
use inference_forge.Base.Fraction.{Fraction, whole}
use inference_forge.Text.{Text, split}
use inference_forge.Estimator.Eta.{eta_estimator, update_all, latency}

abbrev short : Text
short = b'h' ∷ b'i' ∷ []

abbrev long : Text
long = b'o' ∷ b' ' ∷ b' ' ∷ b'n' ∷ b'o' ∷ []

split-long : split long ≡ (b'o' ∷ []) ∷ (b'n' ∷ b'o' ∷ []) ∷ []
unfolding split
split-long = refl

abbrev two_seconds : Fraction
two_seconds = whole 2

latency_after :
    latency (update_all (two_seconds ∷ whole 3 ∷ []) eta_estimator)
    ≡ record { num = 230; den = 100 }
unfolding eta_estimator update_all latency
latency_after = refl
