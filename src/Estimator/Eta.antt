-- ===== src/Estimator/Eta.antt =====
-- pipeline/estimator.py: the class ETAEstimator. Its floats are exact fractions here.
use inference_forge.Base.{
  ℕ, Bool, true, false, not, Option, none, some, List, [], ◌∷◌, if◌then◌else◌,
}
use inference_forge.Base.Fraction.{Fraction, whole, ◌+ℚ◌, ◌*ℚ◌, complement, max_fraction}
use inference_forge.Estimator.{Complexity, simple, medium, complex, batch_size, ComplexityBreakdown}

pub record EtaEstimator : Type 0 where
  pub alpha : Fraction
  pub default_latency_s : Fraction
  pub ewma : Fraction
  pub has_data : Bool

unfoldable pub eta_estimator : EtaEstimator
eta_estimator = record {
  alpha = record { num = 3; den = 10 };
  default_latency_s = record { num = 12; den = 10 };
  ewma = record { num = 12; den = 10 };
  has_data = false;
}

unfoldable pub update : Fraction → EtaEstimator → EtaEstimator
update observed e =
    if not e.has_data
    then record e { ewma = observed; has_data = true }
    else record e { ewma = e.alpha *ℚ observed +ℚ complement e.alpha *ℚ e.ewma }

abbrev pub group_size : Option Complexity → ℕ
group_size none = 10
group_size (some bucket) = batch_size bucket

unfoldable pub latency : EtaEstimator → Fraction
latency e = if e.has_data then e.ewma else e.default_latency_s

unfoldable pub estimate : ℕ → Option Complexity → EtaEstimator → Fraction
unfolding latency
estimate remaining bucket e =
    max_fraction (whole 1) (record { num = remaining; den = group_size bucket }) *ℚ latency e

-- The source also computes `unique_tickets or 1`, and does not use it.
unfoldable pub estimate_initial : ℕ → ComplexityBreakdown → EtaEstimator → Fraction
unfolding latency
estimate_initial unique_tickets bd e =
    (record { num = bd.complex_count; den = batch_size complex }
      +ℚ record { num = bd.medium_count; den = batch_size medium }
      +ℚ record { num = bd.simple_count; den = batch_size simple })
    *ℚ latency e

-- The observed latencies of a run, in order.
unfoldable pub update_all : List Fraction → EtaEstimator → EtaEstimator
unfolding update
update_all [] e = e
update_all (x ∷ xs) e = update_all xs (update x e)
