-- ===== src/Estimator.antt =====
-- pipeline/estimator.py: the complexity of a ticket, and the tables by complexity.
pub mod Eta
pub mod Laws
mod Tests
use inference_forge.Base.{
  ℕ, ◌+◌, Bool, true, false, List, [], ◌∷◌, ◌++◌, ltb, leb, length, if◌then◌else◌,
}
use inference_forge.Text.{Text, split}

pub data Complexity : Type 0 where
  simple medium complex : Complexity

abbrev pub complexity_priority : Complexity → ℕ
complexity_priority complex = 0
complexity_priority medium = 1
complexity_priority simple = 2

abbrev pub batch_size : Complexity → ℕ
batch_size simple = 20
batch_size medium = 10
batch_size complex = 5

abbrev pub same : Complexity → Complexity → Bool
same simple simple = true
same medium medium = true
same complex complex = true
same _ _ = false

abbrev pub complexity_of : ℕ → Complexity
complexity_of word_count =
    if ltb word_count 15 then simple else if leb word_count 60 then medium else complex

unfoldable pub classify : Text → Complexity
classify ticket = complexity_of (length (split ticket))

-- The dictionary of classify_many, by its three keys.
pub record Groups : Type 0 where
  pub simple_group : List Text
  pub medium_group : List Text
  pub complex_group : List Text

abbrev pub add_to : Complexity → Text → Groups → Groups
add_to simple t g = record g { simple_group = g.simple_group ++ t ∷ [] }
add_to medium t g = record g { medium_group = g.medium_group ++ t ∷ [] }
add_to complex t g = record g { complex_group = g.complex_group ++ t ∷ [] }

abbrev pub group_from : Groups → List Text → Groups
group_from g [] = g
group_from g (t ∷ ts) = group_from (add_to (classify t) t g) ts

unfoldable pub classify_many : List Text → Groups
classify_many = group_from (record { simple_group = []; medium_group = []; complex_group = [] })

pub record ComplexityBreakdown : Type 0 where
  pub simple_count : ℕ
  pub medium_count : ℕ
  pub complex_count : ℕ

abbrev pub count_one : Complexity → ComplexityBreakdown → ComplexityBreakdown
count_one simple bd = record bd { simple_count = bd.simple_count + 1 }
count_one medium bd = record bd { medium_count = bd.medium_count + 1 }
count_one complex bd = record bd { complex_count = bd.complex_count + 1 }

abbrev pub breakdown_from : ComplexityBreakdown → List Text → ComplexityBreakdown
breakdown_from bd [] = bd
breakdown_from bd (t ∷ ts) = breakdown_from (count_one (classify t) bd) ts

unfoldable pub breakdown : List Text → ComplexityBreakdown
breakdown = breakdown_from (record { simple_count = 0; medium_count = 0; complex_count = 0 })
