-- ===== src/Estimator/Laws.antt =====
-- pipeline/estimator.py: what the counts, the average and the estimates satisfy.
use native.Mathlib.Nat.{mul-le-mul_left, mul-le-mul_right}
use mathlib.Core.List.{append-nil, append_assoc}
use inference_forge.Base.{
  ℕ, ◌+◌, ◌*◌, ◌≤◌, ◌≡◌, ◌++◌, sym, refl, Bool, true, false, Option, List, [], ◌∷◌, All, length,
  arith, keep,
}
use inference_forge.Base.Fraction.{Fraction, whole, ◌*ℚ◌, ◌≤ℚ◌, max_fraction, mean-le, le-mean}
use inference_forge.Text.{Text, split}
use inference_forge.Estimator.{
  Complexity, simple, medium, complex, complexity_priority, same, classify, Groups, add_to,
  count_one, group_from, classify_many, ComplexityBreakdown, breakdown_from, breakdown,
}
use inference_forge.Estimator.Eta.{
  EtaEstimator, update, update_all, estimate, estimate_initial, latency, group_size,
}

-- The average of the observed latencies stays within any bounds that they all keep.
module _ (lo hi : Fraction) where
  abbrev pub Within : Fraction → Type 0
  Within x = (lo ≤ℚ x) × (x ≤ℚ hi)

  abbrev Bounded : EtaEstimator → Type 0
  Bounded e = e.has_data ≡ true → Within e.ewma

  update-Bounded :
      (x : Fraction) (e : EtaEstimator)
      → e.alpha.num ≤ e.alpha.den
      → Within x
      → Bounded e
      → ((update x e).has_data ≡ true) × Within (update x e).ewma × ((update x e).alpha ≡ e.alpha)
  unfolding update
  update-Bounded x e w h b =
      ground (arith, mean-le e.alpha x e.ewma hi w, le-mean e.alpha x e.ewma lo w)

  update_all-Bounded :
      (xs : List Fraction) (e : EtaEstimator)
      → e.alpha.num ≤ e.alpha.den
      → All Within xs
      → Bounded e
      → Bounded (update_all xs e)
  unfolding update_all
  update_all-Bounded [] e w h b = b
  update_all-Bounded (x ∷ xs) e w h b =
      let (seen, within, same_alpha) = update-Bounded x e w h.0 b in
      update_all-Bounded xs (update x e) (rw same_alpha w) h.1 (λ _. within)

update_has_data : (x : Fraction) (e : EtaEstimator) → (update x e).has_data ≡ true
unfolding update
update_has_data x e = ground arith

update_all_has_data :
    (xs : List Fraction) (e : EtaEstimator) → e.has_data ≡ true → (update_all xs e).has_data ≡ true
unfolding update_all
update_all_has_data [] e h = h
update_all_has_data (x ∷ xs) e h = update_all_has_data xs (update x e) (update_has_data x e)

update_all_cons :
    (x : Fraction) (xs : List Fraction) (e : EtaEstimator) → (update_all (x ∷ xs) e).has_data ≡ true
unfolding update_all
update_all_cons x xs e = update_all_has_data xs (update x e) (update_has_data x e)

-- Once there is a sample, the latency that the estimates use lies within any bounds that all the
-- samples keep, whatever the weight up to 1.
pub latency-update_all :
    (lo hi x : Fraction) (xs : List Fraction) (e : EtaEstimator)
    → e.alpha.num ≤ e.alpha.den
    → e.has_data ≡ false
    → All (Within lo hi) (x ∷ xs)
    → Within lo hi (latency (update_all (x ∷ xs) e))
unfolding latency
latency-update_all lo hi x xs e w fresh h =
    let seen = update_all_cons x xs e in
    rw seen (update_all-Bounded lo hi (x ∷ xs) e w h (λ s. cc) seen)

scale-le : (a b l : Fraction) → a ≤ℚ b → a *ℚ l ≤ℚ b *ℚ l
scale-le a b l h = omega (arith, mul-le-mul_left (l.num * l.den) h)

abbrev batches : ℕ → ℕ → Fraction
batches m g = max_fraction (whole 1) (record { num = m; den = g })

batches_mono : (m n g : ℕ) → m ≤ n → (whole 1 ≤ℚ batches m g) × (batches m g ≤ℚ batches n g)
batches_mono m n g h = ground (arith, mul-le-mul_right g h)

-- An estimate is at least one latency, and does not fall when more tickets remain.
pub estimate_mono :
    (m n : ℕ) (bucket : Option Complexity) (e : EtaEstimator)
    → m ≤ n
    → (latency e ≤ℚ estimate m bucket e) × (estimate m bucket e ≤ℚ estimate n bucket e)
unfolding estimate
estimate_mono m n bucket e h =
    let (least, more) = batches_mono m n (group_size bucket) h in
    let one = scale-le (whole 1) (batches m (group_size bucket)) (latency e) least in
    (omega (arith, one), scale-le _ _ (latency e) more)

abbrev pub in_bucket : Complexity → Text → Bool
in_bucket c t = same (classify t) c

-- Each group is the tickets of its complexity, in their order.
group_from-keep :
    (g : Groups) (ts : List Text)
    → ((group_from g ts).simple_group ≡ g.simple_group ++ keep (in_bucket simple) ts)
      × ((group_from g ts).medium_group ≡ g.medium_group ++ keep (in_bucket medium) ts)
      × ((group_from g ts).complex_group ≡ g.complex_group ++ keep (in_bucket complex) ts)
group_from-keep g [] = (sym (append-nil _), sym (append-nil _), sym (append-nil _))
group_from-keep g (t ∷ ts) = ground (
  arith,
  group_from-keep (add_to (classify t) t g) ts,
  append_assoc g.simple_group (t ∷ []) (keep (in_bucket simple) ts),
  append_assoc g.medium_group (t ∷ []) (keep (in_bucket medium) ts),
  append_assoc g.complex_group (t ∷ []) (keep (in_bucket complex) ts),
)

breakdown_from-keep :
    (bd : ComplexityBreakdown) (ts : List Text)
    → ((breakdown_from bd ts).simple_count ≡ bd.simple_count + length (keep (in_bucket simple) ts))
      × ((breakdown_from bd ts).medium_count
          ≡ bd.medium_count + length (keep (in_bucket medium) ts))
      × ((breakdown_from bd ts).complex_count
          ≡ bd.complex_count + length (keep (in_bucket complex) ts))
breakdown_from-keep bd [] = omega arith
breakdown_from-keep bd (t ∷ ts) = ground (arith, breakdown_from-keep (count_one (classify t) bd) ts)

abbrev pub nothing : Groups
nothing = record { simple_group = []; medium_group = []; complex_group = [] }

keep_partition :
    (ts : List Text)
    → length (keep (in_bucket simple) ts)
        + length (keep (in_bucket medium) ts)
        + length (keep (in_bucket complex) ts)
      ≡ length ts
keep_partition [] = omega arith
keep_partition (t ∷ ts) = ground (arith, keep_partition ts)

-- breakdown counts what classify_many groups: each group is the tickets of its complexity in
-- their order, each count is the length of its group, and the counts add up to the tickets.
pub breakdown-classify_many :
    (ts : List Text)
    → let g = classify_many ts in
      let bd = breakdown ts in
      (g.simple_group ≡ keep (in_bucket simple) ts)
      × (g.medium_group ≡ keep (in_bucket medium) ts)
      × (g.complex_group ≡ keep (in_bucket complex) ts)
      × (bd.simple_count ≡ length g.simple_group)
      × (bd.medium_count ≡ length g.medium_group)
      × (bd.complex_count ≡ length g.complex_group)
      × (bd.simple_count + bd.medium_count + bd.complex_count ≡ length ts)
unfolding classify_many breakdown
breakdown-classify_many ts =
    let bd0 : ComplexityBreakdown = record {
      simple_count = 0;
      medium_count = 0;
      complex_count = 0;
    } in
    ground (arith, group_from-keep nothing ts, breakdown_from-keep bd0 ts, keep_partition ts)

-- The initial estimate of some tickets lies between a latency for each twenty and one for each
-- five of them, and does not depend on the number of tickets that it is given.
pub estimate_initial_bounds :
    (u v : ℕ) (ts : List Text) (e : EtaEstimator)
    → (record { num = length ts; den = 20 } *ℚ latency e ≤ℚ estimate_initial u (breakdown ts) e)
      × (estimate_initial u (breakdown ts) e ≤ℚ record { num = length ts; den = 5 } *ℚ latency e)
      × (estimate_initial u (breakdown ts) e ≡ estimate_initial v (breakdown ts) e)
unfolding estimate_initial
estimate_initial_bounds u v ts e =
    let (_, _, _, _, _, _, total) = breakdown-classify_many ts in
    (
      scale-le _ _ (latency e) (omega (arith, total)),
      scale-le _ _ (latency e) (omega (arith, total)),
      refl,
    )

-- With more words a ticket is never of a lower complexity, so its priority number never grows.
pub classify_mono :
    (s t : Text)
    → length (split s) ≤ length (split t)
    → complexity_priority (classify t) ≤ complexity_priority (classify s)
unfolding classify
classify_mono s t h = ground arith
