-- ===== src/Benchmark/Optimal.antt =====
-- benchmarks/run_benchmark.py: the row that is marked as optimal.
use native.Mathlib.Nat.{zero-add}
use inference_forge.Base.{
  ℕ, suc, ◌+◌, ◌<◌, ◌≡◌, refl, ◌∙◌, ◌⊎◌, inl, inr, Bool-cases, Bool, true, false, Option, none,
  some, List, [], ◌∷◌, All, arith,
}
use inference_forge.Base.Fraction.{◌≤ℚ◌, ≤ℚ-trans}
use inference_forge.Caller.Batches.{get_elem?}
use inference_forge.Benchmark.{
  Summary, ltℚ, runs_at_all, is_viable, best_from, set_optimal, mark_optimal,
}

abbrev pub Proper : Summary → Type 0
Proper s = 0 < s.avg_throughput.den

-- No row that passes the test has a greater throughput.
abbrev pub IsGreatest : (Summary → Bool) → Summary → List Summary → Type 0
IsGreatest test b ss = All (λ s. test s ≡ true → s.avg_throughput ≤ℚ b.avg_throughput) ss

-- `b` is the row number `k`, passes the test, and no such row has a greater throughput.
pub record IsBest (test : Summary → Bool) (ss : List Summary) (k : ℕ) (b : Summary) : Type 0 where
  pub at : get_elem? ss k ≡ some b
  pub passes : test b ≡ true
  pub proper : Proper b
  pub greatest : IsGreatest test b ss

numbered :
    {i k : ℕ} {b : Summary} → i ≡ k → ◌≡◌ {A = Option (ℕ × Summary)} (some (i, b)) (some (k, b))
numbered e = rw e refl

module _ (test : Summary → Bool) where
  abbrev Search : ℕ → List Summary → Type 0
  Search i ss =
      ((best_from test i ss ≡ none) × All (λ s. test s ≡ false) ss)
      ⊎ ((k : ℕ) × (b : Summary) × ((best_from test i ss ≡ some (i + k, b)) × IsBest test ss k b))

  greater :
      (a b : Summary) (ss : List Summary)
      → Proper a
      → a.avg_throughput ≤ℚ b.avg_throughput
      → IsGreatest test a ss
      → IsGreatest test b ss
  greater a b [] p h g = tt
  greater a b (s ∷ ss) p h (g, gs) = (
    (λ t. ≤ℚ-trans s.avg_throughput a.avg_throughput b.avg_throughput p (g t) h),
    greater a b ss p h gs,
  )

  failing : (b : Summary) (ss : List Summary) → All (λ s. test s ≡ false) ss → IsGreatest test b ss
  failing b [] h = tt
  failing b (s ∷ ss) (h, hs) = ((λ t. cc (h, t)), failing b ss hs)

  -- A row in front that does not pass.
  skipped :
      (i : ℕ) (s : Summary) (ss : List Summary)
      → test s ≡ false
      → Search (suc i) ss
      → Search i (s ∷ ss)
  unfolding best_from
  skipped i s ss f (inl (e, all)) = inl (rw f e, (f, all))
  skipped i s ss f (inr (k, b, (e, best))) = inr (
    suc k,
    b,
    (
      rw f (e ∙ (numbered (omega arith))),
      record {
        at = best.at;
        passes = best.passes;
        proper = best.proper;
        greatest = ((λ t. cc (f, t)), best.greatest);
      },
    ),
  )

  -- A row in front that passes: it stays the best unless a later one is greater.
  taken :
      (i : ℕ) (s : Summary) (ss : List Summary)
      → test s ≡ true
      → Proper s
      → Search (suc i) ss
      → Search i (s ∷ ss)
  unfolding best_from
  taken i s ss t p (inl (e, all)) = inr (
    0,
    s,
    (
      rw (t, e) (numbered (omega arith)),
      record {
        at = refl;
        passes = t;
        proper = p;
        greatest = ((λ x. omega arith), failing s ss all);
      },
    ),
  )
  taken i s ss t p (inr (k, b, (e, best))) =
      elim (Bool-cases (ltℚ s.avg_throughput b.avg_throughput)) [
        | inl less ↦ inr (
          suc k,
          b,
          (
            rw (t, e, less) (numbered (omega arith)),
            record {
              at = best.at;
              passes = best.passes;
              proper = best.proper;
              greatest = ((λ x. ground (arith, less)), best.greatest);
            },
          ),
        )
        | inr more ↦ inr (
          0,
          s,
          (
            rw (t, e, more) (numbered (omega arith)),
            record {
              at = refl;
              passes = t;
              proper = p;
              greatest = (
                (λ x. omega arith),
                greater b s ss best.proper (ground (arith, more)) best.greatest,
              );
            },
          ),
        )
      ]

  search : (i : ℕ) (ss : List Summary) → All Proper ss → Search i ss
  unfolding best_from
  search i [] p = inl (refl, tt)
  search i (s ∷ ss) (p, ps) = elim (Bool-cases (test s)) [
    | inl t ↦ taken i s ss t p (search (suc i) ss ps)
    | inr f ↦ skipped i s ss f (search (suc i) ss ps)
  ]

-- The benchmark marks one row of its summary, whatever the runs gave: the first number that
-- the search finds is a row that is viable, with less than five percent of failures and some
-- throughput, and no viable row has a greater throughput; without a viable row it is the best of
-- those with some throughput, and without such a row none is marked.
pub mark_optimal_lem :
    (ss : List Summary)
    → All Proper ss
    → ((mark_optimal ss ≡ ss) × All (λ s. runs_at_all s ≡ false) ss)
      ⊎ ((k : ℕ) × (b : Summary) × ((mark_optimal ss ≡ set_optimal k ss)
            × (IsBest is_viable ss k b
                ⊎ (All (λ s. is_viable s ≡ false) ss × IsBest runs_at_all ss k b))))
unfolding mark_optimal
mark_optimal_lem ss p = elim (search is_viable 0 ss p) [
  | inr (k, b, (e, best)) ↦ inr (k, b, (rw e (rw zero-add refl), inl best))
  | inl (e, none_viable) ↦ elim (search runs_at_all 0 ss p) [
    | inr (k, b, (f, best)) ↦ inr (k, b, (rw (e, f) (rw zero-add refl), inr (none_viable, best)))
    | inl (f, none_runs) ↦ inl (rw (e, f) refl, none_runs)
  ]
]
