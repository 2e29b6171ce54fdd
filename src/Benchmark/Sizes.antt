-- ===== src/Benchmark/Sizes.antt =====
-- benchmarks/run_benchmark.py: the batch sizes read from the environment.
use inference_forge.Base.{
  ℕ, zero, suc, ◌<◌, ◌≢◌, Bool-cases, inl, inr, Option, none, some, List, [], ◌∷◌, All, arith,
}
use inference_forge.Config.{ℤ, pos, negsuc}
use inference_forge.Text.{Text, strip, is_empty}
use inference_forge.Benchmark.{add_positive, positives, or_list, split_on, env_int_list}

-- Sizes that a sweep can run: there are some, and each is positive.
abbrev pub AreSizes : List ℕ → Type 0
AreSizes ns = (ns ≢ []) × All (λ n. 0 < n) ns

module _ (int : Text → Option ℤ) where
  add_positive-All :
      (v : Option ℤ) (out : List ℕ)
      → All (λ n. 0 < n) out
      → All (λ n. 0 < n) (add_positive int v out)
  add_positive-All none out h = h
  add_positive-All (some (pos zero)) out h = h
  add_positive-All (some (pos (suc n))) out h = (omega arith, h)
  add_positive-All (some (negsuc n)) out h = h

  positives-All : (parts : List Text) → All (λ n. 0 < n) (positives int parts)
  unfolding positives
  positives-All [] = tt
  positives-All (part ∷ parts) = elim (Bool-cases (is_empty (strip part))) [
    | inl e ↦ rw e (positives-All parts)
    | inr e ↦ rw e (add_positive-All (int (strip part)) _ (positives-All parts))
  ]

  or_list-AreSizes :
      (ns default : List ℕ) → All (λ n. 0 < n) ns → AreSizes default → AreSizes (or_list ns default)
  or_list-AreSizes [] default h d = d
  or_list-AreSizes (n ∷ ns) default h d = ((λ e. cc), h)

  -- Whatever text the variable has, and whatever int() makes of its parts, the sizes to sweep are
  -- positive and there are some, if those of the default are.
  pub env_int_list-AreSizes :
      (v : Option Text) (default : List ℕ)
      → AreSizes default
      → AreSizes (env_int_list int v default)
  unfolding env_int_list
  env_int_list-AreSizes none default d = d
  env_int_list-AreSizes (some []) default d = d
  env_int_list-AreSizes (some (c ∷ cs)) default d =
      or_list-AreSizes _ default (positives-All (split_on 0x2c (c ∷ cs))) d
