-- ===== src/Benchmark.antt =====
-- benchmarks/run_benchmark.py: the sizes it sweeps, the tickets it makes, a run and the summaries.
--
-- random's draws are any texts, and its shuffle is a function of the list. The mean, the
-- percentage and the throughput are exact fractions, not rounded; the cost, which is the tokens
-- times a constant, is left out, as are the console's tables.
pub mod Tickets
pub mod Sizes
pub mod Optimal
mod Tests
use inference_forge.Base.{
  ℕ, zero, suc, ◌+◌, ◌-◌, ◌*◌, ◌/◌, Bool, true, false, not, Option, none, some, List, [], ◌∷◌, ◌++◌,
  ltb, leb, ◌==◌, ◌&&◌, keep, length, map, if◌then◌else◌,
}
use inference_forge.Base.Fraction.{Fraction, whole, ◌+ℚ◌}
use inference_forge.Errors.{Error, cancelled, Result, ok, raise}
use inference_forge.Config.{ℤ, pos, negsuc}
use inference_forge.Json.{Json, natural, Fields}
use inference_forge.Jobs.Process.{is_error, sum_tokens}
use inference_forge.Caller.Service.{take}
use inference_forge.Text.{Text, codes, strip, is_empty}

-- out or default
abbrev pub or_list : List ℕ → List ℕ → List ℕ
or_list [] default = default
or_list (n ∷ ns) default = n ∷ ns

abbrev pub add_char : ℕ → List Text → List Text
add_char c [] = (c ∷ []) ∷ []
add_char c (t ∷ ts) = (c ∷ t) ∷ ts

-- v.split(sep)
abbrev pub split_on : ℕ → Text → List Text
split_on sep [] = [] ∷ []
split_on sep (c ∷ cs) =
    let rest = split_on sep cs in if c == sep then [] ∷ rest else add_char c rest

-- int() of a text, none where it raises ValueError.
module _ (int : Text → Option ℤ) where
  abbrev pub or_default : ℤ → Option ℤ → ℤ
  or_default default none = default
  or_default default (some n) = n

  unfoldable pub env_int : Option Text → ℤ → ℤ
  env_int none default = default
  env_int (some v) default = or_default default (int v)

  abbrev pub add_positive : Option ℤ → List ℕ → List ℕ
  add_positive (some (pos (suc n))) out = suc n ∷ out
  add_positive _ out = out

  -- The loop over the parts.
  unfoldable pub positives : List Text → List ℕ
  positives [] = []
  positives (part ∷ parts) =
      let rest = positives parts in
      if is_empty (strip part) then rest else add_positive (int (strip part)) rest

  unfoldable pub env_int_list : Option Text → List ℕ → List ℕ
  env_int_list none default = default
  env_int_list (some []) default = default
  env_int_list (some (c ∷ cs)) default = or_list (positives (split_on 0x2c (c ∷ cs))) default

-- int(n * 0.40) is the whole part of two fifths.
abbrev pub two_fifths : ℕ → ℕ
two_fifths n = n * 2 / 5

abbrev pub at_least_one : ℕ → ℕ
at_least_one zero = 1
at_least_one (suc n) = suc n

-- `count` draws from number `i` on.
abbrev pub draws : (ℕ → Text) → ℕ → ℕ → List Text
draws draw i zero = []
draws draw i (suc count) = draw i ∷ draws draw (suc i) count

module _ (simple medium complex : ℕ → Text) (shuffle : List Text → List Text) where
  unfoldable pub make_tickets : ℕ → List Text
  make_tickets n =
      let n_simple = at_least_one (two_fifths n) in
      let n_medium = at_least_one (two_fifths n) in
      let n_complex = n - n_simple - n_medium in
      take n
        (shuffle (draws simple 0 n_simple ++ draws medium 0 n_medium ++ draws complex 0 n_complex))

pub record RunResult : Type 0 where
  pub batch_size : ℕ
  pub rep : ℕ
  pub duration_s : Fraction
  pub throughput : Fraction
  pub total_tokens : Json
  pub success_count : ℕ
  pub failure_count : ℕ
  pub error : Text

abbrev pub new_result : ℕ → ℕ → RunResult
new_result batch_size rep = record {
  batch_size = batch_size;
  rep = rep;
  duration_s = whole 0;
  throughput = whole 0;
  total_tokens = natural 0;
  success_count = 0;
  failure_count = 0;
  error = [];
}

-- failure_count / total * 100 if total else 0.0
unfoldable pub failure_rate : RunResult → Fraction
failure_rate r =
    let total = r.success_count + r.failure_count in
    if total == 0 then whole 0 else record { num = r.failure_count * 100; den = total }

-- n / elapsed if elapsed > 0 else 0.0
abbrev pub per_second : ℕ → Fraction → Fraction
per_second n elapsed =
    if elapsed.num == 0 then whole 0 else record { num = n * elapsed.den; den = elapsed.num }

module _ (describe : Error → Text) (plus : Json → Json → Result Json) where
  -- except Exception: the run keeps what it has so far. A cancellation passes.
  abbrev pub errored : Error → RunResult → Result RunResult
  errored cancelled r = raise cancelled
  errored e r = ok (record r { error = describe e })

  abbrev pub with_tokens : Result Json → List Fields → RunResult → Result RunResult
  with_tokens (raise e) items r = errored e r
  with_tokens (ok tokens) items r = ok (record r {
    total_tokens = tokens;
    success_count = length (keep (λ d. not (is_error d)) items);
    failure_count = length (keep is_error items);
  })

  abbrev pub measured : Result (List Fields) → Fraction → RunResult → Result RunResult
  measured (raise e) elapsed r = errored e r
  measured (ok items) elapsed r =
      with_tokens (sum_tokens plus (natural 0) items) items
        (record r { duration_s = elapsed; throughput = per_second r.batch_size elapsed })

  -- `tickets` are those of make_tickets, and `process_batch` is the caller's, with a cache of its
  -- own.
  unfoldable pub run_one :
      (List Text → Result (List Fields)) → List Text → ℕ → ℕ → Fraction → Result RunResult
  run_one process_batch tickets batch_size rep elapsed =
      measured (process_batch tickets) elapsed (new_result batch_size rep)

pub record Summary : Type 0 where
  pub batch_size : ℕ
  pub avg_duration_s : Fraction
  pub avg_throughput : Fraction
  pub avg_failure_rate : Fraction
  pub reps_ok : ℕ
  pub optimal : Bool

abbrev pub sum_fractions : List Fraction → Fraction
sum_fractions [] = whole 0
sum_fractions (x ∷ xs) = x +ℚ sum_fractions xs

-- statistics.mean of a list that has items.
abbrev pub mean : List Fraction → Fraction
mean xs = let s = sum_fractions xs in record { num = s.num; den = s.den * length xs }

abbrev pub is_good : RunResult → Bool
is_good r = is_empty r.error

abbrev pub summary_of : ℕ → List RunResult → Summary
summary_of batch_size [] = record {
  batch_size = batch_size;
  avg_duration_s = whole 0;
  avg_throughput = whole 0;
  avg_failure_rate = whole 100;
  reps_ok = 0;
  optimal = false;
}
summary_of batch_size (r ∷ rs) = record {
  batch_size = batch_size;
  avg_duration_s = mean (map (λ x. x.duration_s) (r ∷ rs));
  avg_throughput = mean (map (λ x. x.throughput) (r ∷ rs));
  avg_failure_rate = mean (map failure_rate (r ∷ rs));
  reps_ok = length (r ∷ rs);
  optimal = false;
}

unfoldable pub summarise : List RunResult → ℕ → Summary
unfolding failure_rate
summarise runs batch_size = summary_of batch_size (keep is_good runs)

abbrev pub ltℚ : Fraction → Fraction → Bool
ltℚ a b = ltb (a.num * b.den) (b.num * a.den)

abbrev pub runs_at_all : Summary → Bool
runs_at_all s = ltℚ (whole 0) s.avg_throughput

abbrev pub is_viable : Summary → Bool
is_viable s = ltℚ s.avg_failure_rate (whole 5) && runs_at_all s

-- max over the rows that pass a test, from row `i` on: the first of the greatest, with its number.
abbrev pub better : ℕ × Summary → Option (ℕ × Summary) → ℕ × Summary
better a none = a
better a (some b) = if ltℚ a.1.avg_throughput b.1.avg_throughput then b else a

unfoldable pub best_from : (Summary → Bool) → ℕ → List Summary → Option (ℕ × Summary)
best_from test i [] = none
best_from test i (s ∷ ss) =
    let rest = best_from test (suc i) ss in if test s then some (better (i, s) rest) else rest

abbrev pub set_optimal : ℕ → List Summary → List Summary
set_optimal i [] = []
set_optimal zero (s ∷ ss) = record s { optimal = true } ∷ ss
set_optimal (suc i) (s ∷ ss) = s ∷ set_optimal i ss

abbrev pub marked : Option (ℕ × Summary) → List Summary → List Summary
marked none ss = ss
marked (some (i, _)) ss = set_optimal i ss

abbrev pub or_else : Option (ℕ × Summary) → Option (ℕ × Summary) → Option (ℕ × Summary)
or_else none other = other
or_else (some b) other = some b

-- The best of the viable rows, or of those with some throughput.
unfoldable pub mark_optimal : List Summary → List Summary
mark_optimal ss = marked (or_else (best_from is_viable 0 ss) (best_from runs_at_all 0 ss)) ss
