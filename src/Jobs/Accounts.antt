-- ===== src/Jobs/Accounts.antt =====
-- api/routes.py: the books of _process_job, round by round.
use native.Mathlib.Nat.{add-zero}
use mathlib.Core.List.{append_assoc}
use inference_forge.Estimator.Eta.{EtaEstimator, update}
use inference_forge.Base.{
  ℕ, zero, suc, ◌+◌, ◌≡◌, refl, sym, ◌∙◌, ap, Option, none, some, List, [], ◌∷◌, ◌++◌, length,
  length-append, All, All-append, keep, keep-append, arith,
}
use inference_forge.Errors.{Result, ok}
use inference_forge.Json.{Json, natural, get-put-other, Fields, put, text}
use inference_forge.Text.{Text, codes}
use inference_forge.Batcher.{Batch}
use inference_forge.Jobs.Store.{number_or_zero, hincrby, increment_progress, publish_progress}
use inference_forge.Jobs.Process.{
  Env, Round, Tally, tokens_of, sum_tokens, is_error, add_result, tally, advance, one_round, rounds,
}

-- A result whose tokens are a natural number.
abbrev pub HasTokens : Fields → Type 0
HasTokens d = (n : ℕ) × (tokens_of d ≡ natural n)

-- The tokens of all results, each a natural number.
abbrev pub number_of : Json → ℕ
number_of (natural n) = n
number_of _ = 0

abbrev pub all_tokens : List Fields → ℕ
all_tokens [] = 0
all_tokens (d ∷ ds) = number_of (tokens_of d) + all_tokens ds

pub sum_tokens-ok :
    (plus : Json → Json → Result Json)
    → ((a b : ℕ) → plus (natural a) (natural b) ≡ ok (natural (a + b)))
    → (k : ℕ) (ds : List Fields) → All HasTokens ds
    → sum_tokens plus (natural k) ds ≡ ok (natural (k + all_tokens ds))
unfolding sum_tokens
sum_tokens-ok plus adds k [] h = ap (λ m. ok (natural m)) (omega arith)
sum_tokens-ok plus adds k (d ∷ ds) ((n, e), h) =
    let rest = sum_tokens-ok plus adds (k + n) ds h in
    rw (sum_tokens, e, adds) (rest ∙ ap (λ m. ok (natural m)) (omega arith))

put-HasTokens : (t : Text) (d : Fields) → HasTokens d → HasTokens (put (codes "ticket") (text t) d)
put-HasTokens t d (n, e) =
    (n, rw (tokens_of, get-put-other (codes "ticket") (codes "tokens") (text t) d refl) e)

-- A tally of so many tickets.
pub record IsTally (n : ℕ) (t : Tally) : Type 0 where
  pub each : length t.results ≡ n
  pub split : t.completed + t.failed ≡ n
  pub errors : t.failed ≡ length (keep is_error t.results)
  pub tokens : All HasTokens t.results

add_result-IsTally :
    (d : Fields) (n : ℕ) (t : Tally) → HasTokens d → IsTally n t → IsTally (suc n) (add_result d t)
add_result-IsTally d n t h v = record {
  tokens = (h, v.tokens);
  each = ap suc v.each;
  split = ground (arith, v.split);
  errors = ground (arith, v.errors);
}

tally-IsTally :
    (ts : List Text) (rs : List Fields)
    → length rs ≡ length ts
    → All HasTokens rs
    → (t : Tally) × ((tally ts rs ≡ some t) × IsTally (length ts) t)
unfolding tally
tally-IsTally [] [] h has =
    (_, (refl, record { each = refl; split = refl; errors = refl; tokens = tt }))
tally-IsTally [] (r ∷ rs) h has = absurd (omega (arith, h))
tally-IsTally (t ∷ ts) [] h has = absurd (omega (arith, h))
tally-IsTally (t ∷ ts) (r ∷ rs) h (has, more) =
    let (u, (e, v)) = tally-IsTally ts rs (omega (arith, h)) more in
    (
      _,
      (
        rw e refl,
        add_result-IsTally (put (codes "ticket") (text t) r) (length ts) u (put-HasTokens t r has)
            v,
      ),
    )

-- The round's books, `n` tickets after the first: what the results are and what the counters say,
-- those of the store included.
pub record Books (first : Round) (n : ℕ) (r : Round) : Type 0 where
  pub new : List Fields
  pub all : r.all_results ≡ first.all_results ++ new
  pub each : length new ≡ n
  pub tokens : All HasTokens new
  pub completed : r.completed ≡ first.completed + n
  pub errors : r.failed_count ≡ first.failed_count + length (keep is_error new)
  pub stored :
      number_or_zero r.job.hash.completed + number_or_zero r.job.hash.failed_count
      ≡ number_or_zero first.job.hash.completed + number_or_zero first.job.hash.failed_count + n
  pub stored_errors :
      number_or_zero r.job.hash.failed_count
      ≡ number_or_zero first.job.hash.failed_count + length (keep is_error new)

-- The tickets of some batches.
abbrev pub tickets_in : List Batch → ℕ
tickets_in [] = 0
tickets_in (b ∷ bs) = length b.tickets + tickets_in bs

pub hincrby_lem : (n : ℕ) (o : Option ℕ) → number_or_zero (hincrby n o) ≡ number_or_zero o + n
hincrby_lem zero o = sym (add-zero (number_or_zero o))
hincrby_lem (suc n) o = refl

module _ (env : Env) (total : ℕ) (first : Round) where
  advance-Books :
      (n : ℕ) (batch : Batch) (t : Tally) (e : EtaEstimator) (r : Round)
      → IsTally (length batch.tickets) t
      → Books first n r
      → Books first (n + length batch.tickets) (advance env total batch t e r)
  unfolding publish_progress increment_progress
  advance-Books n batch t e r v b = record {
    new = b.new ++ t.results;
    all = ap (λ xs. xs ++ t.results) b.all ∙ append_assoc first.all_results b.new t.results;
    each = rw length-append (omega (arith, b.each, v.each));
    tokens = All-append HasTokens b.new t.results b.tokens v.tokens;
    completed = omega (arith, b.completed, v.split);
    errors = rw (keep-append, length-append) (omega (arith, b.errors, v.errors));
    stored = rw (hincrby_lem, hincrby_lem) (omega (arith, b.stored, v.split));
    stored_errors =
        rw (hincrby_lem, keep-append, length-append) (omega (arith, b.stored_errors, v.errors));
  }

module _ (env : Env) (total : ℕ) (first : Round)
    (answers : (i : ℕ) (ts : List Text)
      → (rs : List Fields) × ((env.process_batch i ts ≡ ok rs)
          × ((length rs ≡ length ts) × All HasTokens rs))) where
  one_round-Books :
      (i n : ℕ) (batch : Batch) (r : Round)
      → Books first n r
      → (r' : Round) × ((one_round env total i batch r ≡ ok r')
          × Books first (n + length batch.tickets) r')
  unfolding one_round
  one_round-Books i n batch r b =
      let (rs, (e, (l, has))) = answers i batch.tickets in
      let (t, (f, v)) = tally-IsTally batch.tickets rs l has in
      (
        _,
        (
          rw (e, f) refl,
          advance-Books env total first n batch t (update (env.duration i) r.estimator) r v b,
        ),
      )

  pub rounds-Books :
      (i n : ℕ) (batches : List Batch) (r : Round)
      → Books first n r
      → (r' : Round) × ((rounds env total i batches r ≡ (none, r'))
          × Books first (n + tickets_in batches) r')
  unfolding rounds
  rounds-Books i n [] r b = (r, (refl, rw add-zero b))
  rounds-Books i n (x ∷ xs) r b =
      let (r1, (e, b1)) = one_round-Books i n x r b in
      let (r2, (f, b2)) = rounds-Books (suc i) (n + length x.tickets) xs r1 b1 in
      (
        r2,
        (
          rw e f,
          let shift : n + (length x.tickets + tickets_in xs)
                  ≡ n + length x.tickets + tickets_in xs =
                omega arith in
              rw shift b2,
        ),
      )
