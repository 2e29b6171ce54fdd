-- ===== src/Benchmark/Tickets.antt =====
-- benchmarks/run_benchmark.py: how many tickets a run has, and how many results it counts.
use inference_forge.Base.{
  ℕ, zero, suc, ◌+◌, ◌-◌, ◌≤◌, ◌≡◌, refl, ap, ◌∙◌, not, Bool, List, [], ◌∷◌, ◌++◌, length,
  length-append, keep, arith,
}
use inference_forge.Base.Fraction.{Fraction}
use inference_forge.Errors.{Error, Result, ok, raise}
use inference_forge.Json.{Json, natural, Fields}
use inference_forge.Jobs.Process.{is_error, sum_tokens}
use inference_forge.Jobs.Accounts.{sum_tokens-ok}
use inference_forge.Jobs.Whole.{Counts, process_batch-HasTokens}
use inference_forge.Caller.Service.{take, process_batch}
use inference_forge.Caller.Batches.{process_batch_lem}
use inference_forge.Text.{Text}
use inference_forge.Benchmark.{
  two_fifths, at_least_one, draws, make_tickets, RunResult, new_result, per_second, with_tokens,
  run_one,
}

length-draws : (draw : ℕ → Text) (i n : ℕ) → length (draws draw i n) ≡ n
length-draws draw i zero = refl
length-draws draw i (suc n) = ap suc (length-draws draw (suc i) n)

length-take {ℓ} : {A : Type ℓ} (n : ℕ) (xs : List A) → n ≤ length xs → length (take n xs) ≡ n
length-take zero xs h = refl
length-take (suc n) [] h = absurd (omega (arith, h))
length-take (suc n) (x ∷ xs) h = ap suc (length-take n xs (omega (arith, h)))

length-kept {ℓ} :
    {A : Type ℓ} (test : A → Bool) (xs : List A)
    → length (keep (λ x. not (test x)) xs) + length (keep test xs) ≡ length xs
length-kept test [] = refl
length-kept test (x ∷ xs) = ground (arith, length-kept test xs)

module _ (simple medium complex : ℕ → Text) (shuffle : List Text → List Text)
    (shuffles : (ts : List Text) → length (shuffle ts) ≡ length ts) where
  enough_tickets :
      (n : ℕ)
      → n
        ≤ length (
            draws simple 0 (at_least_one (two_fifths n))
            ++ draws medium 0 (at_least_one (two_fifths n))
            ++ draws complex 0 (n - at_least_one (two_fifths n) - at_least_one (two_fifths n)))
  enough_tickets n =
      let m = at_least_one (two_fifths n) in
      rw (length-append, length-append, length-draws, length-draws, length-draws) (omega arith)

  -- A run has as many tickets as its batch size says.
  pub length-make_tickets : (n : ℕ) → length (make_tickets simple medium complex shuffle n) ≡ n
  unfolding make_tickets
  length-make_tickets n = length-take n _ (rw shuffles (enough_tickets n))

  module _ (describe : Error → Text) (plus : Json → Json → Result Json)
      (adds : (a b : ℕ) → plus (natural a) (natural b) ≡ ok (natural (a + b))) where
    with_tokens-ok :
        (x : Result Json) (v : Json) (items : List Fields) (before : RunResult)
        → x ≡ ok v
        → (r : RunResult) × (with_tokens describe plus x items before ≡ ok r)
          × (r.success_count + r.failure_count ≡ length items)
          × (r.error ≡ before.error)
    with_tokens-ok (raise e) v items before h = cc
    with_tokens-ok (ok w) v items before h = (_, refl, length-kept is_error items, refl)

    -- A run of the caller's process_batch on the tickets of make_tickets, whatever the tasks of the
    -- tickets end with and whatever is drawn, as long as all results count their tokens by natural
    -- numbers: it ends without an error, and its successes and failures are as many as the batch
    -- size says.
    pub run_one_lem :
        (task : ℕ → Text → Result Fields) (n rep : ℕ) (elapsed : Fraction)
        → Counts task
        → (r : RunResult) × (run_one describe plus
              (λ ts. ok (process_batch describe task ts))
              (make_tickets simple medium complex shuffle n)
              n
              rep
              elapsed
            ≡ ok r)
          × (r.success_count + r.failure_count ≡ n)
          × (r.error ≡ [])
    unfolding run_one
    run_one_lem task n rep elapsed counts =
        let ts = make_tickets simple medium complex shuffle n in
        let items = process_batch describe task ts in
        let e = sum_tokens-ok plus adds 0 items (process_batch-HasTokens describe task counts ts) in
        let (r, made, counted, clean) =
          with_tokens-ok (sum_tokens plus (natural 0) items) _ items
            (record (new_result n rep) { duration_s = elapsed; throughput = per_second n elapsed })
            e in
        (r, made, counted ∙ (process_batch_lem describe task ts).0 ∙ length-make_tickets n, clean)
