-- ===== src/Jobs/Faulty.antt =====
-- api/routes.py: a server without faults gives the job of _process_job over a store that is up.
use inference_forge.Base.{ℕ, suc, ◌≡◌, refl, sym, ◌∙◌, ap, Option, none, some, List, [], ◌∷◌}
use inference_forge.Errors.{
  Error, circuit_breaker_open, http_status, json_decode, value_error, other_exception, cancelled,
  Result, ok, raise,
}
use inference_forge.Json.{Json, natural, Fields}
use inference_forge.Batcher.{Batch}
use inference_forge.Estimator.Eta.{EtaEstimator, update}
use inference_forge.Jobs.Store.{Job, start}
use inference_forge.Jobs.Process.{
  Env, Round, Tally, tally, sum_tokens, first_round, tallied, received, one_round, and_next, rounds,
  complete, conclude, on_exception, process_job,
}
use inference_forge.Jobs.Faults.{
  Fault, works, Server, command, local, counted, answered, go_on, faulty_rounds, with_stats,
  completed, handled, faulty_job,
}

abbrev with_job : Round → Job → Round
with_job r j = record r { job = j }

-- The same end of the loop: the exception, and the job; or the local variables and the job.
abbrev Agrees : Result Round × Server → Option Error × Round → Type 0
Agrees (raise e, s) (o, r) = (o ≡ some e) × (r.job ≡ s.job)
Agrees (ok l, s) (o, r) = (o ≡ none) × (r ≡ with_job l s.job)

module _ (env : Env) (total : ℕ) (fault : ℕ → Fault) (no_fault : (n : ℕ) → fault n ≡ works) where
  command-works :
      (f : Job → Job) (s : Server)
      → command fault f s ≡ (ok tt, record { job = f s.job; commands = suc s.commands })
  command-works f s = rw no_fault refl

  counted-Agrees :
      (i : ℕ) (b : Batch) (bs : List Batch) (t : Option Tally) (e : EtaEstimator) (r : Round)
      (s : Server)
      → ((r' : Round) (s' : Server)
          → Agrees
              (faulty_rounds env total fault (suc i) bs r' s')
              (rounds env total (suc i) bs (with_job r' s'.job)))
      → Agrees
          (go_on env total fault
            (faulty_rounds env total fault (suc i) bs)
            (counted env total fault b t e r s))
          (and_next env total
            (rounds env total (suc i) bs)
            (with_job r s.job)
            (tallied env total b t e (with_job r s.job)))
  counted-Agrees i b bs none e r s rest = (refl, refl)
  counted-Agrees i b bs (some t) e r s rest =
      rw (command-works, command-works) (rest (local env total fault t e r) _)

  answered-Agrees :
      (i : ℕ) (b : Batch) (bs : List Batch) (x : Result (List Fields)) (r : Round) (s : Server)
      → ((r' : Round) (s' : Server)
          → Agrees
              (faulty_rounds env total fault (suc i) bs r' s')
              (rounds env total (suc i) bs (with_job r' s'.job)))
      → Agrees
          (go_on env total fault
            (faulty_rounds env total fault (suc i) bs)
            (answered env total fault i b x r s))
          (and_next env total
            (rounds env total (suc i) bs)
            (with_job r s.job)
            (received env total i b x (with_job r s.job)))
  answered-Agrees i b bs (raise e) r s rest = (refl, refl)
  answered-Agrees i b bs (ok results) r s rest =
      counted-Agrees i b bs (tally b.tickets results) (update (env.duration i) r.estimator) r s rest

  faulty_rounds-Agrees :
      (i : ℕ) (bs : List Batch) (r : Round) (s : Server)
      → Agrees (faulty_rounds env total fault i bs r s) (rounds env total i bs (with_job r s.job))
  unfolding faulty_rounds rounds one_round
  faulty_rounds-Agrees i [] r s = (refl, refl)
  faulty_rounds-Agrees i (b ∷ bs) r s =
      answered-Agrees i b bs (env.process_batch i b.tickets) r s
        (λ r' s'. faulty_rounds-Agrees (suc i) bs r' s')

  handled_raise :
      (e : Error) (s : Server)
      → (handled env total fault (raise e, s)).1.job ≡ on_exception env total e s.job
  handled_raise cancelled s = refl
  handled_raise circuit_breaker_open s = rw command-works refl
  handled_raise (http_status _ _) s = rw command-works refl
  handled_raise json_decode s = rw command-works refl
  handled_raise value_error s = rw command-works refl
  handled_raise (other_exception _) s = rw command-works refl

  with_stats-complete :
      (l : Round) (x : Result Json) (s : Server)
      → (handled env total fault (with_stats env total fault l x s)).1.job
        ≡ complete env total x (with_job l s.job)
  with_stats-complete l (raise e) s = handled_raise e s
  with_stats-complete l (ok tokens) s = rw (command-works, command-works) refl

  ends_alike :
      (x : Result Round × Server) (y : Option Error × Round)
      → Agrees x y
      → (handled env total fault (completed env total fault x)).1.job ≡ conclude env total y
  ends_alike (raise e, s) (o, r) (a, b) =
      handled_raise e s
      ∙ ap (on_exception env total e) (sym b)
      ∙ ap (λ x. conclude env total (x, r)) (sym a)
  ends_alike (ok l, s) (o, r) (a, b) =
      with_stats-complete l (sum_tokens env.plus (natural 0) l.all_results) s
      ∙ ap (λ x. conclude env total (none, x)) (sym b)
      ∙ ap (λ x. conclude env total (x, r)) (sym a)

  -- With a server on which every command works, the job ends as without faults.
  pub faulty_job_works :
      (batches : List Batch) (pre_cached : ℕ) (pre : List Fields) (e : EtaEstimator) (s : Server)
      → (faulty_job env total fault batches pre_cached pre e s).1.job
        ≡ process_job env total batches pre_cached pre e s.job
  unfolding faulty_job process_job
  faulty_job_works batches pre_cached pre e s = rw command-works (
      ends_alike _ _ (
        faulty_rounds-Agrees 0 batches
          (first_round env total pre_cached pre e (start env.started_at s.job))
          (record { job = start env.started_at s.job; commands = suc s.commands })))
