-- ===== src/Jobs/Intake.antt =====
-- api/routes.py: the end of process_tickets, with a Redis server whose commands may fail.
use inference_forge.Base.{ℕ, zero, suc, ◌≡◌, ◌⊎◌, refl, ap, ◌∙◌, inl, inr, some, List, length}
use inference_forge.Errors.{Error, Result, ok, raise}
use inference_forge.Text.{Text}
use inference_forge.Estimator.Eta.{EtaEstimator}
use inference_forge.Jobs.Store.{Job, pending, create_hash, expire, create, increment_progress}
use inference_forge.Jobs.Submit.{Submission, accept}
use inference_forge.Jobs.Faults.{Fault, works, lost, late, Server, sent, command, and_then}

module _ (job_ttl_seconds now : ℕ) (fault : ℕ → Fault) where
  -- if cached_count: increment_progress
  abbrev pub mark_cached : ℕ → Server → Result (Unit {0}) × Server
  mark_cached zero s = (ok tt, s)
  mark_cached (suc n) s = command fault (increment_progress (suc n) 0 (suc n)) s

  -- From job_store.create to the creation of the background task, which an exception skips.
  unfoldable pub faulty_accept : List Text → Submission → Server → Result (Unit {0}) × Server
  faulty_accept tickets s v =
      and_then (command fault (create_hash now (length tickets)) v)
        (λ v1. and_then (command fault (expire job_ttl_seconds) v1) (mark_cached s.cached_count))

  -- A job that no task will process: as it was before the request, or pending.
  abbrev pub IsStranded : Job → Job → Type 0
  IsStranded before after = (after ≡ before) ⊎ (after.hash.status ≡ some pending)

  abbrev Took : List Text → Submission → EtaEstimator → Job → Result (Unit {0}) × Server → Type 0
  Took tickets s e j (ok _, v) = v.job ≡ (accept job_ttl_seconds now e tickets s j).job
  Took tickets s e j (raise err, v) =
      IsStranded j v.job × ((n : ℕ) × ((fault n ≡ lost err) ⊎ (fault n ≡ late err)))

  module _ (tickets : List Text) (s : Submission) (e : EtaEstimator) (j : Job) where
    step :
        (f : Job → Job) (n : ℕ) (x : Fault) (v : Server)
        (rest : Server → Result (Unit {0}) × Server)
        → fault n ≡ x
        → IsStranded j v.job
        → IsStranded j (f v.job)
        → ((v' : Server) → v'.job ≡ f v.job → Took tickets s e j (rest v'))
        → Took tickets s e j (and_then (sent x f v) rest)
    step f n works v rest h a b next = next _ refl
    step f n (lost err) v rest h a b next = (a, (n, inl h))
    step f n (late err) v rest h a b next = (b, (n, inr h))

    last :
        (f : Job → Job) (n : ℕ) (x : Fault) (v : Server)
        → fault n ≡ x
        → IsStranded j v.job
        → IsStranded j (f v.job)
        → f v.job ≡ (accept job_ttl_seconds now e tickets s j).job
        → Took tickets s e j (sent x f v)
    last f n works v h a b c = c
    last f n (lost err) v h a b c = (a, (n, inl h))
    last f n (late err) v h a b c = (b, (n, inr h))

    marked :
        (cached : ℕ) (v : Server)
        → s.cached_count ≡ cached
        → v.job ≡ create job_ttl_seconds now (length tickets) j
        → Took tickets s e j (mark_cached cached v)
    unfolding accept create increment_progress
    marked zero v c h = rw c h
    marked (suc n) v c h =
        last _ v.commands _ v refl (inr (rw h refl)) (inr (rw h refl)) (rw (c, h) refl)

    took : (v : Server) → v.job ≡ j → Took tickets s e j (faulty_accept tickets s v)
    unfolding faulty_accept create
    took v h =
        step (create_hash now (length tickets)) v.commands _ v _ refl (inl h) (inr refl) (λ v1 h1.
          step (expire job_ttl_seconds) v1.commands _ v1 _ refl (inr (rw h1 refl))
            (inr (rw h1 refl))
            (λ v2 h2. marked s.cached_count v2 refl (
              h2
              ∙ ap (expire job_ttl_seconds) h1
              ∙ ap (λ x. expire job_ttl_seconds (create_hash now (length tickets) x)) h)))

    Took-cases :
        (x : Result (Unit {0}) × Server)
        → Took tickets s e j x
        → ((x.0 ≡ ok tt) × (x.1.job ≡ (accept job_ttl_seconds now e tickets s j).job))
          ⊎ ((err : Error) × ((x.0 ≡ raise err)
                × (IsStranded j x.1.job
                    × ((n : ℕ) × ((fault n ≡ lost err) ⊎ (fault n ≡ late err))))))
    Took-cases (ok y, v) h = inl (refl, h)
    Took-cases (raise err, v) h = inr (err, (refl, h))

  -- Whatever commands of Redis fail when a request is accepted: either it is, with the job as on a
  -- server that is up, or the exception of a command ends the request, and its job, if there is
  -- one, is pending, with no task to process it.
  pub faulty_accept_lem :
      (tickets : List Text) (s : Submission) (e : EtaEstimator) (v : Server)
      → let x = faulty_accept tickets s v in
        ((x.0 ≡ ok tt) × (x.1.job ≡ (accept job_ttl_seconds now e tickets s v.job).job))
        ⊎ ((err : Error) × ((x.0 ≡ raise err)
              × (IsStranded v.job x.1.job
                  × ((n : ℕ) × ((fault n ≡ lost err) ⊎ (fault n ≡ late err))))))
  faulty_accept_lem tickets s e v =
      Took-cases tickets s e v.job (faulty_accept tickets s v) (took tickets s e v.job v refl)
