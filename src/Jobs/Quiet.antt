-- ===== src/Jobs/Quiet.antt =====
-- api/routes.py: what the loop of _process_job leaves alone.
use mathlib.Core.List.{append-nil, append_assoc}
use inference_forge.Base.{
  ℕ, suc, ◌≡◌, refl, sym, ◌∙◌, ap, Option, none, some, List, [], ◌∷◌, ◌++◌, All, All-append,
}
use inference_forge.Errors.{Error, Result, ok, raise}
use inference_forge.Json.{Fields}
use inference_forge.Batcher.{Batch}
use inference_forge.Estimator.Eta.{EtaEstimator, update}
use inference_forge.Jobs.Store.{
  Event, progress, finished, increment_progress, publish_progress, Job,
}
use inference_forge.Jobs.Process.{
  tallied, received, and_next, Tally, tally, Env, Round, rounds, one_round,
}

abbrev pub IsProgress : Event → Type 0
IsProgress (progress _ _ _ _ _) = Unit
IsProgress (finished _ _) = ⊥

-- Between two states of a job, only progress was published and no results were stored.
pub record IsQuiet (before after : Job) : Type 0 where
  pub results : after.results ≡ before.results
  pub new : List Event
  pub events : after.events ≡ before.events ++ new
  pub only_progress : All IsProgress new

module _ (env : Env) (total : ℕ) where
  IsQuiet-refl : (j : Job) → IsQuiet j j
  IsQuiet-refl j = record {
    results = refl;
    new = [];
    events = sym (append-nil j.events);
    only_progress = tt;
  }

  IsQuiet-trans : (i j k : Job) → IsQuiet i j → IsQuiet j k → IsQuiet i k
  IsQuiet-trans i j k a b = record {
    results = b.results ∙ a.results;
    new = a.new ++ b.new;
    events = b.events ∙ ap (λ es. es ++ b.new) a.events ∙ append_assoc i.events a.new b.new;
    only_progress = All-append IsProgress a.new b.new a.only_progress b.only_progress;
  }

  abbrev OnOk : Round → Result Round → Type 0
  OnOk r (raise e) = Unit
  OnOk r (ok r') = IsQuiet r.job r'.job

  tallied-OnOk :
      (batch : Batch) (t : Option Tally) (e : EtaEstimator) (r : Round)
      → OnOk r (tallied env total batch t e r)
  unfolding publish_progress increment_progress
  tallied-OnOk batch none e r = tt
  tallied-OnOk batch (some t) e r = record {
    results = refl;
    new = _ ∷ [];
    events = refl;
    only_progress = (tt, tt);
  }

  received-OnOk :
      (i : ℕ) (batch : Batch) (x : Result (List Fields)) (r : Round)
      → OnOk r (received env total i batch x r)
  received-OnOk i batch (raise e) r = tt
  received-OnOk i batch (ok results) r =
      tallied-OnOk batch (tally batch.tickets results) (update (env.duration i) r.estimator) r

  and_next-IsQuiet :
      (rest : Round → Option Error × Round) (r : Round) (x : Result Round)
      → OnOk r x
      → ((r' : Round) → IsQuiet r'.job (rest r').1.job)
      → IsQuiet r.job (and_next env total rest r x).1.job
  and_next-IsQuiet rest r (raise e) q f = IsQuiet-refl r.job
  and_next-IsQuiet rest r (ok r') q f = IsQuiet-trans r.job r'.job (rest r').1.job q (f r')

  pub rounds-IsQuiet :
      (i : ℕ) (batches : List Batch) (r : Round)
      → IsQuiet r.job (rounds env total i batches r).1.job
  unfolding rounds one_round
  rounds-IsQuiet i [] r = IsQuiet-refl r.job
  rounds-IsQuiet i (b ∷ bs) r =
      and_next-IsQuiet (rounds env total (suc i) bs) r _
        (received-OnOk i b (env.process_batch i b.tickets) r) (λ r'. rounds-IsQuiet (suc i) bs r')
