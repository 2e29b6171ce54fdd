-- ===== src/App/Health/Active.antt =====
-- api/routes.py: _active_job_count, as the tasks of _process_job change it.
use inference_forge.Base.{ℕ, suc, ◌+◌, ◌-◌, ◌≤◌, ◌<◌, ◌≡◌, arith}
use inference_forge.Base.Tasks.{update, total, total-update, total-same, total-has}

-- `starting` is behind the increment and before the try statement, `working` in it, `done` behind
-- its finally clause; `broken` ended with an exception of the first steps.
pub data Phase : Type 0 where
  idle starting working done broken : Phase

pub record Jobs : Type 0 where
  pub active_job_count : ℕ
  pub phase : ℕ → Phase

abbrev pub moved : ℕ → Phase → Jobs → Jobs
moved i p s = record s { phase = update s.phase i p }

-- enqueue_many and job_store.start may raise, which nothing handles.
pub data Step (i : ℕ) (s : Jobs) (t : Jobs) : Type 0 where
  begin :
      s.phase i ≡ idle
      → t ≡ record (moved i starting s) { active_job_count = suc s.active_job_count }
      → Step i s t
  enter : s.phase i ≡ starting → t ≡ moved i working s → Step i s t
  fault : s.phase i ≡ starting → t ≡ moved i broken s → Step i s t
  end :
      s.phase i ≡ working
      → t ≡ record (moved i done s) { active_job_count = s.active_job_count - 1 }
      → Step i s t

pub data Reach (jobs : ℕ) (s : Jobs) : Jobs → Type 0 where
  here : Reach jobs s s
  next : {i : ℕ} {t u : Jobs} → Reach jobs s t → i < jobs → Step i t u → Reach jobs s u

abbrev pub initial : Jobs
initial = record { active_job_count = 0; phase = λ _. idle }

abbrev pub running : Phase → ℕ
running starting = 1
running working = 1
running _ = 0

abbrev pub lost : Phase → ℕ
lost broken = 1
lost _ = 0

abbrev Counted : ℕ → Jobs → Type 0
Counted jobs s = s.active_job_count ≡ total running jobs s.phase + total lost jobs s.phase

update-Counted :
    (jobs i : ℕ) (p : Phase) (s : Jobs) (count : ℕ)
    → i < jobs
    → Counted jobs s
    → (running (s.phase i) ≤ s.active_job_count
        → count + running (s.phase i) + lost (s.phase i) ≡ s.active_job_count + running p + lost p)
    → Counted jobs (record { active_job_count = count; phase = update s.phase i p })
update-Counted jobs i p s count h c e =
    let a = total-update running s.phase i p jobs h in
    let b = total-update lost s.phase i p jobs h in
    let d = total-has running s.phase i jobs h in omega (arith, a, b, c, e (omega (arith, c, d)))

Step-Counted : (jobs i : ℕ) (s t : Jobs) → i < jobs → Step i s t → Counted jobs s → Counted jobs t
Step-Counted jobs i s t h (begin p e) c =
    rw e
      (update-Counted jobs i starting s (suc s.active_job_count) h c (rw p (λ k. omega (arith, k))))
Step-Counted jobs i s t h (enter p e) c =
    rw e (update-Counted jobs i working s s.active_job_count h c (rw p (λ k. omega (arith, k))))
Step-Counted jobs i s t h (fault p e) c =
    rw e (update-Counted jobs i broken s s.active_job_count h c (rw p (λ k. omega (arith, k))))
Step-Counted jobs i s t h (end p e) c =
    rw e (update-Counted jobs i done s (s.active_job_count - 1) h c (rw p (λ k. omega (arith, k))))

Reach-Counted : (jobs : ℕ) (s t : Jobs) → Reach jobs s t → Counted jobs s → Counted jobs t
Reach-Counted jobs s t here c = c
Reach-Counted jobs s t (next {i} {t = m} r h st) c =
    Step-Counted jobs i m t h st (Reach-Counted jobs s m r c)

-- However the tasks of the jobs interleave, the count that /health shows is the number of jobs that
-- run and of those whose task ended with an exception of its first steps: these are shown as active
-- for good.
pub Reach-active :
    (jobs : ℕ) (t : Jobs)
    → Reach jobs initial t
    → t.active_job_count ≡ total running jobs t.phase + total lost jobs t.phase
Reach-active jobs t r =
    Reach-Counted jobs initial t r
      (omega (arith, total-same running idle jobs, total-same lost idle jobs))
