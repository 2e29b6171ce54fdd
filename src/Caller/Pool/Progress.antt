-- ===== src/Caller/Pool/Progress.antt =====
-- pipeline/caller.py: the semaphore never blocks the tasks for good.
use native.Mathlib.Decide.{dec_lt}
use inference_forge.Base.{ℕ, zero, suc, ◌+◌, ◌≤◌, ◌<◌, ◌≡◌, refl, arith}
use inference_forge.Base.Tasks.{total, total-zero, some_weight}
use inference_forge.Errors.{Result, raise, cancelled}
use inference_forge.Json.{Fields}
use inference_forge.Text.{Text}
use inference_forge.Cache.{Redis, Library, Cache}
use inference_forge.Caller.Pool.{
  Phase, idle, waiting, calling, storing, finished, Pool, initial, permitted, called, looked, kept,
  Step, look, acquire, end_call, store, Run, here, next,
}
use inference_forge.Caller.Pool.Permits.{permits, rank, Step-Moves, Run-permits}

abbrev pub IsFinished : Phase → Type 0
IsFinished p = (r : Result Fields) × (p ≡ finished r)

zero_rank : (p : Phase) → rank p ≡ 0 → IsFinished p
zero_rank idle h = absurd (omega (arith, h))
zero_rank waiting h = absurd (omega (arith, h))
zero_rank calling h = absurd (omega (arith, h))
zero_rank (storing d) h = absurd (omega (arith, h))
zero_rank (finished r) h = (r, refl)

has_permit : (p : Phase) → 0 < permits p → p ≡ calling
has_permit idle h = absurd (omega (arith, h))
has_permit waiting h = absurd (omega (arith, h))
has_permit calling h = refl
has_permit (storing d) h = absurd (omega (arith, h))
has_permit (finished r) h = absurd (omega (arith, h))

module _ {ℓ} {S : Type ℓ} (redis : Redis S) (lib : Library) (tickets : ℕ → Text) (tasks : ℕ) where
  abbrev CanStep : Pool S → Type ℓ
  CanStep s = (j : ℕ) × (u : Pool S) × ((j < tasks) × Step redis lib tickets j s u)

  -- A task at the semaphore with no free permit waits for one that has a permit.
  waiting-CanStep :
      (s : Pool S) (i free : ℕ)
      → s.free ≡ free
      → 0 < free + total permits tasks s.phase
      → i < tasks
      → s.phase i ≡ waiting
      → CanStep s
  waiting-CanStep s i (suc n) e h b p = (i, permitted n i s, (b, acquire n p e refl))
  waiting-CanStep s i zero e h b p =
      let (j, (a, c)) = some_weight permits s.phase tasks (omega (arith, h)) in
      (
        j,
        called j (raise cancelled) s,
        (a, end_call (raise cancelled) (has_permit (s.phase j) c) refl),
      )

  task-CanStep :
      (s : Pool S) (i : ℕ) (p : Phase)
      → 0 < s.free + total permits tasks s.phase
      → i < tasks
      → s.phase i ≡ p
      → 0 < rank p
      → CanStep s
  task-CanStep s i idle h b e r = (i, looked redis lib tickets i s, (b, look e refl))
  task-CanStep s i waiting h b e r = waiting-CanStep s i s.free refl h b e
  task-CanStep s i calling h b e r =
      (i, called i (raise cancelled) s, (b, end_call (raise cancelled) e refl))
  task-CanStep s i (storing d) h b e r = (i, kept redis lib tickets i d s, (b, store d e refl))
  task-CanStep s i (finished x) h b e r = absurd (omega (arith, r))

  abbrev Completes : Pool S → Type ℓ
  Completes s =
      (k : ℕ) × (u : Pool S) × (Run redis lib tickets tasks u s k
        × ((i : ℕ) → i < tasks → IsFinished (u.phase i)))

  unfinished-CanStep :
      (s : Pool S)
      → 0 < s.free + total permits tasks s.phase
      → 0 < total rank tasks s.phase
      → CanStep s
  unfinished-CanStep s h p =
      let (i, (b, r)) = some_weight rank s.phase tasks p in task-CanStep s i (s.phase i) h b refl r

  finishes : (s : Pool S) → total rank tasks s.phase ≡ 0 → Completes s
  finishes s e = (0, s, (here, λ i h. zero_rank (s.phase i) (total-zero rank s.phase tasks e i h)))

  -- `n` bounds how many steps are left.
  completes :
      (n : ℕ) (s : Pool S)
      → total rank tasks s.phase ≤ n
      → 0 < s.free + total permits tasks s.phase
      → Completes s
  completes zero s b h = finishes s (omega (arith, b))
  completes (suc n) s b h = elim (dec_lt 0 (total rank tasks s.phase)) [
    | no q ↦ finishes s (omega (arith, q))
    | yes p ↦
        let (j, u, (l, st)) = unfinished-CanStep s h p in
        let (m, d) = Step-Moves redis lib tickets tasks l st in
        let (k, v, (r, f)) = completes n u (omega (arith, b, d)) (omega (arith, h, m)) in
        (suc k, v, (next l st r, f))
  ]

  -- With a limit that is not 0 the semaphore blocks no task for good: however the tasks have
  -- interleaved so far, the run goes on to a state in which all tasks have finished.
  pub Run-completes :
      (limit k : ℕ) (c : Cache S) (s : Pool S)
      → 0 < limit
      → Run redis lib tickets tasks s (initial limit c) k
      → (k' : ℕ) × (u : Pool S) × (Run redis lib tickets tasks u s k'
          × ((i : ℕ) → i < tasks → IsFinished (u.phase i)))
  Run-completes limit k c s h r =
      completes (total rank tasks s.phase) s (omega arith)
        (omega (arith, h, Run-permits redis lib tickets tasks limit k c s r))
