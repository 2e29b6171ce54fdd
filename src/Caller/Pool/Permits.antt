-- ===== src/Caller/Pool/Permits.antt =====
-- pipeline/caller.py: how many tasks have a permit of the semaphore, and how far all tasks are.
use inference_forge.Base.{
  Option, none, some, ℕ, ◌+◌, ◌*◌, ◌≤◌, ◌<◌, ◌≡◌, Bool, true, false, refl, arith,
}
use inference_forge.Base.Tasks.{update, total, total-update, total-same}
use inference_forge.Errors.{Result, ok, raise}
use inference_forge.Json.{Json, get, Fields}
use inference_forge.Cache
use inference_forge.Caller.Service.{no_error}
use inference_forge.Text.{codes, Text}
use inference_forge.Cache.{Redis, Library, Cache}
use inference_forge.Caller.Pool.{
  Phase, idle, waiting, calling, storing, finished, Pool, initial, Step, look, acquire, cancel,
  end_call, store, Run, here, next, behind_look, behind_success, behind_call,
}

abbrev pub permits : Phase → ℕ
permits calling = 1
permits _ = 0

-- How many steps a task has left, at most.
abbrev pub rank : Phase → ℕ
rank idle = 4
rank waiting = 3
rank calling = 2
rank (storing _) = 1
rank (finished _) = 0

-- Behind the steps, a task holds no permit and has fewer steps left.
behind_look-lt :
    (r : Result (Option Json)) → (rank (behind_look r) ≤ 3) × (permits (behind_look r) ≡ 0)
behind_look-lt (raise e) = (omega arith, refl)
behind_look-lt (ok (some cached)) = (omega arith, refl)
behind_look-lt (ok none) = (omega arith, refl)

behind_success-lt :
    (b : Bool) (d : Fields) → (rank (behind_success b d) ≤ 1) × (permits (behind_success b d) ≡ 0)
behind_success-lt true d = (omega arith, refl)
behind_success-lt false d = (omega arith, refl)

behind_call-lt : (r : Result Fields) → (rank (behind_call r) ≤ 1) × (permits (behind_call r) ≡ 0)
behind_call-lt (raise e) = (omega arith, refl)
behind_call-lt (ok d) = behind_success-lt (no_error (get (codes "error") d)) d

-- From a step to another state no permit is made or lost, and all tasks together come nearer to
-- their end.
abbrev pub Moves {ℓ} : {S : Type ℓ} → ℕ → Pool S → Pool S → Type 0
Moves tasks s t =
    (t.free + total permits tasks t.phase ≡ s.free + total permits tasks s.phase)
    × (total rank tasks t.phase < total rank tasks s.phase)

module _ {ℓ} {S : Type ℓ} (redis : Redis S) (lib : Library) (tickets : ℕ → Text) (tasks : ℕ) where
  update-Moves :
      (i : ℕ) (p : Phase) (s : Pool S) (free : ℕ)
      → i < tasks
      → free + permits p ≡ s.free + permits (s.phase i)
      → rank p < rank (s.phase i)
      → (free + total permits tasks (update s.phase i p) ≡ s.free + total permits tasks s.phase)
        × (total rank tasks (update s.phase i p) < total rank tasks s.phase)
  update-Moves i p s free h e r =
      let a = total-update permits s.phase i p tasks h in
      let b = total-update rank s.phase i p tasks h in (omega (arith, a, e), omega (arith, b, r))

  pub Step-Moves :
      {i : ℕ} {s t : Pool S} → i < tasks → Step redis lib tickets i s t → Moves tasks s t
  Step-Moves {i} {s} h (look p e) =
      let (r, n) = behind_look-lt (Cache.get redis lib (tickets i) s.cache).0 in
      rw e (update-Moves i _ s _ h (rw p (omega (arith, n))) (rw p (omega (arith, r))))
  Step-Moves {i} {s} h (acquire n p q e) =
      rw e (update-Moves i _ s _ h (rw (p, q) (omega arith)) (rw p (omega arith)))
  Step-Moves {i} {s} h (cancel p e) = rw e (update-Moves i _ s _ h (rw p refl) (rw p (omega arith)))
  Step-Moves {i} {s} h (end_call r p e) =
      let (k, n) = behind_call-lt r in
      rw e (update-Moves i _ s _ h (rw p (omega (arith, n))) (rw p (omega (arith, k))))
  Step-Moves {i} {s} h (store d p e) =
      rw e (update-Moves i _ s _ h (rw p refl) (rw p (omega arith)))

  pub Run-Moves :
      {t : Pool S} {k : ℕ} {s : Pool S}
      → Run redis lib tickets tasks t s k
      → (t.free + total permits tasks t.phase ≡ s.free + total permits tasks s.phase)
        × (total rank tasks t.phase + k ≤ total rank tasks s.phase)
  Run-Moves here = (refl, omega arith)
  Run-Moves (next h st r) =
      let (a, b) = Step-Moves h st in
      let (c, d) = Run-Moves r in (omega (arith, a, c), omega (arith, b, d))

  -- However the tasks interleave, the permits that tasks have and those that are free are all of
  -- the semaphore's: no more than its limit of calls of the API are in flight, and a task that ends
  -- with an exception or is cancelled loses none.
  pub Run-permits :
      (limit k : ℕ) (c : Cache S) (t : Pool S)
      → Run redis lib tickets tasks t (initial limit c) k
      → total permits tasks t.phase + t.free ≡ limit
  Run-permits limit k c t r = omega (arith, (Run-Moves r).0, total-same permits idle tasks)

  -- However the tasks interleave, they take at most four steps each, where the retry
  -- loop with its attempts is one step.
  pub Run-bounded :
      (limit k : ℕ) (c : Cache S) (t : Pool S)
      → Run redis lib tickets tasks t (initial limit c) k
      → k ≤ tasks * 4
  Run-bounded limit k c t r = omega (arith, (Run-Moves r).1, total-same rank idle tasks)
