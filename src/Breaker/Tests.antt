-- ===== src/Breaker/Tests.antt =====
-- pipeline/circuit_breaker.py: runs of the breaker, and the theorems at concrete inputs.
use native.Mathlib.Decide.{ℕ_discrete}
use inference_forge.Base.{ℕ, ◌+◌, ◌≡◌, inl, refl, List, [], ◌∷◌, keep, length, arith}
use inference_forge.Errors.{json_decode, Result, ok, raise}
use inference_forge.Breaker.{
  closed, opened, Breaker, seconds, drop_old, new, maybe_transition, on_success, on_failure,
  failure_count,
}
use inference_forge.Breaker.Call.{settle, settle_probe, execute, half_open_probe, call}
use inference_forge.Breaker.Invariant.{IsValid}
use inference_forge.Breaker.Window.{IsMonotonic, in_window, IsTimed}
use inference_forge.Breaker.History.{
  Op, succeed, fail, check, count, run_ops, start, failure_count-run_ops,
}
use inference_forge.Breaker.Outcomes.{alone}
use inference_forge.Breaker.Probe.{failing_probe_counts_twice}
use inference_forge.Breaker.Diagram.{IsPath}
use inference_forge.Breaker.Tasks.{
  System, Reach, here, next, begin, acquire, end_run, read_clock, initial, begun, ended, acquired,
}
use inference_forge.Breaker.Recovery.{Passes, can_recover}
use inference_forge.Breaker.Safety.{one_probe, Reach-IsValid, Reach-IsPath}

-- A reading each second.
abbrev tick : ℕ → ℕ
tick i = seconds i

tick-IsMonotonic : IsMonotonic tick
tick-IsMonotonic i = omega arith

program : Unit {0}
unfolding new on_failure on_success maybe_transition settle settle_probe execute half_open_probe
    call failure_count run_ops ℕ_discrete drop_old
program = tt

abbrev fresh : Breaker
fresh = new tick 2 20 5 0

-- Two failures open a breaker with threshold 2.
abbrev tripped : Breaker
tripped = on_failure tick (on_failure tick fresh)

tripped-opened : tripped.state ≡ opened
unfolding program
tripped-opened = refl

fresh-IsTimed : IsTimed tick fresh
unfolding program
fresh-IsTimed = record { ascending = tt; past = tt }

abbrev ops : List Op
ops = fail ∷ check ∷ succeed ∷ count ∷ []

failure_count_example :
    let s = run_ops tick ops (start tick 3 20 5 0) in
    (failure_count tick s.breaker).0
    ≡ length (keep (in_window (seconds s.breaker.window_seconds) (tick s.breaker.reads)) s.failures)
failure_count_example = failure_count-run_ops tick tick-IsMonotonic 3 20 5 0 ops

abbrev seven : Result ℕ
seven = ok 7

abbrev broken : Result ℕ
broken = raise json_decode

abbrev fails : Breaker → Result ℕ × Breaker
fails = alone broken 3

reads-IsValid : (b : Breaker) → IsValid b → IsValid (fails b).1
reads-IsValid b h = ground arith

-- A breaker that waits for its probe.
abbrev recovering : Breaker
recovering = maybe_transition tick (record tripped { reads = 12 })

recovering-IsTimed : IsTimed tick recovering
unfolding program
recovering-IsTimed = record { ascending = omega arith; past = omega arith }

counts_twice_example :
    length (half_open_probe tick (λ x. x) (alone broken 3) recovering).1.failure_timestamps
    ≡ length (
        keep
          (in_window (seconds recovering.window_seconds) (tick (recovering.reads + 3 + 5)))
          recovering.failure_timestamps)
      + 2
unfolding program
counts_twice_example =
    failing_probe_counts_twice ℕ tick 3 recovering json_decode tick-IsMonotonic recovering-IsTimed
      refl ((λ e. cc), (λ e. cc)) (omega arith)

-- Task 0 fails and opens a breaker with threshold 1; task 1 waits five seconds and probes.
abbrev s0 : System
s0 = initial tick 1 20 5

abbrev s1 : System
s1 = begun tick 0 s0

abbrev s2 : System
s2 = ended 0 (settle tick broken s1.breaker) s1

abbrev s3 : System
s3 = record s2 { breaker = record s2.breaker { reads = s2.breaker.reads + 9 } }

abbrev s4 : System
s4 = begun tick 1 s3

abbrev s5 : System
s5 = acquired 1 s4

reach5 : Reach ℕ tick s0 s5
unfolding program
reach5 =
    next
      (next
        (next (next (next here (begin 0 refl refl)) (end_run 0 broken refl refl))
          (read_clock 9 refl))
        (begin 1 refl refl))
      (acquire 1 refl refl refl)

one_probe_example : ◌≡◌ {A = ℕ} 1 1
unfolding program
one_probe_example = one_probe ℕ tick 1 20 5 s5 reach5 1 1 (inl refl) (inl refl)

Reach-IsValid_example : IsValid s5.breaker
Reach-IsValid_example = Reach-IsValid ℕ tick 1 20 5 s5 (omega arith) reach5

Reach-IsPath_example : IsPath s5.breaker.log s5.breaker.state
Reach-IsPath_example = Reach-IsPath ℕ tick 1 20 5 s5 reach5

tick-Passes : Passes tick
tick-Passes reads date = (date, omega arith)

can_recover_example : (t : System) × (Reach ℕ tick s5 t × (t.breaker.state ≡ closed))
unfolding ℕ_discrete
can_recover_example = can_recover ℕ tick 1 20 5 s5 2 7 (omega arith) tick-Passes reach5 refl
