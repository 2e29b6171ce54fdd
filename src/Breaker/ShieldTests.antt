-- ===== src/Breaker/ShieldTests.antt =====
-- pipeline/circuit_breaker.py: a call that runs on while the breaker is open, and one that is
-- rejected.
use native.Mathlib.Decide.{ℕ_discrete}
use inference_forge.Base.{ℕ, ◌+◌, ◌<◌, ◌≡◌, refl, arith}
use inference_forge.Errors.{Error, json_decode, Result, raise}
use inference_forge.Breaker.{seconds, new, on_failure, maybe_transition, drop_old}
use inference_forge.Breaker.Call.{settle}
use inference_forge.Breaker.Tasks.{
  System, Reach, here, next, begin, end_run, initial, begun, ended, finished, running,
}
use inference_forge.Breaker.Probe.{CountsAsFailure}
use inference_forge.Breaker.Starts.{starts}
use inference_forge.Breaker.Limit.{calls_limited}
use inference_forge.Breaker.Shield.{StaysOpen, NoneStarts, open_shields}

abbrev tick : ℕ → ℕ
tick i = seconds i

program : Unit {0}
unfolding new on_failure maybe_transition drop_old settle ℕ_discrete
program = tt

abbrev broken : Result ℕ
broken = raise json_decode

-- Tasks 0 and 1 run, and task 0 opens a breaker with threshold 1 by its failure, in second 4.
abbrev idle_tasks : System
idle_tasks = initial tick 1 20 20

abbrev two_running : System
two_running = begun tick 1 (begun tick 0 idle_tasks)

abbrev opening : System
opening = ended 0 (settle tick broken two_running.breaker) two_running

-- Task 2 begins, and task 1 fails, in the seconds 5 to 7.
abbrev shielded : System
shielded = begun tick 2 opening

abbrev failed : System
failed = ended 1 (settle tick broken shielded.breaker) shielded

meanwhile : Reach ℕ tick opening failed
unfolding program
meanwhile = next (next here (begin 2 refl refl)) (end_run 1 broken refl refl)

two_phases : (shielded.phase 1 ≡ running) × (shielded.phase 2 ≡ finished)
unfolding program
two_phases = (refl, refl)

open_shields_example : StaysOpen opening.breaker failed.breaker × NoneStarts opening failed
unfolding program
open_shields_example =
    open_shields ℕ tick (λ i. omega arith) (seconds 4) {s = opening} {t = failed} refl refl
      meanwhile (omega arith)

whole_run : Reach ℕ tick idle_tasks failed
unfolding program
whole_run =
    next
      (next
        (next (next (next here (begin 0 refl refl)) (begin 1 refl refl))
          (end_run 0 broken refl refl))
        (begin 2 refl refl))
      (end_run 1 broken refl refl)

two_starts : starts ℕ tick whole_run ≡ 2
unfolding program whole_run
two_starts = refl

fails : (x : Error) × (broken ≡ raise x) × CountsAsFailure x
fails = (json_decode, refl, ((λ e. cc), λ e. cc))

calls_limited_example : starts ℕ tick whole_run < 1 + 2
unfolding program whole_run
calls_limited_example =
    calls_limited ℕ tick 2 {s = idle_tasks} {t = failed} (λ i. omega arith) refl refl (omega arith)
      (λ i. refl) whole_run (((((tt, tt), tt), fails), tt), fails)
      (((((tt, omega arith), omega arith), omega arith), omega arith), omega arith) (omega arith)
      (omega arith)
