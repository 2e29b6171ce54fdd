-- ===== src/App/Tests.antt =====
-- main.py and api/routes.py: a start without Redis, and jobs that are counted.
use native.Mathlib.Decide.{ℕ_discrete}
use inference_forge.Base.{ℕ, ◌+◌, ◌≡◌, refl, List, [], ◌∷◌, arith}
use inference_forge.Base.Fraction.{Fraction, whole}
use inference_forge.Base.Tasks.{total}
use inference_forge.Errors.{other_exception, Result, ok, raise}
use inference_forge.Breaker.{new}
use inference_forge.App.{Client, lifespan}
use inference_forge.App.Lifespan.{left_open}
use inference_forge.App.Health.{Process}
use inference_forge.App.Health.Active.{
  Jobs, begin, enter, fault, end, Reach, here, next, initial, starting, working, broken, done,
  moved, running, lost, Reach-active,
}

abbrev refused : Result (Unit {0})
refused = raise (other_exception "ConnectionError")

abbrev closes : Client → Result (Unit {0})
closes c = ok tt

two_left : left_open (lifespan closes closes refused (ok tt)).actions ≡ 2
unfolding lifespan
two_left = refl

abbrev process : Process
process = record {
  metrics = record {
    latency_window = whole 3 ∷ [];
    total_tokens = 70;
    total_api_calls = 2;
    total_cache_hits = 1;
    total_cache_misses = 2;
  };
  breaker = new (λ i. i) 5 20 30 0;
  queue_depth = 4;
  active_job_count = 1;
}

abbrev first_of : ℕ → List Fraction → Fraction
first_of p [] = whole 0
first_of p (x ∷ xs) = x

-- Job 0 works, and Redis is down at the start of job 1.
abbrev s1 : Jobs
s1 = record (moved 0 starting initial) { active_job_count = 1 }

abbrev s2 : Jobs
s2 = moved 0 working s1

abbrev s3 : Jobs
s3 = record (moved 1 starting s2) { active_job_count = 2 }

abbrev s4 : Jobs
s4 = moved 1 broken s3

abbrev s5 : Jobs
s5 = record (moved 0 done s4) { active_job_count = 1 }

reach5 : Reach 2 initial s5
unfolding ℕ_discrete
reach5 =
    next {i = 0} {t = s4}
      (next {i = 1} {t = s3}
        (next {i = 1} {t = s2}
          (next {i = 0} {t = s1} (next {i = 0} {t = initial} here (omega arith) (begin refl refl))
            (omega arith) (enter refl refl))
          (omega arith) (begin refl refl))
        (omega arith) (fault refl refl))
      (omega arith) (end refl refl)

Reach-active_example : s5.active_job_count ≡ total running 2 s5.phase + total lost 2 s5.phase
Reach-active_example = Reach-active 2 s5 reach5
