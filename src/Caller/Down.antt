-- ===== src/Caller/Down.antt =====
-- pipeline/caller.py: what tickets add to the count of API calls while the API is down.
use inference_forge.Base.{
  ℕ, zero, suc, ◌+◌, ◌*◌, ◌<◌, ◌≤◌, ◌≡◌, inl, inr, refl, some, none, List, [], ◌∷◌, length, Option,
  arith,
}
use inference_forge.Base.Fraction.{Fraction}
use inference_forge.Errors.{http_status, Result, ok, raise}
use inference_forge.Text.{Text, codes}
use inference_forge.Json.{Fields}
use inference_forge.Breaker.{Breaker, closed}
use inference_forge.Metrics.{Metrics, record_api_call}
use inference_forge.Caller.Retry.{
  World, Next, finish, fail_with, again, escape, Run, handle, try_once, proceed, noted, slept,
  ended, failure_result, loop, call_with_retry,
}
use inference_forge.Caller.Metered.{if_again, metered}
use inference_forge.Caller.Failures.{IsDown, Counts, attempted}

-- Tickets one behind the other, each with the breaker and the totals that the last one left.
unfoldable pub metered_in_turn : World → (ℕ → Fraction) → List Text → Breaker → Metrics → Metrics
metered_in_turn w latency [] b m = m
metered_in_turn w latency (t ∷ ts) b m =
    metered_in_turn w latency ts (call_with_retry w t b).breaker
      (metered w latency w.settings.max_retries 1 b m)

module _ (w : World) (latency : ℕ → Fraction) (b0 : Breaker) (from n : ℕ)
    (down : IsDown w b0 from n) where
  -- A run of at most `left` attempts, from `k` calls and the totals `m`.
  record Limited (left k : ℕ) (b : Breaker) (m : Metrics) (run : Run) (m' : Metrics) : Type 0 where
    calls : ℕ
    counts : Counts w b0 from n down calls run.breaker
    counted : m'.total_api_calls + k ≡ m.total_api_calls + calls
    read : run.breaker.reads ≤ b.reads + 4 * left

  last_call :
      (left k : ℕ) (b b' : Breaker) (m m' : Metrics) (result : Result Fields)
      → Counts w b0 from n down k b'
      → b'.reads ≤ b.reads + 4
      → (j : ℕ) → m'.total_api_calls + j ≡ m.total_api_calls + k
      → Limited (suc left) j b m (ended w result b') m'
  last_call left k b b' m m' result c few j same = record {
    calls = k;
    counts = c;
    counted = same;
    read = omega (arith, few);
  }

  one_more :
      (left k : ℕ) (b b' : Breaker) (m m1 : Metrics) (d : Option Fraction) (run : Run)
      (m' : Metrics)
      → b'.reads ≤ b.reads + 4
      → m1.total_api_calls ≡ suc m.total_api_calls
      → Limited left (suc k) b' m1 run m'
      → Limited (suc left) k b m (noted w d run) m'
  one_more left k b b' m m1 none run m' few one l = record {
    calls = l.calls;
    counts = l.counts;
    counted = omega (arith, one, l.counted);
    read = omega (arith, few, l.read);
  }
  one_more left k b b' m m1 (some d) run m' few one l = record {
    calls = l.calls;
    counts = l.counts;
    counted = omega (arith, one, l.counted);
    read = omega (arith, few, l.read);
  }

  undisturbed_sleep : (d : Option Fraction) (b : Breaker) → slept w d b ≡ b
  undisturbed_sleep none b = refl
  undisturbed_sleep (some d) b = down.undisturbed d b

  goes_on :
      (ticket : Text) (left k : ℕ) (b b' : Breaker) (m m1 : Metrics) (next : Next)
      (run : Breaker → Run) (rest : Breaker → Metrics → Metrics)
      → b'.reads ≤ b.reads + 4
      → m1.total_api_calls ≡ suc m.total_api_calls
      → Counts w b0 from n down (suc k) b'
      → Limited left (suc k) b' m1 (run b') (rest b' m1)
      → Limited (suc left) k b m (proceed w ticket b' next run) (if_again w latency next b' m1 rest)
  goes_on ticket left k b b' m m1 (finish d) run rest few one c l =
      last_call left (suc k) b b' m m1 (ok d) c few k (omega (arith, one))
  goes_on ticket left k b b' m m1 (fail_with e) run rest few one c l =
      last_call left (suc k) b b' m m1 (ok (failure_result ticket e)) c few k (omega (arith, one))
  goes_on ticket left k b b' m m1 (escape e) run rest few one c l =
      last_call left (suc k) b b' m m1 (raise e) c few k (omega (arith, one))
  goes_on ticket left k b b' m m1 (again d) run rest few one c l =
      rw (undisturbed_sleep d b') (one_more left k b b' m m1 d _ _ few one l)

  loop-Limited :
      (ticket : Text) (left attempt k : ℕ) (b : Breaker) (m : Metrics)
      → Counts w b0 from n down k b
      → b.reads + 4 * left ≤ b0.reads + n
      → Limited left k b m (loop w ticket left attempt b) (metered w latency left attempt b m)
  unfolding loop metered handle record_api_call
  loop-Limited ticket zero attempt k b m c room = record {
    calls = k;
    counts = c;
    counted = refl;
    read = omega arith;
  }
  loop-Limited ticket (suc left) attempt k b m c room =
      let (r, b') = try_once w attempt b in
      let (few, x) = attempted w b0 from n down attempt k b c (omega (arith, room)) in
      elim x [
        | inl (e, c') ↦ rw e (
            last_call left k b b' m m (ok (failure_result ticket (codes "circuit_breaker_open"))) c'
              few k refl)
        | inr (code, after, e, c') ↦ rw e (
            goes_on ticket left k b b' m (record_api_call 0 m)
              (handle w attempt (raise (http_status code after))) (loop w ticket left (suc attempt))
              (metered w latency left (suc attempt)) few refl c'
              (loop-Limited ticket left (suc attempt) (suc k) b' _ c' (omega (arith, room, few))))
      ]

  counts_few : (k : ℕ) (b : Breaker) → Counts w b0 from n down k b → k ≤ b0.failure_threshold
  counts_few k b c = elim c.stage [
    | inl (_, _, _, below) ↦ omega (arith, below)
    | inr (_, _, _, _, full) ↦ omega (arith, full)
  ]

  tickets_few :
      (ts : List Text) (k : ℕ) (b : Breaker) (m : Metrics)
      → Counts w b0 from n down k b
      → b.reads + 4 * (w.settings.max_retries * length ts) ≤ b0.reads + n
      → (metered_in_turn w latency ts b m).total_api_calls + k
        ≤ m.total_api_calls + b0.failure_threshold
  unfolding metered_in_turn call_with_retry
  tickets_few [] k b m c room = let few = counts_few k b c in omega (arith, few)
  tickets_few (t ∷ ts) k b m c room =
      let first = loop-Limited t w.settings.max_retries 1 k b m c (omega (arith, room)) in
      let run = loop w t w.settings.max_retries 1 b in
      let rest =
        tickets_few ts first.calls run.breaker (metered w latency w.settings.max_retries 1 b m)
          first.counts (omega (arith, room, first.read)) in
      omega (arith, rest, first.counted)

-- With the breaker enabled, a threshold of one or more, and the breaker closed with no failure in
-- its deque: while each call of the API ends with an error status, no other task uses the breaker,
-- and neither the window nor recovery_timeout runs out in the readings of the clock that the attempts
-- can make, tickets one behind the other, however many they are and however often each is tried,
-- let the count of API calls grow by no more than failure_threshold.
pub down_api_spared :
    (w : World) (latency : ℕ → Fraction) (ts : List Text) (b : Breaker) (m : Metrics) (from : ℕ)
    → IsDown w b from (4 * (w.settings.max_retries * length ts))
    → b.state ≡ closed
    → b.failure_timestamps ≡ []
    → 0 < b.failure_threshold
    → (metered_in_turn w latency ts b m).total_api_calls ≤ m.total_api_calls + b.failure_threshold
down_api_spared w latency ts b m from down s empty some_failure =
    let start : Counts w b from _ down 0 b = record {
      threshold = refl;
      window = refl;
      timeout = refl;
      later = omega arith;
      stage = inl (s, rw empty refl, rw empty tt, some_failure);
    } in
    let all = tickets_few w latency b from _ down ts 0 b m start (omega arith) in omega (arith, all)
