-- ===== src/Caller/Attempts.antt =====
-- pipeline/caller.py: which outcome of an attempt ends _call_with_retry, and after how many.
use Prim.Native.String.{String}
use mathlib.Core.Path.{subst}
use native.Mathlib.Nat.{zero-add, add-zero}
use inference_forge.Base.{
  ℕ, zero, suc, ◌+◌, lt→ltb, ltb→lt, Option-cases, ◌≡◌, ◌≢◌, ◌⊎◌, inl, inr, refl, sym, ◌∙◌, ap,
  ◌&&◌, Bool-cases, Bool, true, false, Option, none, some, ◌==◌, if◌then◌else◌, arith,
}
use inference_forge.Base.Fraction.{Fraction}
use inference_forge.Errors.{
  circuit_breaker_open, http_status, json_decode, value_error, other_exception, cancelled, Result,
  ok, raise,
}
use inference_forge.Text.{Text, codes}
use inference_forge.Json.{Json, null, boolean, natural, number, text, array, object, Fields}
use inference_forge.Breaker.{Breaker}
use inference_forge.Caller.Verdicts.{
  Decides, classified, rejected, refused, unreadable, stopped, Transient, no_dict, malformed,
  no_value, failed, status, limited, limited_blank, limited_for, limited_last,
}
use inference_forge.Caller.Retry.{
  World, Next, finish, fail_with, again, escape, Run, failure_result, member, fatal_status_codes,
  retryable_status_codes, handle, on_status, server_error, rate_limited, retries_left, pause,
  try_once, proceed, slept, loop, call_with_retry,
}

abbrev Retries : Next → Type 0
Retries (again d) = Unit
Retries _ = ⊥

abbrev sleep_of : Next → Option Fraction
sleep_of (again d) = d
sleep_of _ = none

either : (b : Bool) (x y : Next) → Retries x → Retries y → Retries (if b then x else y)
either true x y hx hy = hx
either false x y hx hy = hy

module _ (w : World) where
  -- The breaker at the start of the attempt after this one.
  abbrev pub next : ℕ → Breaker → Breaker
  next attempt b = let (r, b') = try_once w attempt b in slept w (sleep_of (handle w attempt r)) b'

  -- So many attempts from this one on all fail and are retried.
  abbrev pub AllTransient : ℕ → ℕ → Breaker → Type 0
  AllTransient zero attempt b = Unit
  AllTransient (suc n) attempt b =
      Transient w attempt (try_once w attempt b).0 × AllTransient n (suc attempt) (next attempt b)

  abbrev pub after : ℕ → ℕ → Breaker → Breaker
  after zero attempt b = b
  after (suc n) attempt b = after n (suc attempt) (next attempt b)

  rate_limited-Retries :
      (attempt : ℕ) (header : String) (seconds : Fraction)
      → w.to_float header ≡ some seconds
      → Retries (rate_limited w attempt (some header))
  rate_limited-Retries attempt String.[] seconds e = tt
  rate_limited-Retries attempt (String.◌∷◌ c s) seconds e = rw (rate_limited, e) tt

  pause-Retries : (attempt : ℕ) → Retries (pause w attempt)
  pause-Retries attempt = either (retries_left w attempt) _ _ tt tt

  server_error-Retries : (attempt s : ℕ) → Retries (server_error w attempt s)
  unfolding server_error
  server_error-Retries attempt s =
      either (member s retryable_status_codes && retries_left w attempt) _ _ tt tt

  status-Retries :
      (attempt s : ℕ) (a : Option String)
      → member s fatal_status_codes ≡ false
      → s ≢ 429
      → Retries (on_status w attempt s a)
  unfolding on_status
  status-Retries attempt s a f n = elim (Bool-cases (s == 429)) [
    | inl same ↦ absurd (n (ground arith))
    | inr other ↦ rw (f, other) (server_error-Retries attempt s)
  ]

  handle-Retries :
      (attempt : ℕ) (r : Result (Json × Json))
      → Transient w attempt r
      → Retries (handle w attempt r)
  unfolding handle on_status
  handle-Retries attempt _ (no_dict (object d) t n) = absurd (n d refl)
  handle-Retries attempt _ (no_dict null t n) = pause-Retries attempt
  handle-Retries attempt _ (no_dict (boolean _) t n) = pause-Retries attempt
  handle-Retries attempt _ (no_dict (natural _) t n) = pause-Retries attempt
  handle-Retries attempt _ (no_dict (number _) t n) = pause-Retries attempt
  handle-Retries attempt _ (no_dict (text _) t n) = pause-Retries attempt
  handle-Retries attempt _ (no_dict (array _) t n) = pause-Retries attempt
  handle-Retries attempt _ (limited_last h l) = rw l (server_error-Retries attempt 429)
  handle-Retries attempt _ malformed = pause-Retries attempt
  handle-Retries attempt _ no_value = pause-Retries attempt
  handle-Retries attempt _ (failed name) = pause-Retries attempt
  handle-Retries attempt _ (status s a f n) = status-Retries attempt s a f n
  handle-Retries attempt _ limited_blank =
      either (retries_left w attempt) _ _ tt (server_error-Retries attempt 429)
  handle-Retries attempt _ limited =
      either (retries_left w attempt) _ _ tt (server_error-Retries attempt 429)
  handle-Retries attempt _ (limited_for header seconds e) =
      either (retries_left w attempt) _ _ (rate_limited-Retries attempt header seconds e)
        (server_error-Retries attempt 429)

  proceed-Decides :
      (ticket : Text) (attempt : ℕ) (b : Breaker) (rest : Breaker → Run) (r : Result (Json × Json))
      (v : Result Fields)
      → Decides w ticket attempt r v
      → ((proceed w ticket b (handle w attempt r) rest).result ≡ v)
        × ((proceed w ticket b (handle w attempt r) rest).attempts ≡ 1)
  unfolding handle on_status
  proceed-Decides ticket attempt b rest _ _ (classified d tokens) = (refl, refl)
  proceed-Decides ticket attempt b rest _ _ rejected = (refl, refl)
  proceed-Decides ticket attempt b rest _ _ (refused s a f) = rw f (refl, refl)
  proceed-Decides ticket attempt b rest _ _ (unreadable c s l n) =
      rw (lt→ltb _ _ l, rate_limited, n) (refl, refl)
  proceed-Decides ticket attempt b rest _ _ stopped = (refl, refl)

  proceed-Retries :
      (ticket : Text) (b : Breaker) (rest : Breaker → Run) (n : Next)
      → Retries n
      → ((proceed w ticket b n rest).result ≡ (rest (slept w (sleep_of n) b)).result)
        × ((proceed w ticket b n rest).attempts ≡ suc (rest (slept w (sleep_of n) b)).attempts)
  proceed-Retries ticket b rest (again none) h = (refl, refl)
  proceed-Retries ticket b rest (again (some d)) h = (refl, refl)
  proceed-Retries ticket b rest (finish _) h = absurd h
  proceed-Retries ticket b rest (fail_with _) h = absurd h
  proceed-Retries ticket b rest (escape _) h = absurd h

  loop-AllTransient :
      (ticket : Text) (n left attempt : ℕ) (b : Breaker)
      → AllTransient n attempt b
      → ((loop w ticket (n + left) attempt b).result
          ≡ (loop w ticket left (n + attempt) (after n attempt b)).result)
        × ((loop w ticket (n + left) attempt b).attempts
            ≡ n + (loop w ticket left (n + attempt) (after n attempt b)).attempts)
  unfolding loop
  loop-AllTransient ticket zero left attempt b h = rw (zero-add, zero-add, zero-add) (refl, refl)
  loop-AllTransient ticket (suc n) left attempt b (t, ts) =
      let (r, b') = try_once w attempt b in
      let (same, counted) =
        proceed-Retries ticket b' (loop w ticket (n + left) (suc attempt)) (handle w attempt r)
          (handle-Retries attempt r t) in
      let (same', counted') = loop-AllTransient ticket n left (suc attempt) (next attempt b) ts in
      let shift : suc n + attempt ≡ n + suc attempt = omega arith in
      let grow : suc n + left ≡ suc (n + left) = omega arith in
      rw (shift, grow) (same ∙ same', omega (arith, counted, counted'))

  limit :
      (ticket : Text) (attempt : ℕ) (h : Option String)
      → ((v : Result Fields) × Decides w ticket attempt (raise (http_status 429 h)) v)
        ⊎ Transient w attempt (raise (http_status 429 h))
  limit ticket attempt none = inr limited
  limit ticket attempt (some String.[]) = inr limited_blank
  limit ticket attempt (some (String.◌∷◌ c s)) = elim (Option-cases (w.to_float (String.◌∷◌ c s))) [
    | inr (d, e) ↦ inr (limited_for _ d e)
    | inl n ↦ elim (Bool-cases (retries_left w attempt)) [
      | inl l ↦ inl (_, unreadable c s (ltb→lt _ _ l) n)
      | inr l ↦ inr (limited_last _ l)
    ]
  ]

  -- Every outcome of an attempt is one or the other.
  pub decided_or_Transient :
      (ticket : Text) (attempt : ℕ) (r : Result (Json × Json))
      → ((v : Result Fields) × Decides w ticket attempt r v) ⊎ Transient w attempt r
  decided_or_Transient ticket attempt (ok (object d, t)) = inl (_, classified d t)
  decided_or_Transient ticket attempt (ok (null, t)) = inr (no_dict null t (λ d h. cc))
  decided_or_Transient ticket attempt (ok (boolean x, t)) = inr (no_dict (boolean x) t (λ d h. cc))
  decided_or_Transient ticket attempt (ok (natural x, t)) = inr (no_dict (natural x) t (λ d h. cc))
  decided_or_Transient ticket attempt (ok (number x, t)) = inr (no_dict (number x) t (λ d h. cc))
  decided_or_Transient ticket attempt (ok (text x, t)) = inr (no_dict (text x) t (λ d h. cc))
  decided_or_Transient ticket attempt (ok (array x, t)) = inr (no_dict (array x) t (λ d h. cc))
  decided_or_Transient ticket attempt (raise circuit_breaker_open) = inl (_, rejected)
  decided_or_Transient ticket attempt (raise (http_status s h)) =
      elim (Bool-cases (member s fatal_status_codes)) [
        | inl f ↦ inl (_, refused s h f)
        | inr f ↦ elim (Bool-cases (s == 429)) [
          | inr other ↦ inr (status s h f (λ e. ground arith))
          | inl same ↦ let e : s ≡ 429 = ground arith in rw e (limit ticket attempt h)
        ]
      ]
  decided_or_Transient ticket attempt (raise json_decode) = inr malformed
  decided_or_Transient ticket attempt (raise value_error) = inr no_value
  decided_or_Transient ticket attempt (raise (other_exception m)) = inr (failed m)
  decided_or_Transient ticket attempt (raise cancelled) = inl (_, stopped)

  -- The first outcome of an attempt that is not transient decides the result, if it comes within
  -- max_retries attempts: the classification with its tokens, or the failure of the open breaker
  -- or of the fatal status, or the cancellation. No attempt is made behind it.
  pub call_with_retry_decided :
      (ticket : Text) (n left : ℕ) (b : Breaker) (v : Result Fields)
      → w.settings.max_retries ≡ n + suc left
      → AllTransient n 1 b
      → Decides w ticket (n + 1) (try_once w (n + 1) (after n 1 b)).0 v
      → ((call_with_retry w ticket b).result ≡ v) × ((call_with_retry w ticket b).attempts ≡ n + 1)
  unfolding call_with_retry loop
  call_with_retry_decided ticket n left b v m ts d =
      let (same, counted) = loop-AllTransient ticket n (suc left) 1 b ts in
      let (r, b') = try_once w (n + 1) (after n 1 b) in
      let (same', one) =
        proceed-Decides ticket (n + 1) b' (loop w ticket left (suc (n + 1))) r v d in
      subst (λ k. ((loop w ticket k 1 b).result ≡ v) × ((loop w ticket k 1 b).attempts ≡ n + 1))
        (sym m) (same ∙ same', counted ∙ ap (λ k. n + k) one)

  -- When max_retries attempts all fail and are retried, the ticket fails as max_retries_exceeded
  -- after exactly so many.
  pub call_with_retry_exhausted :
      (ticket : Text) (b : Breaker)
      → AllTransient w.settings.max_retries 1 b
      → ((call_with_retry w ticket b).result
          ≡ ok (failure_result ticket (codes "max_retries_exceeded")))
        × ((call_with_retry w ticket b).attempts ≡ w.settings.max_retries)
  unfolding call_with_retry loop
  call_with_retry_exhausted ticket b ts =
      let (same, counted) = loop-AllTransient ticket w.settings.max_retries 0 1 b ts in
      subst
        (λ k.
          ((loop w ticket k 1 b).result ≡ ok (failure_result ticket (codes "max_retries_exceeded")))
          × ((loop w ticket k 1 b).attempts ≡ w.settings.max_retries))
        (add-zero w.settings.max_retries) (same, counted ∙ add-zero w.settings.max_retries)
