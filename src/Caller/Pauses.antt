-- ===== src/Caller/Pauses.antt =====
-- pipeline/caller.py: how long _call_with_retry sleeps behind an attempt, and whether it does.
use Prim.Native.Char.{Char}
use Prim.Native.String.{String}
use native.Mathlib.Nat.{mul-le-mul_left}
use inference_forge.Base.{
  ℕ, ◌-◌, ◌*◌, ◌^◌, ◌≤◌, ◌<◌, ◌≡◌, ◌⊎◌, inl, inr, refl, ◌&&◌, Bool-cases, Option-cases, Bool, true,
  Option, none, some, ltb→lt, ◌==◌, false, if◌then◌else◌, arith,
}
use inference_forge.Base.Fraction.{Fraction, whole, ◌*ℚ◌, ◌≤ℚ◌}
use inference_forge.Errors.{
  circuit_breaker_open, http_status, json_decode, value_error, other_exception, cancelled, Result,
  ok, raise,
}
use inference_forge.Json.{Json, null, boolean, natural, number, text, array, object}
use inference_forge.Caller.Retry.{
  World, Next, again, escape, member, fatal_status_codes, retryable_status_codes, handle, on_status,
  server_error, rate_limited, retries_left, pause, backoff, backoff_for_attempt, jittered,
}

module _ (w : World) where
  -- Within a fifth of base * 2 ^ (attempt - 1).
  pub record Near (attempt : ℕ) (d : Fraction) : Type 0 where
    pub above :
        record { num = 4; den = 5 } *ℚ (w.settings.retry_backoff_base *ℚ whole (2 ^ (attempt - 1)))
        ≤ℚ d
    pub below :
        d
        ≤ℚ record { num = 6; den = 5 }
          *ℚ (w.settings.retry_backoff_base *ℚ whole (2 ^ (attempt - 1)))

  -- The answer is a 429 with a Retry-After header of that many seconds.
  abbrev Says : Result (Json × Json) → Fraction → Type 0
  Says r d =
      (header : String) × (r ≡ raise (http_status 429 (some header))) × (w.to_float header ≡ some d)

  -- The answer is no 429 with a header that is not empty.
  abbrev NoHeader : Result (Json × Json) → Type 0
  NoHeader r = (header : String) → r ≡ raise (http_status 429 (some header)) → header ≡ String.[]

  -- The answer is a 429 with a header that float() does not take.
  abbrev Unreadable : ℕ → Option String → Type 0
  Unreadable status_code after =
      (c : Char) × (s : String) × (status_code ≡ 429)
      × (after ≡ some (String.◌∷◌ c s))
      × (w.to_float (String.◌∷◌ c s) ≡ none)

  -- An attempt that no sleep follows: the last one, one with a dict, one that an open breaker or a
  -- cancellation ends, one with a status that is not retryable, and one with an unreadable header.
  abbrev pub Unslept : ℕ → Result (Json × Json) → Type 0
  Unslept attempt (ok (object d, tokens)) = Unit
  Unslept attempt (raise circuit_breaker_open) = Unit
  Unslept attempt (raise cancelled) = Unit
  Unslept attempt (raise (http_status status_code after)) =
      (w.settings.max_retries ≤ attempt)
      ⊎ (member status_code retryable_status_codes ≡ false)
      ⊎ Unreadable status_code after
  Unslept attempt _ = w.settings.max_retries ≤ attempt

  -- A sleep behind an attempt with its outcome. The attempt is not the last one.
  abbrev pub Pause : ℕ → Result (Json × Json) → Fraction → Type 0
  Pause attempt r d =
      (attempt < w.settings.max_retries) × (Says r d ⊎ (NoHeader r × Near attempt d))

module _ (w : World) (draws : (i : ℕ) → (w.uniform i).num ≤ (w.uniform i).den) where
  backoff-Near : (attempt : ℕ) → Near w attempt (backoff w attempt)
  unfolding backoff_for_attempt jittered
  backoff-Near attempt =
      let b = w.settings.retry_backoff_base in
      let u = w.uniform attempt in
      let scaled : b.num * 2 ^ (attempt - 1) * b.den * u.num
          ≤ b.num * 2 ^ (attempt - 1) * b.den * u.den =
        mul-le-mul_left _ (draws attempt) in
      record { above = omega arith; below = omega (arith, scaled) }

  abbrev pub Sound : ℕ → Result (Json × Json) → Next → Type 0
  Sound attempt r (again (some d)) = Pause w attempt r d
  Sound attempt r (escape e) = Unslept w attempt r × ((e ≡ cancelled) ⊎ (e ≡ value_error))
  Sound attempt r _ = Unslept w attempt r

  if_left :
      (attempt : ℕ) (r : Result (Json × Json)) (b : Bool) (x y : Next)
      → (b && retries_left w attempt ≡ true → Sound attempt r x)
      → (b && retries_left w attempt ≡ false → Sound attempt r y)
      → Sound attempt r (if b && retries_left w attempt then x else y)
  if_left attempt r b x y hx hy = elim (Bool-cases (b && retries_left w attempt)) [
    | inl l ↦ rw l (hx l)
    | inr l ↦ rw l (hy l)
  ]

  again-Sound :
      (attempt : ℕ) (r : Result (Json × Json)) (b : Bool)
      → NoHeader w r
      → b && retries_left w attempt ≡ true
      → Sound attempt r (again (some (backoff w attempt)))
  again-Sound attempt r b n l = (ground arith, inr (n, backoff-Near attempt))

  pause-Sound :
      (attempt : ℕ) (r : Result (Json × Json))
      → NoHeader w r
      → (w.settings.max_retries ≤ attempt → Unslept w attempt r)
      → Sound attempt r (pause w attempt)
  pause-Sound attempt r n last =
      if_left attempt r true _ _ (again-Sound attempt r true n) (λ l. last (ground (arith, l)))

  rate_limited-Sound :
      (attempt : ℕ) (h : Option String)
      → retries_left w attempt ≡ true
      → Sound attempt (raise (http_status 429 h)) (rate_limited w attempt h)
  rate_limited-Sound attempt none l = again-Sound attempt _ true (λ x e. cc) l
  rate_limited-Sound attempt (some String.[]) l = again-Sound attempt _ true (λ x e. cc) l
  rate_limited-Sound attempt (some (String.◌∷◌ c s)) l =
      elim (Option-cases (w.to_float (String.◌∷◌ c s))) [
        | inl n ↦ rw (rate_limited, n) (inr (inr (c, s, refl, refl, n)), inr refl)
        | inr (d, e) ↦ rw (rate_limited, e) (ltb→lt _ _ l, inl (String.◌∷◌ c s, refl, e))
      ]

  not_429 :
      (attempt s : ℕ) (h : Option String)
      → (s == 429) && retries_left w attempt ≡ false
      → retries_left w attempt ≡ true
      → NoHeader w (raise (http_status s h))
  not_429 attempt s h n l header e = let same : s ≡ 429 = cc e in ground (arith, n, l, same)

  server_error-Sound :
      (attempt s : ℕ) (h : Option String)
      → (s == 429) && retries_left w attempt ≡ false
      → Sound attempt (raise (http_status s h)) (server_error w attempt s)
  unfolding server_error
  server_error-Sound attempt s h n =
      if_left attempt (raise (http_status s h)) (member s retryable_status_codes) _ _
        (λ l.
          again-Sound attempt _ (member s retryable_status_codes)
            (not_429 attempt s h n (ground (arith, l))) l)
        (λ l. elim (Bool-cases (member s retryable_status_codes)) [
          | inl m ↦ inl (ground (arith, l, m))
          | inr m ↦ inr (inl m)
        ])

  fatal_lem : (s : ℕ) → member s fatal_status_codes ≡ true → member s retryable_status_codes ≡ false
  fatal_lem s f = ground (arith, f)

  on_status-Sound :
      (attempt s : ℕ) (h : Option String)
      → Sound attempt (raise (http_status s h)) (on_status w attempt s h)
  unfolding on_status
  on_status-Sound attempt s h = elim (Bool-cases (member s fatal_status_codes)) [
    | inl f ↦ rw f (inr (inl (fatal_lem s f)))
    | inr f ↦ rw f (
        if_left attempt (raise (http_status s h)) (s == 429) _ _
          (λ l.
            let same : s ≡ 429 = ground (arith, l) in
            rw same (rate_limited-Sound attempt h (ground (arith, l))))
          (server_error-Sound attempt s h))
  ]

  pub handle-Sound : (attempt : ℕ) (r : Result (Json × Json)) → Sound attempt r (handle w attempt r)
  unfolding handle
  handle-Sound attempt (ok (object d, tokens)) = tt
  handle-Sound attempt (ok (null, tokens)) =
      pause-Sound attempt (ok (null, tokens)) (λ h e. cc) (λ l. l)
  handle-Sound attempt (ok (boolean x, tokens)) =
      pause-Sound attempt (ok (boolean x, tokens)) (λ h e. cc) (λ l. l)
  handle-Sound attempt (ok (natural x, tokens)) =
      pause-Sound attempt (ok (natural x, tokens)) (λ h e. cc) (λ l. l)
  handle-Sound attempt (ok (number x, tokens)) =
      pause-Sound attempt (ok (number x, tokens)) (λ h e. cc) (λ l. l)
  handle-Sound attempt (ok (text x, tokens)) =
      pause-Sound attempt (ok (text x, tokens)) (λ h e. cc) (λ l. l)
  handle-Sound attempt (ok (array x, tokens)) =
      pause-Sound attempt (ok (array x, tokens)) (λ h e. cc) (λ l. l)
  handle-Sound attempt (raise circuit_breaker_open) = tt
  handle-Sound attempt (raise (http_status s h)) = on_status-Sound attempt s h
  handle-Sound attempt (raise json_decode) =
      pause-Sound attempt (raise json_decode) (λ h e. cc) (λ l. l)
  handle-Sound attempt (raise value_error) =
      pause-Sound attempt (raise value_error) (λ h e. cc) (λ l. l)
  handle-Sound attempt (raise (other_exception x)) =
      pause-Sound attempt (raise (other_exception x)) (λ h e. cc) (λ l. l)
  handle-Sound attempt (raise cancelled) = (tt, inl refl)
