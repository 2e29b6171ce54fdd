-- ===== src/Caller/Spacing.antt =====
-- pipeline/caller.py: the throttle keeps the calls of the API apart.
use inference_forge.Base.{ℕ, ◌*◌, length, ◌+◌, ◌≤◌, ◌<◌, ◌≡◌, false, List, [], ◌∷◌, lt→ltb, arith}
use inference_forge.Text.{Text}
use inference_forge.Caller.Request.{
  Throttle, Api, milliseconds, pass_lock, throttle, single_api_call,
}

module _ (api : Api) where
  -- The state behind the calls for some tickets.
  abbrev pub after_calls : List Text → Throttle → Throttle
  after_calls [] s = s
  after_calls (t ∷ ts) s = after_calls ts (single_api_call api t s).1

  -- Times, newest first, the oldest `gap` behind `last`, the next one two gaps, and so on.
  abbrev pub Paced : ℕ → ℕ → List ℕ → Type 0
  Paced gap last [] = Unit
  Paced gap last (x ∷ xs) = (last + gap * length (x ∷ xs) ≤ x) × Paced gap last xs

  abbrev interval : ℕ
  interval = milliseconds api.min_interval_ms

  -- So many requests were sent, each in time, and _last_call_ts is no earlier than the last.
  record IsPaced (last : ℕ) (s : Throttle) : Type 0 where
    sent : Paced interval last s.posts
    stamped : last + interval * length s.posts ≤ s.last_call_ts

  call-IsPaced :
      (last : ℕ) (t : Text) (s : Throttle)
      → api.mock_mode ≡ false
      → 0 < api.min_interval_ms
      → IsPaced last s
      → IsPaced last (single_api_call api t s).1
  unfolding single_api_call throttle pass_lock
  call-IsPaced last t s m p h =
      let more : interval * length (s.last_call_ts ∷ s.posts)
          ≡ interval * length s.posts + interval =
        omega arith in
      rw (m, lt→ltb _ _ p)
        (record {
          sent = (omega (arith, more, h.stamped), h.sent);
          stamped = omega (arith, more, h.stamped);
        })

  after_calls-IsPaced :
      (last : ℕ) (ts : List Text) (s : Throttle)
      → api.mock_mode ≡ false
      → 0 < api.min_interval_ms
      → IsPaced last s
      → IsPaced last (after_calls ts s)
  after_calls-IsPaced last [] s m p h = h
  after_calls-IsPaced last (t ∷ ts) s m p h =
      after_calls-IsPaced last ts (single_api_call api t s).1 m p (call-IsPaced last t s m p h)

  -- With the throttle on, no mock mode and no request sent so far: of the requests for some
  -- tickets, one behind the other, the first is sent no earlier than sarvam_min_interval_ms behind
  -- the last call before, the second no earlier than twice that, and so on, whatever the answers
  -- and however long they take.
  pub posts-Paced :
      (ts : List Text) (s : Throttle)
      → api.mock_mode ≡ false
      → 0 < api.min_interval_ms
      → s.posts ≡ []
      → Paced (milliseconds api.min_interval_ms) s.last_call_ts (after_calls ts s).posts
  posts-Paced ts s m p none_yet =
      (after_calls-IsPaced s.last_call_ts ts s m p
        (record { sent = rw none_yet tt; stamped = rw none_yet (omega arith) })).sent
