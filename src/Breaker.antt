-- ===== src/Breaker.antt =====
-- pipeline/circuit_breaker.py: the class CircuitBreaker.
--
-- A Breaker is the object, with the Prometheus gauge that it sets, the entries that it logs
-- (newest first), and `reads`, the number of readings of time.monotonic() made so far. `clock i`
-- is the reading number `i`, in nanoseconds, so each call of time.monotonic() in the source is a
-- reading of its own. The bounds in seconds are whole numbers, as in the settings.
pub mod Call
pub mod Invariant
pub mod Window
pub mod Timed
pub mod History
pub mod Outcomes
pub mod Probe
pub mod Tasks
pub mod Diagram
pub mod Safety
pub mod Recovery
pub mod Failing
pub mod Shield
pub mod Starts
pub mod Limit
mod Tests
mod ShieldTests
use inference_forge.Base.{
  ℕ, ◌+◌, ◌*◌, Option, none, some, List, [], ◌∷◌, ◌++◌, ltb, leb, length, if◌then◌else◌,
}

-- `open` is a reserved word: OPEN is `opened`.
pub data CbState : Type 0 where
  closed opened half_open : CbState

pub record Transition : Type 0 where
  pub from_state : CbState
  pub to_state : CbState
  pub failure_count : ℕ
  pub window_seconds : ℕ

pub record Breaker : Type 0 where
  pub failure_threshold : ℕ
  pub window_seconds : ℕ
  pub recovery_timeout : ℕ
  pub state : CbState
  pub failure_timestamps : List ℕ
  pub opened_at : Option ℕ
  pub last_state_change : ℕ
  pub gauge : ℕ
  pub log : List Transition
  pub reads : ℕ

-- Whole seconds in the clock's unit.
abbrev pub seconds : ℕ → ℕ
seconds n = n * 1000000000

-- A deque that grows at its right end.
abbrev pub append : List ℕ → ℕ → List ℕ
append xs x = xs ++ x ∷ []

-- The loop of _evict_old_failures. Its test is `t < now - window`, with no negative number.
unfoldable pub drop_old : ℕ → ℕ → List ℕ → List ℕ
drop_old window now [] = []
drop_old window now (t ∷ ts) = if ltb (t + window) now then drop_old window now ts else t ∷ ts

-- What a call of the breaker meets first: line 92 to 101.
pub data Entry : Type 0 where
  rejected probing normal : Entry

abbrev pub entry_of : CbState → Entry
entry_of opened = rejected
entry_of half_open = probing
entry_of closed = normal

module _ (clock : ℕ → ℕ) where
  unfoldable pub new : ℕ → ℕ → ℕ → ℕ → Breaker
  new threshold window timeout reads = record {
    failure_threshold = threshold;
    window_seconds = window;
    recovery_timeout = timeout;
    state = closed;
    failure_timestamps = [];
    opened_at = none;
    last_state_change = clock reads;
    gauge = 0;
    log = [];
    reads = reads + 1;
  }

  abbrev pub monotonic : Breaker → ℕ × Breaker
  monotonic b = (clock b.reads, record b { reads = b.reads + 1 })

  unfoldable pub evict_old_failures : Breaker → Breaker
  evict_old_failures b =
      let (now, b') = monotonic b in
      record b' {
        failure_timestamps = drop_old (seconds b.window_seconds) now b.failure_timestamps;
      }

  abbrev pub logged : CbState → CbState → Breaker → Breaker
  logged old new_state b = record b {
    log =
        record {
          from_state = old;
          to_state = new_state;
          failure_count = length b.failure_timestamps;
          window_seconds = b.window_seconds;
        }
        ∷ b.log;
  }

  -- The branches on the new state.
  abbrev pub entered : CbState → Breaker → Breaker
  entered opened b = let (at, b') = monotonic b in record b' { opened_at = some at; gauge = 2 }
  entered half_open b = record b { gauge = 1 }
  entered closed b = record b { opened_at = none; gauge = 0 }

  unfoldable pub transition : CbState → Breaker → Breaker
  transition new_state b =
      let (now, b') = monotonic b in
      logged b.state new_state
        (entered new_state (record b' { state = new_state; last_state_change = now }))

  -- `now - opened_at >= recovery_timeout`, with no negative number.
  abbrev pub recovered : Breaker → ℕ → Breaker
  recovered b at =
      let (now, b') = monotonic b in
      if leb (at + seconds b.recovery_timeout) now then transition half_open b' else b'

  abbrev pub maybe_half_open : CbState → Option ℕ → Breaker → Breaker
  maybe_half_open opened (some at) b = recovered b at
  maybe_half_open opened none b = b
  maybe_half_open closed _ b = b
  maybe_half_open half_open _ b = b

  unfoldable pub maybe_transition : Breaker → Breaker
  unfolding transition
  maybe_transition b = maybe_half_open b.state b.opened_at b

  abbrev pub clear_and_close : CbState → Breaker → Breaker
  clear_and_close half_open b = transition closed (record b { failure_timestamps = [] })
  clear_and_close closed b = b
  clear_and_close opened b = b

  unfoldable pub on_success : Breaker → Breaker
  unfolding transition
  on_success b = clear_and_close b.state b

  abbrev pub trip : CbState → Breaker → Breaker
  trip half_open b = transition opened b
  trip closed b =
      if leb b.failure_threshold (length b.failure_timestamps) then transition opened b else b
  trip opened b = b

  unfoldable pub on_failure : Breaker → Breaker
  unfolding transition evict_old_failures
  on_failure b =
      let (now, b1) = monotonic b in
      let b2 =
        evict_old_failures (record b1 { failure_timestamps = append b.failure_timestamps now }) in
      trip b2.state b2

  unfoldable pub failure_count : Breaker → ℕ × Breaker
  unfolding evict_old_failures
  failure_count b = let b' = evict_old_failures b in (length b'.failure_timestamps, b')
