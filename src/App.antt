-- ===== src/App.antt =====
-- main.py: lifespan, the start and the end of the application.
--
-- A run is the actions in their order, oldest first. `ping` is what Redis answers to the ping,
-- `serving` how the application's run ends, which lifespan meets at its yield, and `close` what
-- closing a client ends with. `build` is what the construction of a client ends with: from_url is a
-- ValueError for a bad redis_url. It opens no connection, but each client is a resource that only
-- its aclose gives back.
pub mod Lifespan
pub mod Health
pub mod Logging
pub mod Create
mod Tests
use inference_forge.Base.{ℕ, List, [], ◌∷◌, ◌++◌}
use inference_forge.Errors.{Error, Result, ok, raise}

pub data Client : Type 0 where
  redis_client sub_redis_client http_client : Client

-- `attached` sets the seven attributes of app.state, and `closed` is an aclose that returned.
pub data Action : Type 0 where
  built : Client → Action
  pinged : Action
  attached : Action
  served : Action
  closed : Client → Action

pub record Ending : Type 0 where
  pub result : Result (Unit {0})
  pub actions : List Action

abbrev pub after : List Action → Ending → Ending
after before e = record e { actions = before ++ e.actions }

module _ (build close : Client → Result (Unit {0})) where
  abbrev pub closed_or_raised : Result (Unit {0}) → Client → Ending → Ending
  closed_or_raised (ok _) c rest = after (closed c ∷ []) rest
  closed_or_raised (raise e) c rest = record { result = raise e; actions = [] }

  -- Each aclose in turn: one that raises ends the shutdown.
  unfoldable pub close_all : List Client → Ending
  close_all [] = record { result = ok tt; actions = [] }
  close_all (c ∷ cs) = closed_or_raised (close c) c (close_all cs)

  abbrev pub shutdown : Result (Unit {0}) → Ending
  shutdown (raise e) = record { result = raise e; actions = [] }
  shutdown (ok _) = close_all (http_client ∷ redis_client ∷ sub_redis_client ∷ [])

  abbrev pub built_or_raised : Result (Unit {0}) → Client → Ending → Ending
  built_or_raised (ok _) c rest = after (built c ∷ []) rest
  built_or_raised (raise e) c rest = record { result = raise e; actions = [] }

  abbrev pub started : Result (Unit {0}) → Result (Unit {0}) → Ending
  started (raise e) serving = record { result = raise e; actions = [] }
  started (ok _) serving = after (pinged ∷ []) (
      built_or_raised (build http_client) http_client
        (after (attached ∷ served ∷ []) (shutdown serving)))

  unfoldable pub lifespan : Result (Unit {0}) → Result (Unit {0}) → Ending
  lifespan ping serving =
      built_or_raised (build redis_client) redis_client
        (built_or_raised (build sub_redis_client) sub_redis_client (started ping serving))
