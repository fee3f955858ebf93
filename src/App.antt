-- ===== src/App.antt =====
-- The state that src/hermes_a2a/server.py hands to its routes, `app.state.gateway`, and the answers
-- of a route. `task_store`, `session_store`, `handler` and `metrics` are parts of the handler's state:
-- the counters of `metrics` are one dict, shared with the handler.
use hermes_a2a_v.Prelude.{
  ◌>>=◌, ℕ, ◌-◌, String, Option, none, some, Result, ok, raise, ◌==◌, if◌then◌else◌,
}
use hermes_a2a_v.Dict.{get, string_eq}
use hermes_a2a_v.TaskStore.{StoreError}
use hermes_a2a_v.A2aHandler.{Gateway, HandlerError}
use hermes_a2a_v.PeerManager.{PeerManager}
use hermes_a2a_v.Broadcaster.{Broadcaster}

-- `start_time` in milliseconds
pub record App : Type 0 where
  pub gateway : Gateway
  pub peer_manager : PeerManager
  pub ws_broadcaster : Broadcaster
  pub start_time : Option ℕ

-- An exception that leaves a route: the server answers with 500.
pub data AppError : Type 0 where
  key_error value_error : AppError
  store_error : StoreError → AppError
  peer_error : String → AppError
  handler_error : HandlerError → AppError

-- `{"error": ...}` or another JSON object
pub record Response (B : Type 0) : Type 0 where
  pub status_code : ℕ
  pub content : Result String B

abbrev pub reply : {B : Type 0} → ℕ → B → Response B
reply status_code content = record { status_code = status_code; content = ok content }

abbrev pub refuse : {B : Type 0} → ℕ → String → Response B
refuse status_code error = record { status_code = status_code; content = raise error }

-- A call of a store inside a route
abbrev pub from_store : {A : Type 0} → Result StoreError A → Result AppError A
from_store (ok a) = ok a
from_store (raise e) = raise (store_error e)

abbrev pub or_key_error : {A : Type 0} → Option A → Result AppError A
or_key_error none = raise key_error
or_key_error (some a) = ok a

-- `metrics[key]`
unfoldable pub counter_of : String → App → Result AppError ℕ
counter_of key app = do metrics ← or_key_error app.gateway.metrics; or_key_error (get key metrics)

-- `time.time() - start if start else 0`, before it is rounded, by a clock that does not go back
unfoldable pub uptime : ℕ → Option ℕ → ℕ
uptime now none = 0
uptime now (some start) = if start == 0 then 0 else now - start
