-- ===== src/Server/Endpoints.antt =====
-- The routes of src/hermes_a2a/server.py itself: health, metrics, peers and the relay.
use hermes_a2a_v.Prelude.{
  ◌>>=◌, ℕ, String, Bool, false, Option, none, some, List, truthy, if◌then◌else◌, length, Result,
  ok, raise,
}
use hermes_a2a_v.Dict.{string_eq}
use hermes_a2a_v.TaskStore
use hermes_a2a_v.TaskStore.{TaskStore, TaskRow}
use hermes_a2a_v.PeerManager.{PeerManager, Info, ClientError, SendCall, SendResult, send_to_peer}
use hermes_a2a_v.PeerManager.Discovery.{discover_all}
use hermes_a2a_v.PeerManager.Discovery.{list_peers}
use hermes_a2a_v.App.{
  App, AppError, peer_error, Response, reply, refuse, from_store, counter_of, uptime,
}

-- The answer of GET /health, less its constants, with times before they are rounded
pub record Health : Type 0 where
  pub status : String
  pub reachable : Bool
  pub latency_ms : ℕ
  pub active_sessions : ℕ
  pub uptime_seconds : ℕ

-- `except Exception: reachable = False`
or_unreachable : Result String Bool → Bool
or_unreachable (ok reachable) = reachable
or_unreachable (raise e) = false

-- GET /health: what `health_check` returns or raises, how long it takes, and the time
unfoldable pub health : Result String Bool → ℕ → ℕ → App → Response Health
unfolding or_unreachable uptime
health health_check latency_ms now app = reply 200 (record {
  status = if or_unreachable health_check then "ok" else "degraded";
  reachable = or_unreachable health_check;
  latency_ms = latency_ms;
  active_sessions = length app.gateway.sessions;
  uptime_seconds = uptime now app.start_time;
})

-- The answer of GET /metrics
pub record Metrics : Type 0 where
  pub requests_total : ℕ
  pub errors_total : ℕ
  pub active_tasks : ℕ
  pub sessions_active : ℕ

unfoldable pub metrics : App → Result AppError (Response Metrics)
unfolding counter_of
metrics app = do
  requests_total ← counter_of "requests_total" app
  errors_total ← counter_of "errors_total" app
  tasks ← from_store (TaskStore.list_tasks app.gateway.task_store)
  ok (
      reply 200 (record {
        requests_total = requests_total;
        errors_total = errors_total;
        active_tasks = length tasks;
        sessions_active = length app.gateway.sessions;
      }))

-- GET /a2a/peers
unfoldable pub list_peers_endpoint : App → Response (List Info)
list_peers_endpoint app = reply 200 (list_peers app.peer_manager)

-- POST /a2a/peers/discover
unfoldable pub discover_peers_endpoint :
    (String → Result ClientError Info) → App → App × Response (List Info)
discover_peers_endpoint discover_agent app =
    let (pm, discovered) = discover_all discover_agent app.peer_manager in
    (record app { peer_manager = pm }, reply 200 discovered)

-- The JSON body of POST /a2a/relay; a missing key is `none`.
pub record RelayBody : Type 0 where
  pub peer_name : Option String
  pub message : Option String
  pub context_id : Option String

-- `data.get(key)`, where it is there and not empty
given : Option String → Option String
given none = none
given (some s) = if truthy s then some s else none

sent_by : App → PeerManager × Result String SendResult → App × Result AppError (Response SendResult)
sent_by app (pm, ok result) = (record app { peer_manager = pm }, ok (reply 200 result))
sent_by app (pm, raise e) = (record app { peer_manager = pm }, raise (peer_error e))

relay_given :
    Option String
    → Option String
    → Option String
    → ℕ
    → ℕ
    → (SendCall → Result ClientError Info)
    → App
    → App × Result AppError (Response SendResult)
unfolding sent_by
relay_given (some peer_name) (some message) context_id now later client app =
    sent_by app (send_to_peer peer_name message context_id now later client app.peer_manager)
relay_given _ _ context_id now later client app =
    (app, ok (refuse 400 "Missing peer_name or message"))

-- POST /a2a/relay
unfoldable pub relay_message_endpoint :
    RelayBody
    → ℕ
    → ℕ
    → (SendCall → Result ClientError Info)
    → App
    → App × Result AppError (Response SendResult)
unfolding relay_given given
relay_message_endpoint body now later client app =
    relay_given (given body.peer_name) (given body.message) body.context_id now later client app
