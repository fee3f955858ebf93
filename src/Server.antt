-- ===== src/Server.antt =====
-- src/hermes_a2a/server.py: how the gateway is put together, started and stopped.
-- Times are in milliseconds, those of SQL in seconds; the logging of the configuration is left out.
-- The routes are in Endpoints, the middleware in Access, `main` in Entry; the proofs are in the other
-- children.
pub mod Endpoints
pub mod Entry
pub mod Access
pub mod Authorized
pub mod Order
pub mod Startup
pub mod Relays
pub mod Routes
use mathlib.Core.Option
use hermes_a2a_v.Prelude.{
  ◌>>=◌, ℕ, String, Bool, true, false, Option, none, some, List, [], ◌∷◌, map, is_empty, truthy,
  if◌then◌else◌, length, Result, ok, raise,
}
use hermes_a2a_v.Dict.{Dict, string_eq}
use hermes_a2a_v.TaskStore
use hermes_a2a_v.TaskStore.{Opening, TaskStore, TaskRow}
use hermes_a2a_v.SessionStore
use hermes_a2a_v.SessionStore.{SessionStore, SessionRow}
use hermes_a2a_v.PushNotifier
use hermes_a2a_v.A2aHandler.{Gateway, HandlerError, restore_sessions}
use hermes_a2a_v.PeerManager
use hermes_a2a_v.PeerManager.{PeerManager, Info, ClientError, SendCall, SendResult, send_to_peer}
use hermes_a2a_v.PeerManager.Discovery.{discover_all}
use hermes_a2a_v.PeerManager.Discovery.{list_peers}
use hermes_a2a_v.Broadcaster
use hermes_a2a_v.Broadcaster.Metrics.{start_metrics_loop, stop_metrics_loop}
use hermes_a2a_v.Config.{GatewayConfig, AgentConfig, AgentSkillConfig, AgentProviderConfig}
use hermes_a2a_v.App.{
  App, AppError, handler_error, peer_error, Response, reply, refuse, from_store, counter_of, uptime,
}

abbrev pub version : String
version = "0.1.0"

-- The `AgentCard` protobuf, less its security scheme "bearer", which is always the same
pub record AgentCard : Type 0 where
  pub name : String
  pub description : String
  pub provider : AgentProviderConfig
  pub card_version : String
  pub documentation_url : String
  pub streaming : Bool
  pub push_notifications : Bool
  pub extended_agent_card : Bool
  pub skills : List AgentSkillConfig
  pub default_input_modes : List String
  pub default_output_modes : List String

-- `if not skills: skills.append(...)`
skills_or_general : List AgentSkillConfig → List AgentSkillConfig
skills_or_general skills =
    if is_empty skills
    then record { id = "general"; name = "General Q&A"; description = "General conversation" } ∷ []
    else skills

unfoldable pub build_agent_card : AgentConfig → AgentCard
unfolding skills_or_general
build_agent_card agent = record {
  name = agent.name;
  description = agent.description;
  provider = agent.provider;
  card_version = version;
  documentation_url = agent.documentation_url;
  streaming = true;
  push_notifications = true;
  extended_agent_card = false;
  skills = skills_or_general agent.skills;
  default_input_modes = "text/plain" ∷ [];
  default_output_modes = "text/plain" ∷ [];
}

-- What is on disk: the two tables of the database
pub record Disk : Type 0 where
  pub task_rows : Dict String TaskRow
  pub session_rows : Dict String SessionRow

-- The stores of a new process, before their connection is opened
unfoldable pub opened_on : Disk → TaskStore × SessionStore
opened_on disk = (
  record { connected = false; rows = disk.task_rows },
  record { connected = false; rows = disk.session_rows },
)

-- The state that `create_app` puts together
unfoldable pub create_app : GatewayConfig → Disk → App
unfolding opened_on PeerManager.init Broadcaster.init
create_app cfg disk =
    let (task_store, session_store) = opened_on disk in
    record {
      gateway = record {
        task_store = task_store;
        session_store = some session_store;
        sessions = [];
        push_store = PushNotifier.empty;
        metrics = some (("requests_total", 0) ∷ ("errors_total", 0) ∷ []);
        deliveries = [];
      };
      peer_manager = PeerManager.init cfg.peers;
      ws_broadcaster = Broadcaster.init;
      start_time = none;
    }

-- A method of the handler, inside the lifespan
lifted : Result HandlerError (Unit {0}) × Gateway → App → Result AppError App
lifted (ok tt, g) app = ok (record app { gateway = g })
lifted (raise e, g) app = raise (handler_error e)

-- `await session_store.cleanup(...)`: the store and how many sessions were deleted
cleaned : ℕ → ℕ → App → Option SessionStore → Result AppError (App × ℕ)
cleaned max_age_hours now_s app none = ok (app, 0)
cleaned max_age_hours now_s app (some store) = do
  (store', deleted) ← from_store (SessionStore.cleanup max_age_hours now_s store)
  ok (record app { gateway = record app.gateway { session_store = some store' } }, deleted)

-- The two `init` calls; the second is made when the first has raised nothing.
open_sessions : Opening → App → Option SessionStore → Result AppError App
open_sessions opening app none = ok app
open_sessions opening app (some store) = do
  let (store', raised) = SessionStore.init opening store
  _ ← from_store raised
  ok (record app { gateway = record app.gateway { session_store = some store' } })

open_stores : Opening → Opening → App → Result AppError App
unfolding open_sessions
open_stores tasks sessions app = do
  let (store', raised) = TaskStore.init tasks app.gateway.task_store
  _ ← from_store raised
  let opened = record app { gateway = record app.gateway { task_store = store' } }
  open_sessions sessions opened opened.gateway.session_store

-- The lifespan up to its `yield`: the app, and how many stale sessions were deleted. `tasks` and
-- `sessions` are what the openings of the stores meet, `task` is the background task that is made.
unfoldable pub startup : Opening → Opening → ℕ → ℕ → ℕ → App → Result AppError (App × ℕ)
unfolding open_stores lifted cleaned start_metrics_loop
startup tasks sessions now now_s task app = do
  opened ← open_stores tasks sessions (record app { start_time = some now })
  restored ← lifted (restore_sessions opened.gateway) opened
  (app', deleted) ← cleaned 24 now_s restored restored.gateway.session_store
  ok (record app' { ws_broadcaster = start_metrics_loop task app'.ws_broadcaster }, deleted)

-- The lifespan after its `yield`, less the closing of the peer manager's HTTP clients
unfoldable pub shutdown : App → App
unfolding stop_metrics_loop
shutdown app = record app {
  ws_broadcaster = stop_metrics_loop app.ws_broadcaster;
  gateway = record app.gateway {
    session_store = Option.map SessionStore.close app.gateway.session_store;
    task_store = TaskStore.close app.gateway.task_store;
  };
}
