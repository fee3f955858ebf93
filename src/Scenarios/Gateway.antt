-- ===== src/Scenarios/Gateway.antt =====
-- Runs of the gateway's start and of its middleware.
use mathlib.Core.Option
use hermes_a2a_v.Prelude.{
  ℕ, ◌+◌, ◌≡◌, ◌↔◌, refl, String, Bool, true, false, none, some, List, [], ◌∷◌, ok, length, Result,
}
use hermes_a2a_v.Dict.{get, string_eq, IsKeyed}
use hermes_a2a_v.RateLimiter.{RateLimiter}
use hermes_a2a_v.PushNotifier
use hermes_a2a_v.PeerManager
use hermes_a2a_v.SessionStore.{SessionStore}
use hermes_a2a_v.TaskStore.{opens}
use hermes_a2a_v.SessionStore.Laws.{fresh_or_none}
use hermes_a2a_v.A2aHandler.{get_session}
use hermes_a2a_v.Config.{GatewayConfig, default_config}
use hermes_a2a_v.App.{App, reply}
use hermes_a2a_v.Server.{Disk, create_app, startup, shutdown}
use hermes_a2a_v.Server.Endpoints.{health, Health}
use hermes_a2a_v.Server.Startup.{disk_of, startup-sessions, restart_keeps}
use hermes_a2a_v.Server.Access.{HttpRequest, Middleware, middleware_stack, unauthorized, serve}
use hermes_a2a_v.Server.Order.{unauthorized_iff}
use hermes_a2a_v.Server.Authorized.{IsAuthorized}

abbrev config : GatewayConfig
config = record default_config {
  auth = record { enabled = true; token = "secret"; admin_token = "" };
}

-- The documented order of Starlette
abbrev outermost_first : Middleware → List Middleware → List Middleware
outermost_first m stack = m ∷ stack

abbrev no_preflight : List String → HttpRequest → Bool
no_preflight origins request = false

abbrev good_request : HttpRequest
good_request = record {
  path = "/admin/peers";
  authorization = some "Bearer secret";
  source = record { forwarded = none; client = some "10.0.0.1" };
}

abbrev bad_request : HttpRequest
bad_request = record good_request { authorization = none }

abbrev limiter : RateLimiter
limiter = record { refill_rate = 60; burst_size = 1; buckets = [] }

unauthorized_iff_example :
    ((serve no_preflight (middleware_stack outermost_first config) good_request 5 5 limiter).1
      ≡ unauthorized)
    ↔ ¬ IsAuthorized "secret" "" good_request
unauthorized_iff_example =
    unauthorized_iff outermost_first no_preflight config (λ m stack. refl) refl good_request 5 5
      limiter

abbrev bad_requests : List (HttpRequest × ℕ × ℕ)
bad_requests = (bad_request, 5, 5) ∷ (bad_request, 6, 6) ∷ []

-- A session of today and one of the day before
abbrev disk : Disk
disk = record {
  task_rows = [];
  session_rows =
      ("c1", record { session_id = "s1"; created_at = 3; updated_at = 90000 })
      ∷ ("c2", record { session_id = "s2"; created_at = 3; updated_at = 5 })
      ∷ [];
}

disk-IsKeyed : IsKeyed disk.session_rows
unfolding get
disk-IsKeyed = (refl, (refl, tt))

startup-sessions_example :
    (app : App) × (deleted : ℕ) × (store : SessionStore) × (startup opens opens 7 100000 1
        (create_app config disk)
      ≡ ok (app, deleted))
    × (app.gateway.session_store ≡ some store)
    × ((c : String) → get c store.rows ≡ fresh_or_none 24 100000 (get c disk.session_rows))
    × (length store.rows + deleted ≡ 2)
    × ((check : Result String Bool) (latency later : ℕ)
        → (h : Health) × (health check latency later app ≡ reply 200 h) × (h.active_sessions ≡ 2))
startup-sessions_example = startup-sessions config 7 100000 1 disk disk-IsKeyed

abbrev open_sessions : SessionStore
open_sessions = record { connected = true; rows = disk.session_rows }

-- A running gateway with an open store of each kind
abbrev running : App
running = record {
  gateway = record {
    task_store = record { connected = true; rows = [] };
    session_store = some open_sessions;
    sessions = [];
    push_store = PushNotifier.empty;
    metrics = none;
    deliveries = [];
  };
  peer_manager = PeerManager.init [];
  ws_broadcaster = record { connections = []; background_task = some 1; running = 1 ∷ [] };
  start_time = some 7;
}

restart_keeps_example :
    (app' : App) × (deleted : ℕ) × (startup opens opens 7 100000 1
        (create_app config (disk_of (shutdown running)))
      ≡ ok (app', deleted))
    × (app'.gateway.task_store ≡ running.gateway.task_store)
    × ((c : String)
        → (get_session c app'.gateway).0
          ≡ ok (Option.map (λ r. r.session_id) (fresh_or_none 24 100000 (get c disk.session_rows))))
    × (app'.gateway.push_store ≡ PushNotifier.empty)
    × (app'.peer_manager ≡ PeerManager.init config.peers)
restart_keeps_example = restart_keeps config 7 100000 1 running open_sessions refl refl disk-IsKeyed
