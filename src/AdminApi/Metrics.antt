-- ===== src/AdminApi/Metrics.antt =====
-- The metrics routes of src/hermes_a2a/admin_api.py. Uptimes are in milliseconds, before they are
-- rounded.
use hermes_a2a_v.Prelude.{
  ◌>>=◌, ℕ, ◌+◌, String, Bool, true, false, Option, none, some, List, [], ◌∷◌, truthy, leb,
  if◌then◌else◌, select, length, Result, ok, raise,
}
use hermes_a2a_v.Prelude.Int.{ℤ, pos, negsuc}
use hermes_a2a_v.Dict.{Dict, get, put, string_eq}
use hermes_a2a_v.A2aHandler.{count_or_zero}
use hermes_a2a_v.TaskStore
use hermes_a2a_v.TaskStore.{TaskDict, int_of}
use hermes_a2a_v.Broadcaster.{Value, int, table}
use hermes_a2a_v.Broadcaster.Metrics.{GatewayState, counter, active_tasks, peer_health}
use hermes_a2a_v.AdminApi.Tasks.{status_text}
use hermes_a2a_v.App.{App, Response, reply, AppError, value_error, from_store, counter_of, uptime}

-- The loop over the tasks
unfoldable pub count_states : List TaskDict → Dict String ℕ → Dict String ℕ
unfolding status_text count_or_zero
count_states [] task_counts = task_counts
count_states (t ∷ rest) task_counts =
    let state = status_text "unknown" t.status in
    count_states rest (put state (count_or_zero (get state task_counts) + 1) task_counts)

-- The JSON object of GET /admin/metrics, less its constant `version`
pub record AdminMetrics : Type 0 where
  pub uptime_seconds : ℕ
  pub requests_total : ℕ
  pub errors_total : ℕ
  pub active_sessions : ℕ
  pub peer_count : ℕ
  pub task_count_by_status : Dict String ℕ
  pub total_tasks : ℕ

-- GET /admin/metrics, at time `now`
unfoldable pub admin_metrics : ℕ → App → Result AppError (Response AdminMetrics)
unfolding counter_of uptime count_states
admin_metrics now app = do
  all_tasks ← from_store (TaskStore.list_tasks app.gateway.task_store)
  requests_total ← counter_of "requests_total" app
  errors_total ← counter_of "errors_total" app
  ok (
      reply 200 (record {
        uptime_seconds = uptime now app.start_time;
        requests_total = requests_total;
        errors_total = errors_total;
        active_sessions = length app.gateway.sessions;
        peer_count = length (select (λ p. p.enabled) app.peer_manager.peers_config);
        task_count_by_status = count_states all_tasks [];
        total_tasks = length all_tasks;
      }))

-- `_collect_stream_metrics`
unfoldable pub collect_stream_metrics : (ℕ → ℕ) → GatewayState → GatewayState × Dict String Value
unfolding counter active_tasks peer_health
collect_stream_metrics clock gw =
    let (pm, health) = peer_health clock gw.peer_manager in
    (
      record gw { peer_manager = pm },
      ("request_count", int (counter "requests_total" gw.metrics))
          ∷ ("errors_total", int (counter "errors_total" gw.metrics))
          ∷ ("latency_p50", int 0)
          ∷ ("latency_p95", int 0)
          ∷ ("latency_p99", int 0)
          ∷ ("active_tasks", int (active_tasks gw.task_store))
          ∷ ("peer_health", table health)
          ∷ [],
    )

read_int : Option ℤ → Result AppError (Option ℤ)
read_int none = raise value_error
read_int (some n) = ok (some n)

-- `int(max_events) if max_events else None`
unfoldable pub read_max : Option String → Result AppError (Option ℤ)
unfolding int_of read_int
read_max none = ok none
read_max (some max_events) = if truthy max_events then read_int (int_of max_events) else ok none

-- `max_events is not None and count >= max_events`
unfoldable pub reached : Option ℤ → ℕ → Bool
reached none count = false
reached (some (pos n)) count = leb n count
reached (some (negsuc n)) count = true

-- One turn of `event_generator`: what `is_disconnected` answers, and the clock for the breakers
pub record Turn : Type 0 where
  pub is_disconnected : Bool
  pub clock : ℕ → ℕ

-- `event_generator` over its turns, from the count it has reached
unfoldable pub event_generator :
    Option ℤ → List Turn → ℕ → GatewayState → GatewayState × List (Dict String Value)
unfolding collect_stream_metrics reached
event_generator max_events [] count gw = (gw, [])
event_generator max_events (turn ∷ more) count gw =
    let (gw', metrics) = collect_stream_metrics turn.clock gw in
    let (gw'', later) = event_generator max_events more (count + 1) gw' in
    if turn.is_disconnected
    then (gw, [])
    else if reached max_events (count + 1)
    then (gw', metrics ∷ [])
    else (gw'', metrics ∷ later)

-- GET /admin/metrics/stream
unfoldable pub metrics_stream :
    Option String
    → List Turn
    → GatewayState
    → Result AppError (GatewayState × List (Dict String Value))
unfolding read_max event_generator
metrics_stream query turns gw = do
  max_events ← read_max query
  ok (event_generator max_events turns 0 gw)
