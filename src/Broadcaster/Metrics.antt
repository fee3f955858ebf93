-- ===== src/Broadcaster/Metrics.antt =====
-- The metrics that the broadcaster sends every few seconds, and the background task that does so.
-- The gateway's dict is a record whose missing keys are `none`. The three latencies are constants
-- in the code.
use hermes_a2a_v.Prelude.{
  ℕ, String, Bool, not, Option, none, some, List, [], ◌∷◌, ◌++◌, length, ok, raise, ◌==◌, select,
}
use hermes_a2a_v.Dict.{Dict, get, string_eq}
use hermes_a2a_v.TaskStore
use hermes_a2a_v.TaskStore.{TaskStore, StoreError, TaskDict}
use hermes_a2a_v.PeerManager.{PeerManager, peer_status}
use hermes_a2a_v.Broadcaster.{
  Broadcaster, WebSocket, Payload, Value, int, table, broadcast_metrics_tick,
}

-- The keys of the gateway's dict that are read for the metrics
pub record GatewayState : Type 0 where
  pub metrics : Option (Dict String ℕ)
  pub task_store : Option TaskStore
  pub peer_manager : Option PeerManager

-- `m.get(key, 0)`
unfoldable pub counter : String → Option (Dict String ℕ) → ℕ
counter key none = 0
counter key (some m) = elim (get key m) [ none ↦ 0 | some n ↦ n ]

-- `len(await ts.list())`; 0 when the store raises
unfoldable pub active_tasks : Option TaskStore → ℕ
active_tasks none = 0
active_tasks (some ts) = elim (TaskStore.list_tasks ts) [ ok tasks ↦ length tasks | raise e ↦ 0 ]

-- Reading `pm.peer_status` forgets circuit breakers whose time is over, so it changes the manager.
unfoldable pub peer_health : (ℕ → ℕ) → Option PeerManager → Option PeerManager × Dict String String
unfolding peer_status
peer_health clock none = (none, [])
peer_health clock (some pm) = let (pm', status) = peer_status clock pm in (some pm', status)

-- `_collect_metrics`
unfoldable pub collect_metrics : (ℕ → ℕ) → GatewayState → GatewayState × Dict String Value
unfolding counter active_tasks peer_health
collect_metrics clock gateway =
    let (pm, health) = peer_health clock gateway.peer_manager in
    (
      record gateway { peer_manager = pm },
      ("request_count", int (counter "requests_total" gateway.metrics))
          ∷ ("errors_total", int (counter "errors_total" gateway.metrics))
          ∷ ("latency_p50", int 0)
          ∷ ("latency_p95", int 0)
          ∷ ("latency_p99", int 0)
          ∷ ("active_tasks", int (active_tasks gateway.task_store))
          ∷ ("peer_health", table health)
          ∷ [],
    )

-- One turn of the loop, after its sleep: it meets the sockets as `accepts` says, or is left by an
-- exception that the loop logs.
pub data Tick : Type 0 where
  ticks : (clock : ℕ → ℕ) → (now : ℕ) → (accepts : WebSocket → Bool) → Tick
  fails : Tick

unfoldable pub metrics_turn :
    Tick → GatewayState × Broadcaster → (GatewayState × Broadcaster) × List (WebSocket × Payload)
unfolding collect_metrics broadcast_metrics_tick
metrics_turn fails s = (s, [])
metrics_turn (ticks clock now accepts) (gateway, b) =
    let (gateway', metrics) = collect_metrics clock gateway in
    let (b', sent) = broadcast_metrics_tick metrics now accepts b in ((gateway', b'), sent)

-- The turns of `_metrics_loop` until it is cancelled
unfoldable pub metrics_loop :
    List Tick
    → GatewayState × Broadcaster
    → (GatewayState × Broadcaster) × List (WebSocket × Payload)
unfolding metrics_turn
metrics_loop [] s = (s, [])
metrics_loop (t ∷ more) s =
    let (s', sent) = metrics_turn t s in
    let (s'', later) = metrics_loop more s' in (s'', sent ++ later)

-- `start_metrics_loop`: `task` is the task that `asyncio.create_task` makes.
unfoldable pub start_metrics_loop : ℕ → Broadcaster → Broadcaster
start_metrics_loop task b = record b {
  background_task = some task;
  running = b.running ++ task ∷ [];
}

unfoldable pub stop_metrics_loop : Broadcaster → Broadcaster
stop_metrics_loop b = elim b.background_task [
  | none ↦ b
  | some task ↦ record b {
    background_task = none;
    running = select (λ t. not (t == task)) b.running;
  }
]
