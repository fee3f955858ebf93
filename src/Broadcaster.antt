-- ===== src/Broadcaster.antt =====
-- src/hermes_a2a/ws_broadcaster.py: the registry of WebSocket connections, broadcasts, and the
-- endpoint that keeps a connection open. A socket is an object, known by a number. What a socket
-- does with a text that is sent to it, and what its client sends, are arguments. The metrics loop
-- and the proofs are in the children.
pub mod Metrics
pub mod Membership
use hermes_a2a_v.Prelude.{
  ℕ, String, Bool, true, false, not, ◌&&◌, ◌||◌, Option, none, some, List, [], ◌∷◌, ◌++◌, ◌==◌,
  if◌then◌else◌, length,
}
use hermes_a2a_v.Distinct.{remove_first, nat_eq}
use hermes_a2a_v.Dict.{Dict}

abbrev pub WebSocket : Type 0
WebSocket = ℕ

-- `running` lists the background tasks that were created and not cancelled; the module keeps a handle
-- of one of them at most.
pub record Broadcaster : Type 0 where
  pub connections : List WebSocket
  pub background_task : Option ℕ
  pub running : List ℕ

-- The values in the `data` of an event
pub data Value : Type 0 where
  null : Value
  str : String → Value
  int : ℕ → Value
  table : Dict String String → Value

-- The JSON object that is sent
pub record Payload : Type 0 where
  pub event_type : String
  pub data_field : Dict String Value
  pub timestamp : ℕ

unfoldable pub init : Broadcaster
init = record { connections = []; background_task = none; running = [] }

unfoldable pub connect : WebSocket → Broadcaster → Broadcaster
connect ws b = record b { connections = b.connections ++ ws ∷ [] }

unfoldable pub disconnect : WebSocket → Broadcaster → Broadcaster
unfolding remove_first
disconnect ws b = record b { connections = remove_first ws b.connections }

unfoldable pub connection_count : Broadcaster → ℕ
connection_count b = length b.connections

-- The loop under the lock: what was sent, and the sockets that raised
unfoldable pub send_loop :
    (WebSocket → Bool) → Payload → List WebSocket → List (WebSocket × Payload) × List WebSocket
send_loop accepts payload [] = ([], [])
send_loop accepts payload (ws ∷ rest) =
    let (sent, stale) = send_loop accepts payload rest in
    if accepts ws then ((ws, payload) ∷ sent, stale) else (sent, ws ∷ stale)

-- `for ws in stale: await self.disconnect(ws)`
unfoldable pub disconnect_each : List WebSocket → Broadcaster → Broadcaster
unfolding disconnect
disconnect_each [] b = b
disconnect_each (ws ∷ stale) b = disconnect_each stale (disconnect ws b)

-- `accepts` says which sockets take the text without an exception, `now` is `time.time()`.
unfoldable pub broadcast :
    String
    → Dict String Value
    → ℕ
    → (WebSocket → Bool)
    → Broadcaster
    → Broadcaster × List (WebSocket × Payload)
unfolding send_loop disconnect_each
broadcast event_type data_field now accepts b =
    let (sent, stale) = send_loop accepts payload b.connections in (disconnect_each stale b, sent)
  where
    payload : Payload
    payload = record { event_type = event_type; data_field = data_field; timestamp = now }

str_or_null : Option String → Value
str_or_null none = null
str_or_null (some s) = str s

abbrev pub Broadcasting : Type 0
Broadcasting = ℕ → (WebSocket → Bool) → Broadcaster → Broadcaster × List (WebSocket × Payload)

unfoldable pub broadcast_task_created : String → Option String → Broadcasting
unfolding broadcast str_or_null
broadcast_task_created task_id context_id =
    broadcast "task_created"
      (("task_id", str task_id) ∷ ("context_id", str_or_null context_id) ∷ [])

unfoldable pub broadcast_task_completed : String → Broadcasting
unfolding broadcast
broadcast_task_completed task_id = broadcast "task_completed" (("task_id", str task_id) ∷ [])

unfoldable pub broadcast_task_failed : String → String → Broadcasting
unfolding broadcast
broadcast_task_failed task_id error =
    broadcast "task_failed" (("task_id", str task_id) ∷ ("error", str error) ∷ [])

unfoldable pub broadcast_peer_status : String → String → Broadcasting
unfolding broadcast
broadcast_peer_status peer_name status =
    broadcast "peer_status" (("peer_name", str peer_name) ∷ ("status", str status) ∷ [])

unfoldable pub broadcast_metrics_tick : Dict String Value → Broadcasting
unfolding broadcast
broadcast_metrics_tick metrics = broadcast "metrics_tick" metrics

-- The calls of one broadcaster, in the order in which they take its lock
pub data Event : Type 0 where
  connects disconnects : WebSocket → Event
  broadcasts : String → Dict String Value → ℕ → (WebSocket → Bool) → Event

unfoldable pub step : Event → Broadcaster → Broadcaster
unfolding connect disconnect broadcast
step (connects ws) b = connect ws b
step (disconnects ws) b = disconnect ws b
step (broadcasts event_type data_field now accepts) b =
    (broadcast event_type data_field now accepts b).0

unfoldable pub run : List Event → Broadcaster → Broadcaster
unfolding step
run [] b = b
run (e ∷ es) b = run es (step e b)

-- What `ws.receive_text()` returns or raises
pub data Received : Type 0 where
  message : String → Received
  disconnected : Received
  failed : String → Received

-- How far the endpoint has come
pub data Ended : Type 0 where
  waiting closed : Ended
  raised : String → Ended

unfoldable pub receive_loop : List Received → Ended
receive_loop [] = waiting
receive_loop (message m ∷ more) = receive_loop more
receive_loop (disconnected ∷ more) = closed
receive_loop (failed e ∷ more) = raised e

-- `finally: await broadcaster.disconnect(ws)`, once the loop is left
finally_disconnect : WebSocket → Ended → Broadcaster → Broadcaster
unfolding disconnect
finally_disconnect ws waiting b = b
finally_disconnect ws closed b = disconnect ws b
finally_disconnect ws (raised e) b = disconnect ws b

-- The endpoint of `_make_ws_endpoint`; `others` are the calls made while it waits for its client.
unfoldable pub endpoint : WebSocket → List Received → List Event → Broadcaster → Broadcaster × Ended
unfolding receive_loop run finally_disconnect connect
endpoint ws received others b =
    let ended = receive_loop received in
    (finally_disconnect ws ended (run others (connect ws b)), ended)
