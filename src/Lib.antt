-- ===== src/Lib.antt =====
-- Hermes A2A gateway (Python): a bridge from the A2A protocol to the Hermes agent API. Requests reach
-- the handler (`HermesA2AHandler`), which turns a message into text, looks up the session of its
-- context, calls the Hermes client, stores the task and notifies the task's push configs. Beside it
-- stand the peer manager, which sends messages to other agents through a circuit breaker for each, and
-- the orchestration engine, which splits a task into subtasks and runs them on peers. The server puts
-- the parts together behind its middleware, and the admin API and the broadcaster show and change them.
--
-- Which file is about which part (paths from the repository's root):
--   TaskState          src/hermes_a2a/task_state_machine.py: states, transition table, state names
--   PeerManager        src/hermes_a2a/peer_manager.py and `PeerConfig` of models.py: Discovery (health,
--                      lists and discovery of peers); the breaker and the sends in PeerManager itself
--   HermesClient       src/hermes_a2a/hermes_client.py and exceptions.py: Common (errors, delays,
--                      headers), Request (`_request_with_retry`, `send_message`), Stream
--                      (`send_message_stream`); Retry and Streaming are about the two loops
--   Orchestrator       src/hermes_a2a/orchestrator.py: `execute` and what it calls; Results (its
--                      data, and the final status), Decompose (`decompose` with its regular
--                      expressions), Dicts (the `to_dict` methods)
--   ResultAggregator   src/hermes_a2a/result_aggregator.py
--   RateLimiter        src/hermes_a2a/rate_limiter.py
--   Auth               src/hermes_a2a/auth.py: tokens; Encoding (their text), Keys (`__init__`),
--                      Middleware (`AuthMiddleware`)
--   PushNotifier       src/hermes_a2a/push_notifier.py: the config store and the deliveries
--   TaskStore          src/hermes_a2a/task_store.py
--   SessionStore       src/hermes_a2a/session_store.py
--   MessageParser      src/hermes_a2a/message_parser.py
--   A2aHandler         src/hermes_a2a/a2a_handler.py: Monad (the handler's state and exceptions),
--                      Sessions (sessions, metrics and deliveries), Stream
--                      (`on_message_send_stream`), PushConfigs (the push config requests);
--                      the other methods in A2aHandler itself
--   AuditLogger        src/hermes_a2a/audit_logger.py: Matching, Reading and Queries are about queries
--   SkillRouter        src/hermes_a2a/skill_router.py: Keywords (words and their matches)
--   Broadcaster        src/hermes_a2a/ws_broadcaster.py: Metrics (the metrics and their loop)
--   A2aClient          src/hermes_a2a/a2a_client.py
--   TlsConfig          src/hermes_a2a/tls_config.py
--   Config             src/hermes_a2a/models.py and config.py (Loading)
--   App, Server        src/hermes_a2a/server.py: App (the state of the app), Access (the middleware),
--                      Routes (the order of the routes), Endpoints (health, metrics, peers and
--                      relay), Entry (`main`); start and stop in Server itself
--   AdminApi           src/hermes_a2a/admin_api.py: Tasks and Metrics; the routes over peers in
--                      AdminApi itself
--   Scripts            scripts/a2a_notify.py (Notify) and scripts/a2a_ping.py (Ping)
--   Prelude, Dict, Text, Distinct, Sorting  shared types and lemmas, Python's dict, string methods, `in`
--                      and list.remove, and sort
--   Scenarios          runs on concrete inputs
--
-- State and operations. A component's attributes are a record, and a method that changes them returns
-- the record anew; an exception is a value beside the state that was written before it. A dict is an
-- association list in insertion order. An SQL table is the list of its rows by primary key, which
-- stays when the connection closes; opening a database can fail, but a statement on an open one does
-- not. What stands outside is an argument: clock readings, fresh UUIDs,
-- what each HTTP call meets (by its number), what the A2A client answers, how httpx judges a status
-- (`raises`), whether `float` accepts a text (`is_float`), how json reads a chunk (`read_chunk`).
--
-- Bounds and fuel. `request_with_retry` runs on fuel 9: each retry uses up one of 3 + 2 + 3 delays.
-- `send_message_stream` runs on fuel 6: each retry uses up one of 3 + 2 delays. All other loops are
-- structural. Times are whole milliseconds or seconds, and a token of the rate limiter is 60000
-- units, so no rounding of floats is modelled.
--
-- Not modelled: logging and durations, cancellation of a running handler, `to_dict` of a peer score,
-- the dashboard, and what the scripts print. An executor's call is named by its subtask's id, peer,
-- description and attempt. `int` reads ASCII digits. A JSON column holds its
-- dict as it is, and bytes are texts with one character for a byte. A score of the skill router is in
-- ten-thousandths. Starlette, the A2A SDK, PyYAML, pydantic, openssl and the parsers of dates are
-- arguments, and what a theorem needs of their documented behaviour is its hypothesis. `serve` and
-- `serve_all` of Server.Access are Starlette's by its documentation: `call_next` of a middleware hands
-- the request to the next one. In the audit log floats and lists are left out.
pub mod Prelude
pub mod Dict
pub mod Text
pub mod Distinct
pub mod Sorting
pub mod TaskState
pub mod RateLimiter
pub mod Auth
pub mod PeerManager
pub mod HermesClient
pub mod Orchestrator
pub mod ResultAggregator
pub mod PushNotifier
pub mod Broadcaster
pub mod TaskStore
pub mod SessionStore
pub mod MessageParser
pub mod A2aHandler
pub mod AuditLogger
pub mod A2aClient
pub mod TlsConfig
pub mod SkillRouter
pub mod Config
pub mod App
pub mod AdminApi
pub mod Server
pub mod Scripts
pub mod Scenarios
