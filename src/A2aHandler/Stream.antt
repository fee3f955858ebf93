-- ===== src/A2aHandler/Stream.antt =====
-- `on_message_send_stream` of a2a_handler.py: the events that it yields, heartbeats included, and
-- what it stores at the end.
use hermes_a2a_v.Prelude.{
  String, Option, none, some, List, [], ◌∷◌, ◌++◌, truthy, if◌then◌else◌, Result, ok, raise,
}
use hermes_a2a_v.Text.{◌⧺◌, join}
use hermes_a2a_v.TaskState.{TaskState, working, completed, failed}
use hermes_a2a_v.TaskStore
use hermes_a2a_v.A2aHandler.{
  HandlerError, Gateway, M, Outside, SendRequest, completed_dict, context_of, get_session,
  save_session, increment_metric, on_tasks, ◌>>◌,
}
use hermes_a2a_v.MessageParser.{extract_text}

-- What one wait of the handler brings: nothing within the heartbeat window, a chunk, the end of the
-- stream, or an exception of the stream.
pub data Step : Type 0 where
  quiet : Step
  chunk : String → Step
  stop : Step
  broke : String → Step

-- A `TaskStatusUpdateEvent` or a `TaskArtifactUpdateEvent`, less the task's and context's ids
pub data Event : Type 0 where
  status_update : TaskState → Option String → Event
  artifact : String → Event

-- How the loop over the chunks ended. `waiting`: the stream has brought nothing more yet.
pub data Ending : Type 0 where
  collected : String → Ending
  stream_error : String → Ending
  waiting : Ending

-- The `while` loop, with the chunks collected so far: its events, and how it ended
unfoldable pub consume : List Step → List String → List Event × Ending
consume [] chunks = ([], waiting)
consume (quiet ∷ steps) chunks =
    let rest = consume steps chunks in (status_update working none ∷ rest.0, rest.1)
consume (chunk c ∷ steps) chunks =
    let rest = consume steps (chunks ++ c ∷ []) in (artifact c ∷ rest.0, rest.1)
consume (stop ∷ steps) chunks = ([], collected (join "" chunks))
consume (broke exc ∷ steps) chunks = ([], stream_error exc)

-- How the generator ended: it returned, an exception left it, or it is still waiting.
pub data Closing : Type 0 where
  returned : Closing
  raised : HandlerError → Closing
  open_ended : Closing

pub record StreamRun : Type 0 where
  pub events : List Event
  pub closing : Closing
  pub gateway : Gateway

-- `new_session_id or session_id or str(uuid.uuid4())`, where `new_session_id` is `None`
pub session_or_new : Option String → String → String
session_or_new none uuid = uuid
session_or_new (some s) uuid = if truthy s then s else uuid

-- The saves at the end of the stream
unfoldable pub store_completed : Outside → String → Option String → String → M (Unit {0})
unfolding session_or_new
store_completed out context_id session_id full_text = do
  save_session context_id (session_or_new session_id out.session_uuid) out.now
  on_tasks (TaskStore.save (completed_dict out.task_uuid context_id full_text) out.now)

after_store : Result HandlerError (Unit {0}) × Gateway → String → List Event → StreamRun
after_store (raise e, g) full_text events = record {
  events = events;
  closing = raised e;
  gateway = g;
}
after_store (ok u, g) full_text events = record {
  events = events ++ status_update completed (some full_text) ∷ [];
  closing = returned;
  gateway = (increment_metric "requests_total" g).1;
}

unfoldable pub after_loop :
    Outside → String → Option String → List Event → Ending → Gateway → StreamRun
unfolding after_store store_completed
after_loop out context_id session_id events (collected full_text) g =
    after_store (store_completed out context_id session_id full_text g) full_text events
after_loop out context_id session_id events (stream_error exc) g = record {
  events = events ++ status_update failed (some ("Stream error: " ⧺ exc)) ∷ [];
  closing = returned;
  gateway = (increment_metric "errors_total" g).1;
}
after_loop out context_id session_id events waiting g = record {
  events = events;
  closing = open_ended;
  gateway = g;
}

after_session :
    SendRequest
    → Outside
    → (String → Option String → List Step)
    → Result HandlerError (Option String) × Gateway
    → StreamRun
unfolding after_loop context_of
after_session params out stream (raise e, g) = record {
  events = [];
  closing = raised e;
  gateway = g;
}
after_session params out stream (ok session_id, g) =
    let (events, ending) = consume (stream (extract_text params.parts) session_id) [] in
    after_loop out (context_of params out.context_uuid) session_id
      (status_update working none ∷ events) ending g

-- `stream` is what the Hermes client's stream of a text and a session brings, wait by wait.
unfoldable pub on_message_send_stream :
    SendRequest → Outside → (String → Option String → List Step) → Gateway → StreamRun
unfolding after_session consume
on_message_send_stream params out stream g =
    after_session params out stream (get_session (context_of params out.context_uuid) g)
