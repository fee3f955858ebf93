-- ===== src/A2aHandler.antt =====
-- src/hermes_a2a/a2a_handler.py: the A2A request handler over its stores. The Hermes client's
-- answer, what each push POST meets, the fresh UUIDs and the time are arguments. Monad, Sessions,
-- Stream and PushConfigs hold parts of it; the proofs are in the other children.
mod Monad
mod Sessions
pub mod Stream
pub mod Sends
pub mod Cancels
pub mod Streams
pub mod PushConfigs
pub use Monad.*
unfoldable pub use Sessions.*
use mathlib.Core.Option
use hermes_a2a_v.Prelude.{
  ℕ, ◌+◌, String, Bool, true, false, Option, none, some, List, [], ◌∷◌, ◌++◌, map, truthy, str_or,
  if◌then◌else◌, Result, ok, raise, str_eq,
}
use hermes_a2a_v.Dict.{Dict, get, put, string_eq}
use hermes_a2a_v.TaskState.{
  TaskState, unspecified, working, completed, failed, canceled, is_terminal, state_from_str,
  get_state_or,
}
use hermes_a2a_v.TaskStore
use hermes_a2a_v.TaskStore.{
  TaskDict, TaskStore, StateField, no_state, text, number, StatusField, no_status, dict, other,
}
use hermes_a2a_v.SessionStore
use hermes_a2a_v.SessionStore.{SessionStore}
use hermes_a2a_v.PushNotifier
use hermes_a2a_v.PushNotifier.{
  PushNotificationStore, Notification, PostOutcome, Delivered, Config, default_notifier,
}
use hermes_a2a_v.HermesClient.{HermesError}
use hermes_a2a_v.MessageParser.{Part, extract_text}

-- A protobuf `Task`, by its id, context, state and the text of its status message.
pub record Task : Type 0 where
  pub id : String
  pub context_id : String
  pub state : TaskState
  pub message : Option String

-- `if response_text:`
message_of : Option String → Option String
message_of none = none
message_of (some t) = if truthy t then some t else none

-- `_make_task`
unfoldable pub make_task : String → String → TaskState → Option String → Task
unfolding message_of
make_task task_id context_id state response_text = record {
  id = task_id;
  context_id = context_id;
  state = state;
  message = message_of response_text;
}

-- What the outside gives to one request: the time, fresh UUIDs, the Hermes client's answer to a
-- text and a session, and what the push POSTs meet.
pub record Outside : Type 0 where
  pub now : ℕ
  pub context_uuid : String
  pub task_uuid : String
  pub session_uuid : String
  pub hermes : String → Option String → Result HermesError (String × String)
  pub post : Notification → ℕ → PostOutcome

-- A `SendMessageRequest`, by its message's parts and context id.
pub record SendRequest : Type 0 where
  pub parts : List Part
  pub context_id : String

-- The dict that the handler stores for a completed task
unfoldable pub completed_dict : String → String → String → TaskDict
completed_dict task_id context_id response = record {
  id = task_id;
  context_id = some context_id;
  status = dict (text "completed");
  response = some response;
}

-- `_context_id`
unfoldable pub context_of : SendRequest → String → String
context_of params uuid = str_or params.context_id uuid

unfoldable pub after_hermes : Outside → String → Result HermesError (String × String) → M Task
unfolding save_session increment_metric deliver completed_dict make_task
after_hermes out context_id (raise exc) = do
  increment_metric "errors_total"
  fail (hermes_failed exc)
after_hermes out context_id (ok (response_text, new_session_id)) = do
  save_session context_id new_session_id out.now
  on_tasks (TaskStore.save (completed_dict out.task_uuid context_id response_text) out.now)
  increment_metric "requests_total"
  deliver out.post out.task_uuid "completed" response_text
  pure (make_task out.task_uuid context_id completed (some response_text))

unfoldable pub on_message_send : SendRequest → Outside → M Task
unfolding after_hermes context_of get_session
on_message_send params out = do
  let context_id = context_of params out.context_uuid
  session_id ← get_session context_id
  after_hermes out context_id (out.hermes (extract_text params.parts) session_id)

-- The `state_map` of `on_get_task` and `on_list_tasks`
unfoldable pub state_map : List (String × TaskState)
state_map =
    ("completed", completed)
    ∷ ("working", working)
    ∷ ("canceled", canceled)
    ∷ ("failed", failed)
    ∷ []

-- `state_map.get(state, TASK_STATE_COMPLETED)`
mapped : StateField → TaskState
unfolding state_map get_state_or
mapped no_state = get_state_or state_map "" completed
mapped (text t) = get_state_or state_map t completed
mapped (number n) = completed

-- `d.get("contextId", "")`
pub context_or_empty : Option String → String
context_or_empty none = ""
context_or_empty (some c) = c

task_of : TaskDict → StatusField → M Task
unfolding mapped context_or_empty make_task
task_of t no_status =
    pure (make_task t.id (context_or_empty t.context_id) (mapped no_state) t.response)
task_of t (dict state) =
    pure (make_task t.id (context_or_empty t.context_id) (mapped state) t.response)
task_of t (other v) = fail attribute_error

found_task : Option TaskDict → M (Option Task)
unfolding task_of
found_task none = pure none
found_task (some t) = do task ← task_of t t.status; pure (some task)

unfoldable pub on_get_task : String → M (Option Task)
unfolding found_task
on_get_task id = do found ← from_tasks (TaskStore.get_task id); found_task found

-- The text that `state_from_str` is given; a number is no key of its map
state_of : StateField → TaskState
unfolding state_from_str
state_of no_state = state_from_str ""
state_of (text t) = state_from_str t
state_of (number n) = unspecified

-- The write of "canceled" into the dict, with what follows
cancel_found : Outside → String → TaskDict → M (Option Task)
unfolding deliver make_task context_or_empty
cancel_found out id t = do
  on_tasks (TaskStore.save (record t { status = dict (text "canceled") }) out.now)
  deliver out.post id "canceled" "Task canceled"
  pure (some (make_task t.id (context_or_empty t.context_id) canceled none))

-- `task_dict["status"]` of a dict that has no status is a KeyError
cancel_status : Outside → String → TaskDict → StatusField → M (Option Task)
unfolding state_of cancel_found is_terminal
cancel_status out id t no_status =
    if is_terminal (state_of no_state) then pure none else fail key_error
cancel_status out id t (other v) = fail attribute_error
cancel_status out id t (dict state) =
    if is_terminal (state_of state) then pure none else cancel_found out id t

cancel_task : Outside → String → Option TaskDict → M (Option Task)
unfolding cancel_status
cancel_task out id none = pure none
cancel_task out id (some t) = cancel_status out id t t.status

unfoldable pub on_cancel_task : String → Outside → M (Option Task)
unfolding cancel_task
on_cancel_task id out = do found ← from_tasks (TaskStore.get_task id); cancel_task out id found

tasks_of : List TaskDict → M (List Task)
unfolding task_of
tasks_of [] = pure []
tasks_of (t ∷ ts) = do task ← task_of t t.status; tasks ← tasks_of ts; pure (task ∷ tasks)

unfoldable pub on_list_tasks : M (List Task)
unfolding tasks_of
on_list_tasks = do dicts ← from_tasks TaskStore.list_tasks; tasks_of dicts
