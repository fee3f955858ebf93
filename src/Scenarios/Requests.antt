-- ===== src/Scenarios/Requests.antt =====
-- Runs of the request handler: sends, cancels and streams.
use hermes_a2a_v.Prelude.{
  ◌≡◌, refl, String, true, none, some, Option, List, [], ◌∷◌, ◌++◌, if◌then◌else◌, map, ok, raise,
  str_eq,
}
use hermes_a2a_v.Text.{join}
use hermes_a2a_v.Dict.{get, string_eq}
use hermes_a2a_v.HermesClient.{other_exception}
use hermes_a2a_v.TaskState.{working, completed, canceled, state_from_str, is_terminal}
use hermes_a2a_v.TaskStore
use hermes_a2a_v.TaskStore.{TaskDict, dict, text, row_of}
use hermes_a2a_v.SessionStore.{SessionStore}
use hermes_a2a_v.PushNotifier.{Config, notification_for, PostOutcome}
use hermes_a2a_v.A2aHandler.{
  Gateway, Outside, SendRequest, completed_dict, make_task, context_of, get_session,
  on_message_send, on_get_task, on_cancel_task, context_or_empty,
}
use hermes_a2a_v.A2aHandler.PushConfigs.{on_create_config, on_get_config, created_config_notified}
use hermes_a2a_v.PushNotifier.Configs.{IsValid}
use mathlib.Core.List.{Memᴰ}
use hermes_a2a_v.A2aHandler.Stream.{
  Step, stop, broke, status_update, returned, on_message_send_stream,
}
use hermes_a2a_v.A2aHandler.Sends.{IsOpen, send_then_get}
use hermes_a2a_v.A2aHandler.Cancels.{Holds, canceled_dict, cancel_once}
use hermes_a2a_v.A2aHandler.Streams.{Piece, beat, words, step_of, event_of, texts, stream_completes}

abbrev held : String → TaskDict
held state = record {
  id = "t1";
  context_id = some "c1";
  status = dict (text state);
  response = some "so far";
}

abbrev gateway : String → Gateway
gateway state = record {
  task_store = record { connected = true; rows = ("t1", row_of (held state) 5) ∷ [] };
  session_store = none;
  sessions = ("c1", "s1") ∷ [];
  push_store = record { configs = [] };
  metrics = some [];
  deliveries = [];
}

abbrev sessions : SessionStore
sessions = record { connected = true; rows = [] }

abbrev with_store : Gateway
with_store = record (gateway "working") { session_store = some sessions }

gateway-IsOpen : IsOpen (gateway "working")
gateway-IsOpen = record { tasks = refl; sessions = λ s e. cc }

abbrev outside : Outside
outside = record {
  now = 9;
  context_uuid = "c9";
  task_uuid = "t9";
  session_uuid = "s9";
  hermes = λ t s. ok ("hello", "s2");
  post = λ n i. PostOutcome.status 200;
}

abbrev broken_outside : Outside
broken_outside = record outside { hermes = λ t s. raise (other_exception "down") }

abbrev request : SendRequest
request = record { parts = []; context_id = "c1" }

send_then_get_example :
    let c = context_of request "c9" in
    let task = make_task "t9" c completed (some "hello") in
    let (result, g') = on_message_send request outside (gateway "working") in
    (result ≡ ok task)
    × (on_get_task "t9" g' ≡ (ok (some task), g'))
    × (get_session c g' ≡ (ok (some "s2"), g'))
    × ((k : String)
        → TaskStore.get_task k g'.task_store ≡ (
            if str_eq "t9" k
            then ok (some (completed_dict "t9" c "hello"))
            else TaskStore.get_task k (gateway "working").task_store))
send_then_get_example =
    send_then_get request outside (gateway "working") "hello" "s2" gateway-IsOpen (λ s. refl)

held-Holds : (state : String) → Holds (gateway state) (held state) state
unfolding TaskStore.get_task row_of get
held-Holds state = record { open_store = refl; stored = refl; status = refl }

cancel_once_example :
    let g = gateway "working" in
    let (result, g') = on_cancel_task "t1" outside g in
    (result ≡ ok (some (make_task "t1" (context_or_empty (some "c1")) canceled none)))
    × (on_get_task "t1" g'
        ≡ (ok (some (make_task "t1" (context_or_empty (some "c1")) canceled (some "so far"))), g'))
    × ((k : String)
        → TaskStore.get_task k g'.task_store ≡ (
            if str_eq "t1" k
            then ok (some (canceled_dict (held "working")))
            else TaskStore.get_task k g.task_store))
    × (on_cancel_task "t1" outside g' ≡ (ok none, g'))
unfolding state_from_str is_terminal
cancel_once_example =
    cancel_once (held "working") "working" outside outside (gateway "working")
      (held-Holds "working") refl

abbrev pieces : List Piece
pieces = beat ∷ words "Hel" ∷ words "lo" ∷ []

abbrev whole : String → Option String → List Step
whole t s = map step_of pieces ++ stop ∷ []

abbrev cut : String → Option String → List Step
cut t s = map step_of pieces ++ broke "lost" ∷ []

stream_completes_example :
    let full = join "" (texts pieces) in
    let run = on_message_send_stream request outside whole (gateway "working") in
    (run.closing ≡ returned)
    × (run.events
        ≡ status_update working none ∷ map event_of pieces
          ++ status_update completed (some full) ∷ [])
    × (on_get_task "t9" run.gateway
        ≡ (ok (some (make_task "t9" (context_of request "c9") completed (some full))), run.gateway))
stream_completes_example =
    stream_completes request outside whole (gateway "working") pieces [] gateway-IsOpen (λ s. refl)

abbrev hook : Config
hook = record { id = ""; task_id = "t1"; url = "http://hook"; token = "k" }

abbrev stored_hook : Config
stored_hook = record hook { id = "c7" }

no_configs-IsValid : IsValid (record { configs = [] })
no_configs-IsValid = record { keyed = tt; filed = tt }

created_config_notified_example :
    let g' = (on_create_config hook "c7" (gateway "working")).1 in
    (on_get_config "t1" "c7" g' ≡ (ok (some stored_hook), g'))
    × Memᴰ
        (notification_for stored_hook "t1" "canceled" "Task canceled")
        (map (λ x. x.0) (on_cancel_task "t1" outside g').1.deliveries)
unfolding state_from_str is_terminal
created_config_notified_example =
    created_config_notified (held "working") "working" outside (gateway "working") hook "c7"
      (held-Holds "working") refl no_configs-IsValid refl refl
