-- ===== src/A2aHandler/Streams.antt =====
-- The events of a streamed message, and what the stores hold after it.
use hermes_a2a_v.Prelude.{
  ◌≡◌, refl, ◌∙◌, ap, String, true, Option, none, some, List, [], ◌∷◌, ◌++◌, map, arith, ok,
  append_assoc, append-nil,
}
use hermes_a2a_v.Text.{◌⧺◌, join}
use hermes_a2a_v.Dict.{get-put_self, Dict, put, pop, string_eq}
use hermes_a2a_v.TaskState.{working, completed, failed}
use hermes_a2a_v.TaskStore
use hermes_a2a_v.MessageParser.{extract_text}
use hermes_a2a_v.A2aHandler.{
  continue, on_tasks, ◌>>◌, Gateway, Outside, SendRequest, make_task, completed_dict, context_of,
  save_session, increment_metric, on_get_task,
}
use hermes_a2a_v.A2aHandler.Stream.{
  StreamRun, Step, quiet, chunk, stop, broke, Event, status_update, artifact, collected, consume,
  store_completed, session_or_new, returned, on_message_send_stream, after_loop,
}
use hermes_a2a_v.A2aHandler.Sends.{IsOpen, get_session-open, save_session-open, save_session-get}

-- What a stream brings before it ends: a heartbeat window without a chunk, or a chunk.
pub data Piece : Type 0 where
  beat : Piece
  words : String → Piece

abbrev pub step_of : Piece → Step
step_of beat = quiet
step_of (words t) = chunk t

abbrev pub event_of : Piece → Event
event_of beat = status_update working none
event_of (words t) = artifact t

abbrev pub texts : List Piece → List String
texts [] = []
texts (beat ∷ ps) = texts ps
texts (words t ∷ ps) = t ∷ texts ps

-- The events of the pieces, one for each, and then the end that the next step brings.
consume-pieces :
    (ps : List Piece) (steps : List Step) (chunks : List String)
    → consume (map step_of ps ++ steps) chunks ≡ (
      map event_of ps ++ (consume steps (chunks ++ texts ps)).0,
      (consume steps (chunks ++ texts ps)).1,
    )
unfolding consume
consume-pieces [] steps chunks = rw append-nil
consume-pieces (beat ∷ ps) steps chunks = rw (consume-pieces ps steps chunks)
consume-pieces (words t ∷ ps) steps chunks =
    rw (consume-pieces ps steps (chunks ++ t ∷ []), append_assoc)

module _ (out : Outside) (c : String) (session : Option String) (full : String) (g : Gateway)
    (o : IsOpen g) where
  left : Gateway
  left = (store_completed out c session full g).1

  store_ok : (store_completed out c session full g).0 ≡ ok tt
  unfolding store_completed TaskStore.save
  store_ok =
      let sid = session_or_new session out.session_uuid in
      ground (
        arith,
        save_session-open c sid out.now g o,
        o.tasks,
        save_session-get c sid out.now g (save_session-open c sid out.now g o),
      )

  row : TaskStore.TaskRow
  row = TaskStore.row_of (completed_dict out.task_uuid c full) out.now

  rows_after : String → Dict String TaskStore.TaskRow
  rows_after sid = (save_session c sid out.now g).1.task_store.rows

  stored_by :
      (sid : String)
      → ((save_session c sid out.now
            >> on_tasks (TaskStore.save (completed_dict out.task_uuid c full) out.now))
          g).1.task_store
        ≡ record {
          connected = true;
          rows = put out.task_uuid row (pop out.task_uuid (rows_after sid));
        }
  unfolding TaskStore.save rows_after row completed_dict
  stored_by sid =
      let saved = save_session-open c sid out.now g o in
      let opened : (save_session c sid out.now g).1.task_store.connected ≡ true =
        ap (λ (x : TaskStore.TaskStore). x.connected) (save_session-get c sid out.now g saved).1
        ∙ o.tasks in
      rw (saved, ◌>>◌, continue) (rw (opened, on_tasks, TaskStore.save) refl)

  left-task_store : left.task_store ≡ record {
    connected = true;
    rows =
        put out.task_uuid row
          (pop out.task_uuid (rows_after (session_or_new session out.session_uuid)));
  }
  unfolding left store_completed
  left-task_store = stored_by (session_or_new session out.session_uuid)

  left-get_task :
      TaskStore.get_task out.task_uuid left.task_store
      ≡ ok (some (completed_dict out.task_uuid c full))
  unfolding TaskStore.get_task TaskStore.row_of row
  left-get_task = rw left-task_store (
      ground (
        arith,
        get-put_self out.task_uuid row
            (pop out.task_uuid (rows_after (session_or_new session out.session_uuid))),
      ))

  done_run : List Event → StreamRun
  done_run events = record {
    events = events ++ status_update completed (some full) ∷ [];
    closing = returned;
    gateway = (increment_metric "requests_total" left).1;
  }

  after_collected :
      (events : List Event) → after_loop out c session events (collected full) g ≡ done_run events
  unfolding after_loop left done_run
  after_collected events = ground (arith, store_ok)

  done-get :
      (events : List Event)
      → let g' = (done_run events).gateway in
        on_get_task out.task_uuid g'
        ≡ (ok (some (make_task out.task_uuid c completed (some full))), g')
  unfolding on_get_task done_run increment_metric completed_dict
  done-get events = ground (arith, left-get_task)

-- A stream through open stores that brings heartbeats and chunks and then stops yields first a
-- working status, then one event for each heartbeat and chunk in order, and last a completed status
-- with the concatenated chunks; then `GetTask` of its id returns the completed task with that text.
pub stream_completes :
    (params : SendRequest) (out : Outside) (stream : String → Option String → List Step)
    (g : Gateway) (ps : List Piece) (rest : List Step)
    → IsOpen g
    → ((s : Option String) → stream (extract_text params.parts) s ≡ map step_of ps ++ stop ∷ rest)
    → let full = join "" (texts ps) in
      let run = on_message_send_stream params out stream g in
      (run.closing ≡ returned)
      × (run.events
          ≡ status_update working none ∷ map event_of ps
            ++ status_update completed (some full) ∷ [])
      × (on_get_task out.task_uuid run.gateway ≡ (
        ok (
            some
              (make_task out.task_uuid (context_of params out.context_uuid) completed (some full))),
        run.gateway,
      ))
unfolding on_message_send_stream
stream_completes params out stream g ps rest o brings =
    let c = context_of params out.context_uuid in
    let (s, e) = get_session-open c g o in
    let full = join "" (texts ps) in
    let shown = status_update working none ∷ map event_of ps in
    rw (e, brings s)
      (rw (consume-pieces ps (stop ∷ rest) [], append-nil)
        (rw (after_collected out c s full g o shown)
          (unfold done_run in refl, unfold done_run in refl, done-get out c s full g o shown)))

-- A stream through open stores that breaks after some heartbeats and chunks yields the same events
-- before, and last a failed status with the error; it stores nothing, and leaves the stores, the
-- sessions and the deliveries as they were.
pub stream_breaks :
    (params : SendRequest) (out : Outside) (stream : String → Option String → List Step)
    (g : Gateway) (ps : List Piece) (exc : String) (rest : List Step)
    → IsOpen g
    → ((s : Option String)
        → stream (extract_text params.parts) s ≡ map step_of ps ++ broke exc ∷ rest)
    → let run = on_message_send_stream params out stream g in
      (run.closing ≡ returned)
      × (run.events
          ≡ status_update working none ∷ map event_of ps
            ++ status_update failed (some ("Stream error: " ⧺ exc)) ∷ [])
      × (run.gateway.task_store ≡ g.task_store)
      × (run.gateway.session_store ≡ g.session_store)
      × (run.gateway.sessions ≡ g.sessions)
      × (run.gateway.deliveries ≡ g.deliveries)
unfolding on_message_send_stream increment_metric
stream_breaks params out stream g ps exc rest o brings =
    let (s, e) = get_session-open (context_of params out.context_uuid) g o in
    rw (e, brings s)
      (rw (consume-pieces ps (broke exc ∷ rest) [])
        (rw append-nil (refl, refl, refl, refl, refl, refl)))
