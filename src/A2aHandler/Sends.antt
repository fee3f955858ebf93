-- ===== src/A2aHandler/Sends.antt =====
-- `on_message_send`: what it leaves in the stores, and what the other requests then answer.
use mathlib.Core.Option
use hermes_a2a_v.Prelude.{
  eq_refl, ◌≡◌, refl, inl, inr, ℕ, String, true, Option, some, arith, ok, raise, str_eq,
  if◌then◌else◌, Option-cases,
}
use hermes_a2a_v.Dict.{get, put, pop, get-put, get-pop, get-put_self, string_eq}
use hermes_a2a_v.TaskState.{completed}
use hermes_a2a_v.TaskStore
use hermes_a2a_v.TaskStore.{TaskStore, TaskDict}
use hermes_a2a_v.SessionStore
use hermes_a2a_v.SessionStore.{SessionStore, SessionRow, upserted}
use hermes_a2a_v.HermesClient.{HermesError}
use hermes_a2a_v.MessageParser.{extract_text}
use hermes_a2a_v.A2aHandler.{
  Gateway, hermes_failed, Outside, SendRequest, completed_dict, make_task, context_of, get_session,
  save_session, on_message_send, on_get_task, increment_metric, after_hermes,
}

-- What a successful `_save_session` does.
pub save_session-get :
    (c sid : String) (now : ℕ) (g : Gateway)
    → (save_session c sid now g).0 ≡ ok tt
    → (get_session c (save_session c sid now g).1 ≡ (ok (some sid), (save_session c sid now g).1))
      × ((save_session c sid now g).1.task_store ≡ g.task_store)
unfolding save_session get_session SessionStore.save SessionStore.get_session
save_session-get c sid now g h = elim (Option-cases g.session_store) [
  | inl missing ↦ ground (arith, get-put_self c sid g.sessions)
  | inr (s, present) ↦ ground (arith, get-put_self c (upserted sid now (get c s.rows)) s.rows)
]

-- The stores of the gateway are open: `init` was called on those that it has.
pub record IsOpen (g : Gateway) : Type 0 where
  pub tasks : g.task_store.connected ≡ true
  pub sessions : (s : SessionStore) → g.session_store ≡ some s → s.connected ≡ true

pub get_session-open :
    (c : String) (g : Gateway) → IsOpen g → (s : Option String) × (get_session c g ≡ (ok s, g))
unfolding get_session SessionStore.get_session
get_session-open c g o = elim (Option-cases g.session_store) [
  | inl missing ↦ (get c g.sessions, ground arith)
  | inr (s, present) ↦
      (Option.map (λ r. r.session_id) (get c s.rows), ground (arith, o.sessions s present))
]

pub save_session-open :
    (c sid : String) (now : ℕ) (g : Gateway) → IsOpen g → (save_session c sid now g).0 ≡ ok tt
unfolding save_session SessionStore.save
save_session-open c sid now g o = elim (Option-cases g.session_store) [
  | inl missing ↦ ground arith
  | inr (s, present) ↦ ground (arith, o.sessions s present)
]

-- The gateway after a send whose Hermes call returned `response` and `sid`.
after_save : Outside → String → String → String → Gateway → Gateway
after_save out c response sid g =
    let saved = (save_session c sid out.now g).1 in
    let store = saved.task_store in
    record saved {
      task_store = record store {
        rows =
            put out.task_uuid (TaskStore.row_of (completed_dict out.task_uuid c response) out.now)
              (pop out.task_uuid store.rows);
      };
    }

module _ (out : Outside) (c response sid : String) (g : Gateway) (o : IsOpen g) where
  after_hermes_ok :
      let r = after_hermes out c (ok (response, sid)) g in
      (r.0 ≡ ok (make_task out.task_uuid c completed (some response)))
      × (r.1.task_store ≡ (after_save out c response sid g).task_store)
      × (r.1.session_store ≡ (save_session c sid out.now g).1.session_store)
      × (r.1.sessions ≡ (save_session c sid out.now g).1.sessions)
  unfolding after_hermes after_save TaskStore.save
  after_hermes_ok = ground (
    arith,
    save_session-open c sid out.now g o,
    o.tasks,
    save_session-get c sid out.now g (save_session-open c sid out.now g o),
  )

  left : Gateway
  left = (after_hermes out c (ok (response, sid)) g).1

  left-get_task :
      (k : String)
      → TaskStore.get_task k left.task_store ≡ (
          if str_eq out.task_uuid k
          then ok (some (completed_dict out.task_uuid c response))
          else TaskStore.get_task k g.task_store)
  unfolding left TaskStore.get_task after_save TaskStore.row_of
  left-get_task k =
      let rows = (save_session c sid out.now g).1.task_store.rows in
      let row = TaskStore.row_of (completed_dict out.task_uuid c response) out.now in
      let (_, stored, _, _) = after_hermes_ok in
      let (_, kept) = save_session-get c sid out.now g (save_session-open c sid out.now g o) in
      ground (
        arith,
        o.tasks,
        get-put out.task_uuid k row (pop out.task_uuid rows),
        get-pop out.task_uuid k rows,
      )

  left-on_get_task :
      on_get_task out.task_uuid left
      ≡ (ok (some (make_task out.task_uuid c completed (some response))), left)
  unfolding on_get_task completed_dict
  left-on_get_task = ground (arith, left-get_task out.task_uuid, eq_refl out.task_uuid)

  left-get_session : get_session c left ≡ (ok (some sid), left)
  unfolding get_session left
  left-get_session =
      let (_, _, store, dict) = after_hermes_ok in
      ground (arith, save_session-get c sid out.now g (save_session-open c sid out.now g o))

-- A send through open stores whose Hermes call succeeds returns a completed task under the fresh id,
-- with the message's context and the response. Afterwards `GetTask` of that id returns the same
-- task, the context's session is the one that Hermes gave, and every other task is as before.
pub send_then_get :
    (params : SendRequest) (out : Outside) (g : Gateway) (response sid : String)
    → IsOpen g
    → ((s : Option String) → out.hermes (extract_text params.parts) s ≡ ok (response, sid))
    → let c = context_of params out.context_uuid in
      let task = make_task out.task_uuid c completed (some response) in
      let (result, g') = on_message_send params out g in
      (result ≡ ok task)
      × (on_get_task out.task_uuid g' ≡ (ok (some task), g'))
      × (get_session c g' ≡ (ok (some sid), g'))
      × ((k : String)
          → TaskStore.get_task k g'.task_store ≡ (
              if str_eq out.task_uuid k
              then ok (some (completed_dict out.task_uuid c response))
              else TaskStore.get_task k g.task_store))
unfolding on_message_send left
send_then_get params out g response sid o answers =
    let c = context_of params out.context_uuid in
    let (s, e) = get_session-open c g o in
    rw (e, answers s)
      (
        (after_hermes_ok out c response sid g o).0,
        left-on_get_task out c response sid g o,
        left-get_session out c response sid g o,
        left-get_task out c response sid g o,
      )

-- A send whose Hermes call raises raises that exception; it leaves the stores, the sessions and the
-- deliveries as they were, and counts one error.
pub send_failure :
    (params : SendRequest) (out : Outside) (g : Gateway) (exc : HermesError)
    → IsOpen g
    → ((s : Option String) → out.hermes (extract_text params.parts) s ≡ raise exc)
    → on_message_send params out g
        ≡ (raise (hermes_failed exc), (increment_metric "errors_total" g).1)
      × ((increment_metric "errors_total" g).1.task_store ≡ g.task_store)
      × ((increment_metric "errors_total" g).1.session_store ≡ g.session_store)
      × ((increment_metric "errors_total" g).1.sessions ≡ g.sessions)
      × ((increment_metric "errors_total" g).1.deliveries ≡ g.deliveries)
unfolding on_message_send increment_metric
send_failure params out g exc o answers =
    let (s, e) = get_session-open (context_of params out.context_uuid) g o in
    (rw (e, answers s), refl, refl, refl, refl)

-- With a session store, a send leaves the in-memory dict of sessions as it was, whatever happens: the
-- dict whose size the health and metrics endpoints report does not follow the sessions.
pub send_keeps_session_dict :
    (params : SendRequest) (out : Outside) (g : Gateway) (s : SessionStore)
    → g.session_store ≡ some s
    → (on_message_send params out g).1.sessions ≡ g.sessions
unfolding on_message_send save_session get_session
send_keeps_session_dict params out g s present = ground arith
