-- ===== src/A2aHandler/Cancels.antt =====
-- `on_cancel_task`: which tasks it cancels, and what it leaves.
use hermes_a2a_v.Prelude.{
  sym, false≢true, ◌≡◌, refl, ◌≢◌, ◌∙◌, ap, String, true, false, none, some, arith, ok, eq_refl,
  str_eq, if◌then◌else◌,
}
use hermes_a2a_v.Dict.{put, pop, get-put, get-pop, string_eq}
use hermes_a2a_v.TaskState.{canceled, is_terminal, can_cancel, state_from_str, validate_transition}
use hermes_a2a_v.TaskState.Lifecycle.{can_cancel_iff}
use hermes_a2a_v.TaskStore
use hermes_a2a_v.TaskStore.{TaskStore, TaskDict, dict, text}
use hermes_a2a_v.A2aHandler.{
  context_or_empty, Gateway, Outside, make_task, on_cancel_task, on_get_task,
}

-- The stored task that a request names: its dict, under its id, with a status that holds a text.
pub record Holds (g : Gateway) (t : TaskDict) (state : String) : Type 0 where
  pub open_store : g.task_store.connected ≡ true
  pub stored : TaskStore.get_task t.id g.task_store ≡ ok (some t)
  pub status : t.status ≡ dict (text state)

-- A cancel request for a stored task whose state reads as terminal answers nothing and changes
-- nothing.
pub cancel_terminal :
    (t : TaskDict) (state : String) (out : Outside) (g : Gateway)
    → Holds g t state
    → is_terminal (state_from_str state) ≡ true
    → on_cancel_task t.id out g ≡ (ok none, g)
unfolding on_cancel_task
cancel_terminal t state out g h terminal = ground arith

abbrev pub canceled_dict : TaskDict → TaskDict
canceled_dict t = record t { status = dict (text "canceled") }

module _ (t : TaskDict) (state : String) (out : Outside) (g : Gateway) (h : Holds g t state)
    (live : is_terminal (state_from_str state) ≡ false) where
  row : TaskStore.TaskRow
  row = TaskStore.row_of (canceled_dict t) out.now

  left : Gateway
  left = (on_cancel_task t.id out g).1

  cancel_result :
      (on_cancel_task t.id out g).0
      ≡ ok (some (make_task t.id (context_or_empty t.context_id) canceled none))
  unfolding on_cancel_task TaskStore.save
  cancel_result = ground (arith, h.stored, h.status, h.open_store)

  cancel_store :
      left.task_store ≡ record g.task_store { rows = put t.id row (pop t.id g.task_store.rows) }
  unfolding on_cancel_task TaskStore.save row left
  cancel_store = ground (arith, h.stored, h.status, h.open_store)

  cancel_gets :
      (k : String)
      → TaskStore.get_task k left.task_store
        ≡ (if str_eq t.id k then ok (some (canceled_dict t)) else TaskStore.get_task k g.task_store)
  unfolding TaskStore.get_task row TaskStore.row_of
  cancel_gets k = rw cancel_store (
      ground (
        arith,
        h.open_store,
        get-put t.id k row (pop t.id g.task_store.rows),
        get-pop t.id k g.task_store.rows,
      ))

  cancel-Holds : Holds left (canceled_dict t) "canceled"
  cancel-Holds = record {
    open_store = ap (λ (s : TaskStore). s.connected) cancel_store ∙ h.open_store;
    stored = cancel_gets t.id ∙ rw (eq_refl t.id) refl;
    status = refl;
  }

  cancel_reads :
      on_get_task t.id left
      ≡ (ok (some (make_task t.id (context_or_empty t.context_id) canceled t.response)), left)
  unfolding on_get_task
  cancel_reads = ground (arith, cancel_gets t.id, eq_refl t.id)

-- A cancel request for a stored task whose state does not read as terminal returns the task as
-- canceled. Afterwards `GetTask` reports it canceled with its response kept, every other task is as
-- before, and a second cancel request answers nothing and changes nothing.
pub cancel_once :
    (t : TaskDict) (state : String) (out again : Outside) (g : Gateway)
    → Holds g t state
    → is_terminal (state_from_str state) ≡ false
    → let (result, g') = on_cancel_task t.id out g in
      (result ≡ ok (some (make_task t.id (context_or_empty t.context_id) canceled none)))
      × (on_get_task t.id g'
          ≡ (ok (some (make_task t.id (context_or_empty t.context_id) canceled t.response)), g'))
      × ((k : String)
          → TaskStore.get_task k g'.task_store ≡ (
              if str_eq t.id k
              then ok (some (canceled_dict t))
              else TaskStore.get_task k g.task_store))
      × (on_cancel_task t.id again g' ≡ (ok none, g'))
unfolding left
cancel_once t state out again g h live = (
  cancel_result t state out g h live,
  cancel_reads t state out g h live,
  cancel_gets t state out g h live,
  cancel_terminal (canceled_dict t) "canceled" again (on_cancel_task t.id out g).1
      (cancel-Holds t state out g h live) (unfold state_from_str is_terminal in refl),
)

-- The handler's guard is weaker than the state machine: a stored task in a state that is neither
-- terminal nor cancelable, such as rejected, is canceled, although the transition table allows no
-- transition from its state to canceled.
pub cancel_outside_table :
    (t : TaskDict) (state : String) (out : Outside) (g : Gateway)
    → Holds g t state
    → can_cancel (state_from_str state) ≡ false
    → is_terminal (state_from_str state) ≡ false
    → ((on_cancel_task t.id out g).0
        ≡ ok (some (make_task t.id (context_or_empty t.context_id) canceled none)))
      × (validate_transition (state_from_str state) canceled ≢ ok tt)
cancel_outside_table t state out g h refused live = (
  cancel_result t state out g h live,
  λ valid. false≢true (sym refused ∙ (can_cancel_iff (state_from_str state)).1 valid),
)
