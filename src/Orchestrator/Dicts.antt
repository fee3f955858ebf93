-- ===== src/Orchestrator/Dicts.antt =====
-- The `to_dict` methods of src/hermes_a2a/orchestrator.py, and what they tell of a run.
use hermes_a2a_v.Prelude.{
  ℕ, ◌+◌, ◌≤◌, ◌≡◌, refl, ap, ◌↔◌, String, Option, none, some, List, [], ◌∷◌, map, length, arith,
  ok, Bool, false, false≢true, str_eq,
}
use hermes_a2a_v.Dict.{Dict, get, string_eq}
use hermes_a2a_v.Orchestrator.{
  SubTaskStatus, Overall, SubTask, SubTaskResult, OrchestrationResult, completed_count,
  failed_count, pending_count, Engine, Executor, Strategy, execute,
}
use hermes_a2a_v.Orchestrator.Execution.{execute-IsJustified}

-- A value of the dict of a subtask or of its result
pub data Field : Type 0 where
  null : Field
  text : String → Field

or_null : Option String → Field
or_null none = null
or_null (some s) = text s

-- `self.status.value`
status_value : SubTaskStatus → String
status_value SubTaskStatus.pending = "pending"
status_value SubTaskStatus.running = "running"
status_value SubTaskStatus.completed = "completed"
status_value SubTaskStatus.failed = "failed"
status_value SubTaskStatus.timed_out = "timed_out"

overall_value : Overall → String
overall_value Overall.pending = "pending"
overall_value Overall.running = "running"
overall_value Overall.completed = "completed"
overall_value Overall.failed = "failed"
overall_value Overall.partial = "partial"

-- `SubTask.to_dict`
unfoldable pub subtask_dict : SubTask → Dict String Field
unfolding or_null status_value
subtask_dict st =
    ("id", text st.id)
    ∷ ("description", text st.description)
    ∷ ("assigned_peer", or_null st.assigned_peer)
    ∷ ("status", text (status_value st.status))
    ∷ ("result", or_null st.result)
    ∷ ("error", or_null st.error)
    ∷ []

-- `SubTaskResult.to_dict`
unfoldable pub result_dict : SubTaskResult → Dict String Field
unfolding or_null status_value
result_dict r =
    ("subtask_id", text r.subtask_id)
    ∷ ("peer_name", text r.peer_name)
    ∷ ("status", text (status_value r.status))
    ∷ ("result", or_null r.result)
    ∷ ("error", or_null r.error)
    ∷ []

-- A value of the dict of a run
pub data Entry : Type 0 where
  absent : Entry
  words : String → Entry
  count : ℕ → Entry
  results : List (Dict String Field) → Entry

or_absent : Option String → Entry
or_absent none = absent
or_absent (some s) = words s

-- `OrchestrationResult.to_dict`, with the task id and `aggregate_result`, which `execute` leaves alone
unfoldable pub to_dict : String → Option String → OrchestrationResult → Dict String Entry
unfolding or_absent overall_value result_dict
to_dict task_id aggregate_result self =
    ("task_id", words task_id)
    ∷ ("status", words (overall_value self.status))
    ∷ ("subtask_results", results (map result_dict self.subtask_results))
    ∷ ("aggregate_result", or_absent aggregate_result)
    ∷ ("completed_count", count (completed_count self.subtask_results))
    ∷ ("failed_count", count (failed_count self.subtask_results))
    ∷ ("pending_count", count (pending_count self.subtask_results))
    ∷ []

-- No result is counted twice.
counts_apart :
    (rs : List SubTaskResult) → completed_count rs + failed_count rs + pending_count rs ≤ length rs
unfolding completed_count failed_count pending_count
counts_apart [] = omega arith
counts_apart (r ∷ rs) = ground (arith, counts_apart rs)

says_completed : Option Entry → Bool
says_completed none = false
says_completed (some absent) = false
says_completed (some (words s)) = str_eq s "completed"
says_completed (some (count n)) = false
says_completed (some (results rs)) = false

overall_value-completed :
    (s : Overall)
    → some (words (overall_value s)) ≡ some (words "completed")
    → s ≡ Overall.completed
unfolding overall_value says_completed
overall_value-completed Overall.pending e = absurd (false≢true (ap says_completed e))
overall_value-completed Overall.running e = absurd (false≢true (ap says_completed e))
overall_value-completed Overall.completed e = refl
overall_value-completed Overall.failed e = absurd (false≢true (ap says_completed e))
overall_value-completed Overall.partial e = absurd (false≢true (ap says_completed e))

-- The dict of a run of `execute` counts every subtask result as completed or as failed and none as
-- pending, whatever the executor does, and its status is "completed" exactly when it counts no failed
-- one.
pub execute-to_dict :
    (engine : Engine) (subtasks : List SubTask) (names : List String) (executor : Executor)
    (strategy : Strategy) (res : OrchestrationResult) (task_id : String)
    (aggregate_result : Option String)
    → (execute engine subtasks names executor strategy).1 ≡ ok res
    → let d = to_dict task_id aggregate_result res in
      (get "pending_count" d ≡ some (count 0))
      × ((completed : ℕ) × (failed : ℕ) × (get "completed_count" d ≡ some (count completed))
          × (get "failed_count" d ≡ some (count failed))
          × (completed + failed ≡ length res.subtask_results)
          × ((get "status" d ≡ some (words "completed")) ↔ (failed ≡ 0)))
unfolding to_dict get overall_value
execute-to_dict engine subtasks names executor strategy res task_id aggregate_result h =
    let j = execute-IsJustified engine subtasks names executor strategy res h in
    let c = completed_count res.subtask_results in
    let f = failed_count res.subtask_results in
    let none_pending : pending_count res.subtask_results ≡ 0 =
      omega (arith, counts_apart res.subtask_results, j.counted) in
    (
      ap (λ n. some (count n)) none_pending,
      (
        c,
        f,
        refl,
        refl,
        j.counted,
        (
          (λ e. j.completed.0 (overall_value-completed res.status e)),
          λ e. ap (λ s. some (words (overall_value s))) (j.completed.1 e),
        ),
      ),
    )
