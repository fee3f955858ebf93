-- ===== src/Scenarios/Orchestration.antt =====
-- Runs of subtasks on peers that time out, raise, and answer.
use hermes_a2a_v.Prelude.{
  ◌↔◌, ◌+◌, arith, ℕ, zero, suc, ◌≡◌, refl, ◌≤◌, ◌<◌, ◌%◌, String, true, false, none, some, List,
  [], ◌∷◌, ok, length, get_elem?,
}
use hermes_a2a_v.Orchestrator.{
  execute_sequential, execute_parallel, assign_peers, start, run_rounds, SubTask, SubTaskResult,
  SubTaskStatus, OrchestrationResult, Overall, returned, timeout, raised, Engine, Executor,
  sequential, concurrent, call, run_subtask, execute,
}
use hermes_a2a_v.Orchestrator.Attempts.{is_transient, run_subtask-completes}
use hermes_a2a_v.Orchestrator.Execution.{IsJustified, Agrees, execute-IsJustified}
use hermes_a2a_v.Orchestrator.Dicts.{text, words, count, subtask_dict, to_dict, execute-to_dict}
use hermes_a2a_v.Dict.{get, string_eq}
use hermes_a2a_v.Orchestrator.Order.{execute_in_order}
use hermes_a2a_v.Orchestrator.Returns.{is_foreign, execute_returns}

abbrev engine : Engine
engine = record { timeout_text = "30"; max_retries = 2 }

abbrev job : SubTask
job = record {
  id = "s1";
  description = "count";
  assigned_peer = none;
  status = SubTaskStatus.pending;
  result = none;
  error = none;
}

abbrev job_two : SubTask
job_two = record job { id = "s2" }

-- Times out, raises, and then answers.
abbrev third_time : Executor
third_time = some (λ id peer description attempt. elim attempt [
  | zero ↦ timeout
  | suc n ↦ elim n [ zero ↦ raised "down" | suc m ↦ returned "42" ]
])

abbrev never : Executor
never = some (λ id peer description attempt. timeout)

early_attempts : (j : ℕ) → j < 2 → is_transient (call third_time "s1" "bob" "count" j) ≡ true
unfolding call
early_attempts zero l = refl
early_attempts (suc zero) l = refl
early_attempts (suc (suc j)) l = absurd (omega arith)

run_subtask-completes_example : run_subtask engine third_time job "bob" ≡ (
  record job { status = SubTaskStatus.completed; result = some "42" },
  ok (record {
    subtask_id = "s1";
    peer_name = "bob";
    status = SubTaskStatus.completed;
    result = some "42";
    error = none;
  }),
)
unfolding call
run_subtask-completes_example =
    run_subtask-completes engine third_time "bob" job 2 "42" (omega arith) early_attempts refl

always_out : (j : ℕ) → j ≤ 2 → is_transient (call never "s1" "bob" "count" j) ≡ true
unfolding call
always_out j l = refl

abbrev two_peers : List String
two_peers = "bob" ∷ "al" ∷ []

abbrev done_by : String → String → SubTaskResult
done_by id peer = record {
  subtask_id = id;
  peer_name = peer;
  status = SubTaskStatus.completed;
  result = some "42";
  error = none;
}

abbrev all_done : OrchestrationResult
all_done = record {
  status = Overall.completed;
  subtask_results = done_by "s1" "bob" ∷ done_by "s2" "al" ∷ [];
}

execute-IsJustified_example : IsJustified all_done
unfolding execute execute_parallel assign_peers start run_subtask run_rounds call
execute-IsJustified_example =
    execute-IsJustified engine (job ∷ job_two ∷ []) two_peers third_time concurrent all_done refl

execute-to_dict_example :
    let d = to_dict "t1" none all_done in
    (get "pending_count" d ≡ some (count 0))
    × ((completed : ℕ) × (failed : ℕ) × (get "completed_count" d ≡ some (count completed))
        × (get "failed_count" d ≡ some (count failed))
        × (completed + failed ≡ length all_done.subtask_results)
        × ((get "status" d ≡ some (words "completed")) ↔ (failed ≡ 0)))
unfolding execute execute_parallel assign_peers start run_subtask run_rounds call
execute-to_dict_example =
    execute-to_dict engine (job ∷ job_two ∷ []) two_peers third_time concurrent all_done "t1" none
      refl

subtask_dict_test : get "status" (subtask_dict job) ≡ some (text "pending")
unfolding subtask_dict get
subtask_dict_test = refl

none_foreign :
    (id peer description : String) (i : ℕ)
    → is_foreign (call third_time id peer description i) ≡ false
unfolding call
none_foreign id peer description zero = refl
none_foreign id peer description (suc zero) = refl
none_foreign id peer description (suc (suc i)) = refl

execute_returns_example :
    (res : OrchestrationResult) × ((execute engine
        (job ∷ job_two ∷ [])
        two_peers
        third_time
        sequential).1
      ≡ ok res)
    × IsJustified res
execute_returns_example =
    execute_returns engine third_time none_foreign (job ∷ job_two ∷ []) two_peers sequential

execute_in_order_example :
    ((r : SubTaskResult) × (get_elem? all_done.subtask_results 1 ≡ some r)
      × (r.subtask_id ≡ "s2")
      × (get_elem? two_peers (1 % length two_peers) ≡ some r.peer_name))
    × Agrees
        (execute engine (job ∷ job_two ∷ []) two_peers third_time sequential).0
        all_done.subtask_results
unfolding execute execute_sequential assign_peers start run_subtask run_rounds call
execute_in_order_example =
    execute_in_order engine job (job_two ∷ []) "bob" ("al" ∷ []) third_time all_done 1 job_two refl
      refl
