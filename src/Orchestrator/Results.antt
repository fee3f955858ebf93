-- ===== src/Orchestrator/Results.antt =====
-- The data of src/hermes_a2a/orchestrator.py, and the status of a run by its results.
use hermes_a2a_v.Prelude.{
  ℕ, String, Bool, true, false, Option, none, some, List, ◌==◌, if◌then◌else◌, length, count_p,
}

pub data SubTaskStatus : Type 0 where
  pending running completed failed timed_out : SubTaskStatus

-- `OrchestrationStatus`
pub data Overall : Type 0 where
  pending running completed failed partial : Overall

pub record SubTask : Type 0 where
  pub id : String
  pub description : String
  pub assigned_peer : Option String
  pub status : SubTaskStatus
  pub result : Option String
  pub error : Option String

pub record SubTaskResult : Type 0 where
  pub subtask_id : String
  pub peer_name : String
  pub status : SubTaskStatus
  pub result : Option String
  pub error : Option String

pub record OrchestrationResult : Type 0 where
  pub status : Overall
  pub subtask_results : List SubTaskResult

-- `s == SubTaskStatus.COMPLETED` and its like
abbrev pub is_completed : SubTaskStatus → Bool
is_completed SubTaskStatus.completed = true
is_completed _ = false

abbrev pub is_timed_out : SubTaskStatus → Bool
is_timed_out SubTaskStatus.timed_out = true
is_timed_out _ = false

-- `s in (SubTaskStatus.FAILED, SubTaskStatus.TIMED_OUT)`
abbrev pub is_failed : SubTaskStatus → Bool
is_failed SubTaskStatus.failed = true
is_failed SubTaskStatus.timed_out = true
is_failed _ = false

abbrev pub is_pending : SubTaskStatus → Bool
is_pending SubTaskStatus.pending = true
is_pending _ = false

unfoldable pub completed_count : List SubTaskResult → ℕ
completed_count rs = count_p (λ r. is_completed r.status) rs

unfoldable pub failed_count : List SubTaskResult → ℕ
failed_count rs = count_p (λ r. is_failed r.status) rs

unfoldable pub pending_count : List SubTaskResult → ℕ
pending_count rs = count_p (λ r. is_pending r.status) rs

unfoldable pub finalize_status : List SubTaskResult → Overall
unfolding completed_count failed_count
finalize_status results =
    let total = length results in
    if total == 0
    then Overall.completed
    else if completed_count results == total
    then Overall.completed
    else if failed_count results == total
    then Overall.failed
    else Overall.partial

-- The result of a subtask when there is no peer
unfoldable pub no_peer : SubTask → SubTaskResult
no_peer st = record {
  subtask_id = st.id;
  peer_name = "";
  status = SubTaskStatus.failed;
  result = none;
  error = some "No peers available";
}

unfoldable pub finalized : List SubTaskResult → OrchestrationResult
unfolding finalize_status
finalized results = record { status = finalize_status results; subtask_results = results }
