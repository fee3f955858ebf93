-- ===== src/Orchestrator.antt =====
-- src/hermes_a2a/orchestrator.py: subtasks, their execution on peers with retries, and the final
-- status. A subtask is an object that the engine mutates: a method returns it anew. Results holds
-- their data and the final status; the proofs are in the other children.
mod Results
pub mod Decompose
pub mod Visible
pub mod Lossless
pub mod Attempts
pub mod Execution
pub mod Dicts
pub mod Order
pub mod Returns
unfoldable pub use Results.*
use hermes_a2a_v.Prelude.{
  ltb, ℕ, zero, suc, ◌+◌, ◌%◌, String, Bool, true, false, ◌||◌, Option, none, some, List, [], ◌∷◌,
  ◌++◌, map, ◌==◌, if◌then◌else◌, length, get_elem?, is_empty, count_p, Result, ok, raise,
}
use hermes_a2a_v.Text.{◌⧺◌, take_chars}

-- What one awaited call of the executor comes to. `canceled` is an exception that is no `Exception`,
-- such as `CancelledError`.
pub data Outcome : Type 0 where
  returned : String → Outcome
  timeout : Outcome
  raised : String → Outcome
  canceled : String → Outcome

-- An engine: `timeout_text` is the text of `timeout_per_subtask`.
pub record Engine : Type 0 where
  pub timeout_text : String
  pub max_retries : ℕ

-- The executor, or `None`: what its call for a subtask comes to, by the subtask's id, the peer, the
-- description and the attempt.
abbrev pub Executor : Type 0
Executor = Option (String → String → String → ℕ → Outcome)

-- `wait_for(executor(...))`, or the simulated success
unfoldable pub call : Executor → String → String → String → ℕ → Outcome
call none id peer_name description attempt = returned ("Result for: " ⧺ take_chars 50 description)
call (some executor) id peer_name description attempt = executor id peer_name description attempt

-- A call that may raise what is no `Exception`, beside the subtask as it was left.
abbrev pub Ran : Type 0
Ran = SubTask × Result String SubTaskResult

pub fill_completed : SubTask → String → String → Ran
fill_completed subtask peer_name output = (
  record subtask { status = SubTaskStatus.completed; result = some output },
  ok (record {
    subtask_id = subtask.id;
    peer_name = peer_name;
    status = SubTaskStatus.completed;
    result = some output;
    error = none;
  }),
)

pub fill_error : SubTaskStatus → SubTask → String → Option String → Ran
fill_error status subtask peer_name last_error = (
  record subtask { status = status; error = last_error },
  ok (record {
    subtask_id = subtask.id;
    peer_name = peer_name;
    status = status;
    result = none;
    error = last_error;
  }),
)

unfoldable pub timed_out_text : Engine → String
timed_out_text engine = "Timed out after " ⧺ engine.timeout_text ⧺ "s"

module _ (engine : Engine) (executor : Executor) where
  -- The loop over `range(max_retries + 1)`, with `rounds` attempts left; `attempt` is the next one.
  unfoldable pub run_rounds : ℕ → ℕ → SubTask → String → Option String → Ran
  unfolding fill_completed fill_error
  run_rounds zero attempt subtask peer_name last_error =
      fill_error SubTaskStatus.failed subtask peer_name last_error
  run_rounds (suc rounds) attempt subtask peer_name last_error =
      let again = λ (e : String). run_rounds rounds (attempt + 1) subtask peer_name (some e) in
      elim (call executor subtask.id peer_name subtask.description attempt) [
        | returned output ↦ fill_completed subtask peer_name output
        | timeout ↦
            if ltb attempt engine.max_retries
            then again (timed_out_text engine)
            else fill_error SubTaskStatus.timed_out subtask peer_name (some (timed_out_text engine))
        | raised exc ↦
            if ltb attempt engine.max_retries
            then again exc
            else fill_error SubTaskStatus.failed subtask peer_name (some exc)
        | canceled exc ↦ (subtask, raise exc)
      ]

  unfoldable pub run_subtask : SubTask → String → Ran
  run_subtask subtask peer_name = run_rounds (suc engine.max_retries) 0 subtask peer_name none

  -- `st.status = SubTaskStatus.RUNNING`, then the subtask's run
  unfoldable pub start : SubTask × String → Ran
  start (st, peer_name) = run_subtask (record st { status = SubTaskStatus.running }) peer_name

  -- `_execute_sequential`: an exception leaves the loop, with the later subtasks untouched
  unfoldable pub execute_sequential :
      List (SubTask × String) → List SubTask × Result String (List SubTaskResult)
  execute_sequential [] = ([], ok [])
  execute_sequential (a ∷ rest) =
      let (st, r) = start a in
      let (sts, rs) = execute_sequential rest in
      elim r [
        | raise exc ↦ (st ∷ map (λ p. p.0) rest, raise exc)
        | ok sr ↦ (st ∷ sts, elim rs [ ok srs ↦ ok (sr ∷ srs) | raise exc ↦ raise exc ])
      ]

  -- One item of `gather(..., return_exceptions=True)`
  gathered : Result String SubTaskResult → SubTaskResult
  gathered (ok sr) = sr
  gathered (raise exc) = record {
    subtask_id = "";
    peer_name = "";
    status = SubTaskStatus.failed;
    result = none;
    error = some exc;
  }

  -- `_execute_parallel`: `gather` returns the results in the order of its arguments
  unfoldable pub execute_parallel : List (SubTask × String) → List SubTask × List SubTaskResult
  unfolding gathered
  execute_parallel [] = ([], [])
  execute_parallel (a ∷ rest) =
      let (st, r) = start a in let (sts, rs) = execute_parallel rest in (st ∷ sts, gathered r ∷ rs)

-- `peer_names[i % len(peer_names)]`, for names that are not empty
unfoldable pub nth_peer : List String → ℕ → String
nth_peer names i = elim (get_elem? names (i % length names)) [ none ↦ "" | some name ↦ name ]

-- The loop of `_assign_peers`, from index `i` on
pub assign_from : ℕ → List String → List SubTask → List (SubTask × String)
unfolding nth_peer
assign_from i names [] = []
assign_from i names (st ∷ sts) =
    (record st { assigned_peer = some (nth_peer names i) }, nth_peer names i)
    ∷ assign_from (i + 1) names sts

unfoldable pub assign_peers : List SubTask → List String → List (SubTask × String)
unfolding assign_from
assign_peers subtasks names = assign_from 0 names subtasks

-- `strategy == "sequential"` or not
pub data Strategy : Type 0 where
  sequential concurrent : Strategy

pub execute_by :
    Strategy
    → Engine
    → Executor
    → List (SubTask × String)
    → List SubTask × Result String OrchestrationResult
unfolding finalized
execute_by sequential engine executor assigned =
    let (sts, rs) = execute_sequential engine executor assigned in
    (sts, elim rs [ ok results ↦ ok (finalized results) | raise exc ↦ raise exc ])
execute_by concurrent engine executor assigned =
    let (sts, results) = execute_parallel engine executor assigned in (sts, ok (finalized results))

-- `execute`, with the names of the peers: the subtasks as it leaves them, and its result or the
-- exception that is no `Exception`.
unfoldable pub execute :
    Engine
    → List SubTask
    → List String
    → Executor
    → Strategy
    → List SubTask × Result String OrchestrationResult
unfolding no_peer execute_by
execute engine [] names executor strategy =
    ([], ok (record { status = Overall.completed; subtask_results = [] }))
execute engine (st ∷ sts) [] executor strategy =
    (st ∷ sts, ok (record { status = Overall.failed; subtask_results = map no_peer (st ∷ sts) }))
execute engine (st ∷ sts) (name ∷ names) executor strategy =
    execute_by strategy engine executor (assign_peers (st ∷ sts) (name ∷ names))
