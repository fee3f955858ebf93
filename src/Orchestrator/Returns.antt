-- ===== src/Orchestrator/Returns.antt =====
-- An execution returns a result, unless a call of the executor raises what is no `Exception`.
use hermes_a2a_v.Prelude.{
  ◌≡◌, refl, ◌+◌, inl, inr, Bool-cases, ltb, String, Bool, true, false, Option, List, [], ◌∷◌, ℕ,
  zero, suc, arith, ok,
}
use hermes_a2a_v.Orchestrator.{
  canceled, raised, timed_out_text, returned, some, none, fill_error, finalized, SubTaskStatus,
  fill_completed, SubTask, SubTaskResult, OrchestrationResult, Outcome, returned, timeout, raised,
  canceled, Engine, Executor, Strategy, sequential, concurrent, call, run_rounds, run_subtask,
  start, execute_sequential, execute_by, execute, assign_peers,
}
use hermes_a2a_v.Orchestrator.Execution.{IsJustified, execute-IsJustified}

-- The outcomes that `except Exception` does not catch.
abbrev pub is_foreign : Outcome → Bool
is_foreign (Outcome.canceled exc) = true
is_foreign _ = false

module _ (engine : Engine) (executor : Executor)
    (caught : (id peer description : String) (i : ℕ)
      → is_foreign (call executor id peer description i) ≡ false) where
  rounds_return :
      (rounds attempt : ℕ) (st : SubTask) (peer : String) (e : Option String)
      → (sr : SubTaskResult) × ((run_rounds engine executor rounds attempt st peer e).1 ≡ ok sr)
  unfolding run_rounds fill_completed fill_error
  rounds_return zero attempt st peer e = (_, refl)
  rounds_return (suc rounds) attempt st peer e =
      go (call executor st.id peer st.description attempt) refl
        (λ text. rounds_return rounds (attempt + 1) st peer (some text))
    where
      go :
          (o : Outcome)
          → call executor st.id peer st.description attempt ≡ o
          → ((text : String)
              → (sr : SubTaskResult) × ((run_rounds engine executor rounds
                    (attempt + 1)
                    st
                    peer
                    (some text)).1
                  ≡ ok sr))
          → (sr : SubTaskResult) × ((run_rounds engine executor (suc rounds) attempt st peer e).1
              ≡ ok sr)
      go (returned output) q again = rw (q, run_rounds) (_, refl)
      go timeout q again = elim (Bool-cases (ltb attempt engine.max_retries)) [
        | inl more ↦ rw (q, run_rounds) (rw more (again (timed_out_text engine)))
        | inr last ↦ rw (q, run_rounds) (rw last (_, refl))
      ]
      go (raised exc) q again = elim (Bool-cases (ltb attempt engine.max_retries)) [
        | inl more ↦ rw (q, run_rounds) (rw more (again exc))
        | inr last ↦ rw (q, run_rounds) (rw last (_, refl))
      ]
      go (canceled exc) q again =
          absurd (ground (arith, q, caught st.id peer st.description attempt))

  start_returns :
      (st : SubTask) (peer : String)
      → (sr : SubTaskResult) × ((start engine executor (st, peer)).1 ≡ ok sr)
  unfolding start run_subtask
  start_returns st peer =
      rounds_return (suc engine.max_retries) 0 (record st { status = SubTaskStatus.running }) peer
        none

  sequential_returns :
      (assigned : List (SubTask × String))
      → (rs : List SubTaskResult) × ((execute_sequential engine executor assigned).1 ≡ ok rs)
  unfolding execute_sequential
  sequential_returns [] = ([], refl)
  sequential_returns ((st, peer) ∷ rest) =
      let (sr, e) = start_returns st peer in
      let (srs, e') = sequential_returns rest in (sr ∷ srs, rw (e, execute_sequential) (rw e' refl))

  by_returns :
      (strategy : Strategy) (assigned : List (SubTask × String))
      → (res : OrchestrationResult) × ((execute_by strategy engine executor assigned).1 ≡ ok res)
  unfolding execute_by
  by_returns sequential assigned =
      let (rs, e) = sequential_returns assigned in (finalized rs, rw (e, execute_by) refl)
  by_returns concurrent assigned = (_, refl)

  -- If every exception that the executor's calls raise is an `Exception`, an execution returns a
  -- result, and the result's status is the one that its subtask results justify.
  pub execute_returns :
      (subtasks : List SubTask) (names : List String) (strategy : Strategy)
      → (res : OrchestrationResult) × ((execute engine subtasks names executor strategy).1 ≡ ok res)
        × IsJustified res
  unfolding execute
  execute_returns [] names strategy =
      (_, refl, execute-IsJustified engine [] names executor strategy _ refl)
  execute_returns (st ∷ sts) [] strategy =
      (_, refl, execute-IsJustified engine (st ∷ sts) [] executor strategy _ refl)
  execute_returns (st ∷ sts) (name ∷ names) strategy =
      let (res, e) = by_returns strategy (assign_peers (st ∷ sts) (name ∷ names)) in
      (res, e, execute-IsJustified engine (st ∷ sts) (name ∷ names) executor strategy res e)
