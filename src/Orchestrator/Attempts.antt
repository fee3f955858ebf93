-- ===== src/Orchestrator/Attempts.antt =====
-- A subtask's attempts: which one decides its result.
use native.Mathlib.Nat.{add-zero}
use hermes_a2a_v.Prelude.{
  ◌||◌, ◌&&◌, ◌∙◌, ℕ, zero, suc, ◌+◌, ◌≤◌, ◌<◌, ◌≡◌, subst, String, Bool, true, false, Option, none,
  some, arith, ok,
}
use hermes_a2a_v.Orchestrator.{
  is_failed, is_completed, SubTask, SubTaskResult, SubTaskStatus, Outcome, returned, timeout,
  raised, Engine, Executor, call, run_rounds, run_subtask, fill_completed, fill_error,
  timed_out_text,
}

-- The outcomes after which the engine tries again.
abbrev pub is_transient : Outcome → Bool
is_transient timeout = true
is_transient (raised exc) = true
is_transient _ = false

-- The status and the error text that an outcome leaves when it is the last one.
abbrev pub last_status : Outcome → SubTaskStatus
last_status timeout = SubTaskStatus.timed_out
last_status _ = SubTaskStatus.failed

module _ (engine : Engine) (executor : Executor) (peer : String) where
  abbrev pub error_text : Outcome → String
  error_text timeout = timed_out_text engine
  error_text (raised exc) = exc
  error_text _ = ""

  -- A transient outcome with retries left hands over to the next attempt.
  rounds_again :
      (rounds attempt : ℕ) (st : SubTask) (e : Option String)
      → is_transient (call executor st.id peer st.description attempt) ≡ true
      → attempt < engine.max_retries
      → run_rounds engine executor (suc rounds) attempt st peer e
        ≡ run_rounds engine executor rounds
            (attempt + 1)
            st
            peer
            (some (error_text (call executor st.id peer st.description attempt)))
  unfolding run_rounds
  rounds_again rounds attempt st e t l = ground arith

  rounds_complete :
      (n rounds attempt : ℕ) (st : SubTask) (e : Option String) (output : String)
      → n < rounds
      → attempt + rounds ≡ suc engine.max_retries
      → ((j : ℕ)
          → j < n
          → is_transient (call executor st.id peer st.description (attempt + j)) ≡ true)
      → call executor st.id peer st.description (attempt + n) ≡ returned output
      → run_rounds engine executor rounds attempt st peer e ≡ fill_completed st peer output
  rounds_complete n zero attempt st e output l s before at = absurd (omega arith)
  rounds_complete zero (suc rounds) attempt st e output l s before at =
      let here : call executor st.id peer st.description attempt ≡ returned output =
        rw add-zero at at in
      unfold run_rounds in ground arith
  rounds_complete (suc n) (suc rounds) attempt st e output l s before at =
      let shift : (j : ℕ) → attempt + suc j ≡ attempt + 1 + j = λ j. omega arith in
      rounds_again rounds attempt st e (rw add-zero at (before 0 (omega arith))) (omega arith)
      ∙ rounds_complete n rounds (attempt + 1) st _ output (omega arith) (omega arith)
          (λ j jl.
            subst (λ k. is_transient (call executor st.id peer st.description k) ≡ true) (shift j)
              (before (suc j) (omega arith)))
          (subst (λ k. call executor st.id peer st.description k ≡ returned output) (shift n) at)

  rounds_exhaust :
      (k attempt : ℕ) (st : SubTask) (e : Option String)
      → attempt + k ≡ engine.max_retries
      → ((j : ℕ)
          → j ≤ k
          → is_transient (call executor st.id peer st.description (attempt + j)) ≡ true)
      → let last = call executor st.id peer st.description engine.max_retries in
        run_rounds engine executor (suc k) attempt st peer e
        ≡ fill_error (last_status last) st peer (some (error_text last))
  rounds_exhaust zero attempt st e s all =
      let at : attempt ≡ engine.max_retries = omega arith in
      let t : is_transient (call executor st.id peer st.description attempt) ≡ true =
        rw add-zero at (all 0 (omega arith)) in
      rw (← at) (unfold run_rounds in ground (arith, t))
  rounds_exhaust (suc k) attempt st e s all =
      let shift : (j : ℕ) → attempt + suc j ≡ attempt + 1 + j = λ j. omega arith in
      rounds_again (suc k) attempt st e (rw add-zero at (all 0 (omega arith))) (omega arith)
      ∙ rounds_exhaust k (attempt + 1) st _ (omega arith) (λ j jl.
        subst (λ i. is_transient (call executor st.id peer st.description i) ≡ true) (shift j)
          (all (suc j) (omega arith)))

  -- If the attempts before `n` time out or raise, and attempt `n`, which is within the retries,
  -- returns, then the subtask completes with the output of attempt `n`.
  pub run_subtask-completes :
      (st : SubTask) (n : ℕ) (output : String)
      → n ≤ engine.max_retries
      → ((j : ℕ) → j < n → is_transient (call executor st.id peer st.description j) ≡ true)
      → call executor st.id peer st.description n ≡ returned output
      → run_subtask engine executor st peer ≡ (
        record st { status = SubTaskStatus.completed; result = some output },
        ok (record {
          subtask_id = st.id;
          peer_name = peer;
          status = SubTaskStatus.completed;
          result = some output;
          error = none;
        }),
      )
  unfolding run_subtask fill_completed
  run_subtask-completes st n output l before at =
      rounds_complete n (suc engine.max_retries) 0 st none output (omega arith) (omega arith)
        (λ j jl.
          subst (λ k. is_transient (call executor st.id peer st.description k) ≡ true) (omega arith)
            (before j jl))
        (subst (λ k. call executor st.id peer st.description k ≡ returned output) (omega arith) at)

  -- If every attempt that the retries allow times out or raises, the subtask ends as the last
  -- attempt did: timed out after a timeout, failed with the exception's text otherwise.
  pub run_subtask-exhausted :
      (st : SubTask)
      → ((j : ℕ)
          → j ≤ engine.max_retries
          → is_transient (call executor st.id peer st.description j) ≡ true)
      → let last = call executor st.id peer st.description engine.max_retries in
        run_subtask engine executor st peer ≡ (
          record st { status = last_status last; error = some (error_text last) },
          ok (record {
            subtask_id = st.id;
            peer_name = peer;
            status = last_status last;
            result = none;
            error = some (error_text last);
          }),
        )
  unfolding run_subtask fill_error
  run_subtask-exhausted st all = rounds_exhaust engine.max_retries 0 st none (omega arith) (λ j jl.
      subst (λ k. is_transient (call executor st.id peer st.description k) ≡ true) (omega arith)
        (all j jl))

  -- What a run that no foreign exception left says of its subtask: its id, the peer, and a status
  -- that is completed, failed or timed out, the same in the result and in the subtask.
  pub record IsSettled (st : SubTask) (ran : SubTask) (sr : SubTaskResult) : Type 0 where
    pub id : sr.subtask_id ≡ st.id
    pub peer_name : sr.peer_name ≡ peer
    pub settled : is_completed sr.status || is_failed sr.status ≡ true
    pub exclusive : is_completed sr.status && is_failed sr.status ≡ false
    pub agreed : ran.status ≡ sr.status

  rounds_settle :
      (rounds attempt : ℕ) (st : SubTask) (e : Option String) (sr : SubTaskResult)
      → (run_rounds engine executor rounds attempt st peer e).1 ≡ ok sr
      → IsSettled st (run_rounds engine executor rounds attempt st peer e).0 sr
  unfolding run_rounds fill_completed fill_error
  rounds_settle zero attempt st e sr h = ground arith
  rounds_settle (suc rounds) attempt st e sr h = ground (
    arith,
    rounds_settle rounds (attempt + 1) st (some (timed_out_text engine)) sr,
    rounds_settle rounds (attempt + 1) st
        (some (error_text (call executor st.id peer st.description attempt))) sr,
  )

  pub run_subtask-settles :
      (st : SubTask) (sr : SubTaskResult)
      → (run_subtask engine executor st peer).1 ≡ ok sr
      → IsSettled st (run_subtask engine executor st peer).0 sr
  unfolding run_subtask
  run_subtask-settles st sr h = rounds_settle (suc engine.max_retries) 0 st none sr h
