-- ===== src/Orchestrator/Execution.antt =====
-- Whole executions: one result for each subtask, in order and round-robin over the peers, and a
-- final status that the results justify.
use hermes_a2a_v.Prelude.{
  subst, ◌+◌, ◌<◌, ◌≡◌, refl, ◌↔◌, ◌||◌, ◌&&◌, String, true, false, List, [], ◌∷◌, arith, ok,
  Result, raise, length, map,
}
use hermes_a2a_v.Orchestrator.{
  execute_by, no_peer, SubTask, SubTaskResult, SubTaskStatus, Overall, OrchestrationResult, Engine,
  Executor, Strategy, sequential, concurrent, execute, execute_sequential, execute_parallel,
  assign_peers, completed_count, failed_count, finalize_status, start, is_completed, is_failed,
}
use hermes_a2a_v.Orchestrator.Attempts.{run_subtask-settles, IsSettled}

-- Every result is completed, or failed or timed out, and never both.
abbrev pub IsDecided : List SubTaskResult → Type 0
IsDecided [] = Unit
IsDecided (r ∷ rs) =
    (is_completed r.status || is_failed r.status ≡ true)
    × (is_completed r.status && is_failed r.status ≡ false)
    × IsDecided rs

-- The results belong to the assigned subtasks, one by one: their ids and their peers.
abbrev pub Answers : List (SubTask × String) → List SubTaskResult → Type 0
Answers [] [] = Unit
Answers (a ∷ more) (r ∷ rs) = (r.subtask_id ≡ a.0.id) × (r.peer_name ≡ a.1) × Answers more rs
Answers _ _ = ⊥

-- The subtasks have the statuses of the results, one by one.
abbrev pub Agrees : List SubTask → List SubTaskResult → Type 0
Agrees [] [] = Unit
Agrees (st ∷ sts) (r ∷ rs) = (st.status ≡ r.status) × Agrees sts rs
Agrees _ _ = ⊥

module _ (engine : Engine) (executor : Executor) where
  start-settles :
      (st : SubTask) (peer : String) (sr : SubTaskResult)
      → (start engine executor (st, peer)).1 ≡ ok sr
      → IsSettled engine executor peer st (start engine executor (st, peer)).0 sr
  unfolding start
  start-settles st peer sr h =
      let x =
        run_subtask-settles engine executor peer (record st { status = SubTaskStatus.running }) sr
          h in
      record {
        id = x.id;
        peer_name = x.peer_name;
        settled = x.settled;
        exclusive = x.exclusive;
        agreed = x.agreed;
      }

  pub sequential_settles :
      (assigned : List (SubTask × String)) (rs : List SubTaskResult)
      → (execute_sequential engine executor assigned).1 ≡ ok rs
      → IsDecided rs
        × Answers assigned rs
        × Agrees (execute_sequential engine executor assigned).0 rs
  unfolding execute_sequential
  sequential_settles [] rs h =
      let e : [] ≡ rs = cc in subst (λ l. IsDecided l × Answers [] l × Agrees [] l) e (tt, tt, tt)
  sequential_settles ((st, peer) ∷ rest) rs h =
      go (start engine executor (st, peer)).1 refl (execute_sequential engine executor rest).1 refl
        (sequential_settles rest)
    where
      ran : SubTask
      ran = (start engine executor (st, peer)).0

      go :
          (r : Result String SubTaskResult)
          → (start engine executor (st, peer)).1 ≡ r
          → (q : Result String (List SubTaskResult))
          → (execute_sequential engine executor rest).1 ≡ q
          → ((srs : List SubTaskResult)
              → (execute_sequential engine executor rest).1 ≡ ok srs
              → IsDecided srs
                × Answers rest srs
                × Agrees (execute_sequential engine executor rest).0 srs)
          → IsDecided rs
            × Answers ((st, peer) ∷ rest) rs
            × Agrees (execute_sequential engine executor ((st, peer) ∷ rest)).0 rs
      go (raise exc) e q e' ih = absurd (ground (arith, h))
      go (ok sr) e (raise exc) e' ih = absurd (ground (arith, h))
      go (ok sr) e (ok srs) e' ih =
          let x = start-settles st peer sr e in
          let (d, a, g) = ih srs e' in
          let cons : sr ∷ srs ≡ rs = ground (arith, h) in
          subst
            (λ l.
              IsDecided l
              × Answers ((st, peer) ∷ rest) l
              × Agrees (execute_sequential engine executor ((st, peer) ∷ rest)).0 l)
            cons
            (
              (x.settled, x.exclusive, d),
              (x.id, x.peer_name, a),
              rw (e, execute_sequential) (x.agreed, g),
            )

  parallel_settles :
      (assigned : List (SubTask × String)) → IsDecided (execute_parallel engine executor assigned).1
  unfolding execute_parallel
  parallel_settles [] = tt
  parallel_settles ((st, peer) ∷ rest) =
      go (start engine executor (st, peer)).1 refl (parallel_settles rest)
    where
      go :
          (r : Result String SubTaskResult)
          → (start engine executor (st, peer)).1 ≡ r
          → IsDecided (execute_parallel engine executor rest).1
          → IsDecided (execute_parallel engine executor ((st, peer) ∷ rest)).1
      go (raise exc) e ih = rw (e, execute_parallel) (refl, refl, ih)
      go (ok sr) e ih =
          let x = start-settles st peer sr e in
          rw (e, execute_parallel) (x.settled, x.exclusive, ih)

counts-IsDecided :
    (rs : List SubTaskResult) → IsDecided rs → completed_count rs + failed_count rs ≡ length rs
unfolding completed_count failed_count
counts-IsDecided [] d = refl
counts-IsDecided (r ∷ rs) (s, x, d) = ground (arith, counts-IsDecided rs d)

-- The status that the results justify: completed when none failed, failed when there are some and
-- none completed, and partial when some completed and some failed.
pub record IsJustified (res : OrchestrationResult) : Type 0 where
  pub counted :
      completed_count res.subtask_results + failed_count res.subtask_results
      ≡ length res.subtask_results
  pub completed : (res.status ≡ Overall.completed) ↔ (failed_count res.subtask_results ≡ 0)
  pub failed :
      (res.status ≡ Overall.failed)
      ↔ ((0 < failed_count res.subtask_results) × (completed_count res.subtask_results ≡ 0))
  pub partial :
      (res.status ≡ Overall.partial)
      ↔ ((0 < failed_count res.subtask_results) × (0 < completed_count res.subtask_results))

finalized-IsJustified :
    (rs : List SubTaskResult)
    → IsDecided rs
    → IsJustified (record { status = finalize_status rs; subtask_results = rs })
unfolding finalize_status
finalized-IsJustified rs d = ground (arith, counts-IsDecided rs d)

no_peers-IsDecided : (sts : List SubTask) → IsDecided (map no_peer sts)
unfolding no_peer
no_peers-IsDecided [] = tt
no_peers-IsDecided (st ∷ sts) = (refl, refl, no_peers-IsDecided sts)

no_peers-completed : (sts : List SubTask) → completed_count (map no_peer sts) ≡ 0
unfolding no_peer completed_count
no_peers-completed [] = refl
no_peers-completed (st ∷ sts) = ground (arith, no_peers-completed sts)

no_peers-IsJustified :
    (st : SubTask) (sts : List SubTask)
    → IsJustified (record { status = Overall.failed; subtask_results = map no_peer (st ∷ sts) })
no_peers-IsJustified st sts =
    let c = no_peers-completed (st ∷ sts) in
    let t = counts-IsDecided (map no_peer (st ∷ sts)) (no_peers-IsDecided (st ∷ sts)) in
    ground (arith, c, t)

assigned-IsJustified :
    (strategy : Strategy) (engine : Engine) (executor : Executor)
    (assigned : List (SubTask × String)) (res : OrchestrationResult)
    → (execute_by strategy engine executor assigned).1 ≡ ok res
    → IsJustified res
unfolding execute_by
assigned-IsJustified sequential engine executor assigned res h =
    go (execute_sequential engine executor assigned).1 refl
  where
    go :
        (q : Result String (List SubTaskResult))
        → (execute_sequential engine executor assigned).1 ≡ q
        → IsJustified res
    go (raise exc) e = absurd (ground (arith, h))
    go (ok rs) e =
        let j = finalized-IsJustified rs (sequential_settles engine executor assigned rs e).0 in
        let same : record { status = finalize_status rs; subtask_results = rs } ≡ res =
          ground (arith, h) in
        subst IsJustified same j
assigned-IsJustified concurrent engine executor assigned res h =
    let j =
      finalized-IsJustified (execute_parallel engine executor assigned).1
        (parallel_settles engine executor assigned) in
    let same : record {
      status = finalize_status (execute_parallel engine executor assigned).1;
      subtask_results = (execute_parallel engine executor assigned).1;
    }
        ≡ res =
      cc in
    subst IsJustified same j

-- Whatever the strategy, the peers, the executor and its failures: in a result of `execute`, every
-- subtask result counts as completed or as failed, and the final status is completed exactly when
-- none failed, failed exactly when some failed and none completed, and partial exactly when some
-- failed and some completed.
pub execute-IsJustified :
    (engine : Engine) (subtasks : List SubTask) (names : List String) (executor : Executor)
    (strategy : Strategy) (res : OrchestrationResult)
    → (execute engine subtasks names executor strategy).1 ≡ ok res
    → IsJustified res
unfolding execute
execute-IsJustified engine [] names executor strategy res h =
    let same : record { status = Overall.completed; subtask_results = [] } ≡ res = cc in
    subst IsJustified same (unfold completed_count failed_count in ground arith)
execute-IsJustified engine (st ∷ sts) [] executor strategy res h =
    let same : record { status = Overall.failed; subtask_results = map no_peer (st ∷ sts) } ≡ res =
      cc in
    subst IsJustified same (no_peers-IsJustified st sts)
execute-IsJustified engine (st ∷ sts) (name ∷ names) executor strategy res h =
    assigned-IsJustified strategy engine executor (assign_peers (st ∷ sts) (name ∷ names)) res h
