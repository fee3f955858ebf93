-- ===== src/Orchestrator/Order.antt =====
-- The order of the results of a sequential execution, and the round-robin choice of peers.
use hermes_a2a_v.Prelude.{
  sym, ℕ, zero, suc, ◌+◌, ◌<◌, ◌%◌, ◌≡◌, refl, ◌∙◌, ap, String, some, List, [], ◌∷◌, arith, ok,
  Result, raise, length, get_elem?,
}
use native.Mathlib.Nat.{add-zero, zero-add}
use hermes_a2a_v.Orchestrator.{
  SubTask, SubTaskResult, OrchestrationResult, Engine, Executor, sequential, execute, execute_by,
  execute_sequential, assign_peers, assign_from, nth_peer, finalize_status,
}
use hermes_a2a_v.Orchestrator.Execution.{Answers, Agrees, sequential_settles, IsDecided}

Answers-at :
    (assigned : List (SubTask × String)) (rs : List SubTaskResult) (i : ℕ) (a : SubTask × String)
    → Answers assigned rs
    → get_elem? assigned i ≡ some a
    → (r : SubTaskResult) × (get_elem? rs i ≡ some r)
      × (r.subtask_id ≡ a.0.id)
      × (r.peer_name ≡ a.1)
Answers-at [] rs i a h e = cc
Answers-at (b ∷ more) [] i a h e = absurd h
Answers-at (b ∷ more) (r ∷ rs) zero a h e =
    let same : b ≡ a = cc in
    (
      r,
      refl,
      h.0 ∙ ap (λ (x : SubTask × String). x.0.id) same,
      h.1 ∙ ap (λ (x : SubTask × String). x.1) same,
    )
Answers-at (b ∷ more) (r ∷ rs) (suc i) a h e = Answers-at more rs i a h.2 e

assign-at :
    (sts : List SubTask) (names : List String) (i j : ℕ) (st : SubTask)
    → get_elem? sts j ≡ some st
    → get_elem? (assign_from i names sts) j
      ≡ some (record st { assigned_peer = some (nth_peer names (i + j)) }, nth_peer names (i + j))
unfolding assign_from
assign-at [] names i j st e = cc
assign-at (x ∷ sts) names i zero st e = rw add-zero (let same : x ≡ st = cc in rw same)
assign-at (x ∷ sts) names i (suc j) st e =
    let shift : i + suc j ≡ i + 1 + j = omega arith in rw shift (assign-at sts names (i + 1) j st e)

get_elem?-below {ℓ} :
    {A : Type ℓ} (xs : List A) (i : ℕ) → i < length xs → (x : A) × (get_elem? xs i ≡ some x)
get_elem?-below [] i l = elim l [ ]
get_elem?-below (x ∷ xs) zero l = (x, refl)
get_elem?-below (x ∷ xs) (suc i) l = get_elem?-below xs i (omega arith)

nth_peer-at :
    (name : String) (names : List String) (i : ℕ)
    → get_elem? (name ∷ names) (i % length (name ∷ names)) ≡ some (nth_peer (name ∷ names) i)
unfolding nth_peer
nth_peer-at name names i =
    let (x, e) = get_elem?-below (name ∷ names) (i % length (name ∷ names)) (omega arith) in
    ground arith

-- In a result of a sequential execution with at least one peer, the i-th subtask has the i-th
-- result, which carries its id and the name of the peer at place i modulo the number of peers; and
-- the subtasks are left with the statuses of their results, one by one.
pub execute_in_order :
    (engine : Engine) (st : SubTask) (sts : List SubTask) (name : String) (names : List String)
    (executor : Executor) (res : OrchestrationResult) (i : ℕ) (s : SubTask)
    → (execute engine (st ∷ sts) (name ∷ names) executor sequential).1 ≡ ok res
    → get_elem? (st ∷ sts) i ≡ some s
    → ((r : SubTaskResult) × (get_elem? res.subtask_results i ≡ some r)
        × (r.subtask_id ≡ s.id)
        × (get_elem? (name ∷ names) (i % length (name ∷ names)) ≡ some r.peer_name))
      × Agrees (execute engine (st ∷ sts) (name ∷ names) executor sequential).0 res.subtask_results
unfolding execute execute_by finalize_status assign_peers
execute_in_order engine st sts name names executor res i s h e = (
  let (r, g, x, p) =
        Answers-at assigned res.subtask_results i _ settled.1
          (assign-at (st ∷ sts) (name ∷ names) 0 i s e) in
      (
        r,
        g,
        x,
        nth_peer-at name names i
            ∙ ap some (ap (nth_peer (name ∷ names)) (sym (zero-add i)) ∙ sym p),
      ),
  settled.2,
)
  where
    assigned : List (SubTask × String)
    assigned = assign_peers (st ∷ sts) (name ∷ names)

    from :
        (q : Result String (List SubTaskResult))
        → (execute_sequential engine executor assigned).1 ≡ q
        → (execute_sequential engine executor assigned).1 ≡ ok res.subtask_results
    from (raise exc) e = absurd (ground (arith, h))
    from (ok rs) e = ground (arith, h)

    settled :
        IsDecided res.subtask_results
        × Answers assigned res.subtask_results
        × Agrees (execute_sequential engine executor assigned).0 res.subtask_results
    settled =
        sequential_settles engine executor assigned res.subtask_results
          (from (execute_sequential engine executor assigned).1 refl)
