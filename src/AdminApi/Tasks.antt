-- ===== src/AdminApi/Tasks.antt =====
-- The routes of src/hermes_a2a/admin_api.py over tasks.
use hermes_a2a_v.Prelude.{
  ◌>>=◌, ℕ, ◌-◌, suc, zero, String, Bool, false, Option, none, some, List, [], ◌∷◌, str_eq, select,
  length, Result, ok,
}
use hermes_a2a_v.Prelude.Int.{ℤ, pos, negsuc}
use hermes_a2a_v.Text.{◌⧺◌, str_nat}
use hermes_a2a_v.TaskStore
use hermes_a2a_v.TaskStore.{
  TaskStore, TaskDict, StateField, no_state, text, number, StatusField, no_status, dict, other,
  int_of,
}
use hermes_a2a_v.App.{Response, reply, refuse, AppError, from_store}

-- `str(n)`
unfoldable pub str_int : ℤ → String
str_int (pos n) = str_nat n
str_int (negsuc n) = "-" ⧺ str_nat (suc n)

-- `str(task_status.get("state"))`; `absent` is the text for a missing key
unfoldable pub state_text : String → StateField → String
unfolding str_int
state_text absent no_state = absent
state_text absent (text t) = t
state_text absent (number n) = str_int n

-- `str(state)` of a task, by its `status`; a missing status counts as an empty dict
unfoldable pub status_text : String → StatusField → String
unfolding state_text
status_text absent no_status = absent
status_text absent (dict state) = state_text absent state
status_text absent (other v) = v

-- The query parameters of GET /admin/tasks
pub record TaskQuery : Type 0 where
  pub status : Option String
  pub context_id : Option String
  pub limit : Option String

-- Python's `None` is no text's state, but its `str` is "None".
unfoldable pub has_status : String → TaskDict → Bool
unfolding status_text
has_status status_filter t = str_eq (status_text "None" t.status) status_filter

same_context : String → Option String → Bool
same_context context_id none = false
same_context context_id (some c) = str_eq c context_id

unfoldable pub in_context : String → TaskDict → Bool
unfolding same_context
in_context context_id t = same_context context_id t.context_id

unfoldable pub filter_by {ℓ} : {A : Type ℓ} → (String → A → Bool) → Option String → List A → List A
filter_by p none xs = xs
filter_by p (some value) xs = select (p value) xs

-- `xs[:n]`, for `n` not negative
unfoldable pub take {ℓ} : {A : Type ℓ} → ℕ → List A → List A
take zero xs = []
take (suc n) [] = []
take (suc n) (x ∷ xs) = x ∷ take n xs

-- `xs[:n]`
unfoldable pub slice {ℓ} : {A : Type ℓ} → ℤ → List A → List A
unfolding take
slice (pos n) xs = take n xs
slice (negsuc n) xs = take (length xs - suc n) xs

-- A limit that `int` does not read is ignored.
unfoldable pub limited {ℓ} : {A : Type ℓ} → Option String → List A → List A
unfolding slice int_of
limited none xs = xs
limited (some limit_str) xs = elim (int_of limit_str) [ none ↦ xs | some n ↦ slice n xs ]

-- The two filters, one after the other, and the limit
unfoldable pub filtered : TaskQuery → List TaskDict → List TaskDict
unfolding filter_by has_status in_context limited
filtered query tasks =
    limited query.limit
      (filter_by in_context query.context_id (filter_by has_status query.status tasks))

-- GET /admin/tasks: the tasks and their count
unfoldable pub tasks_list : TaskQuery → TaskStore → Result AppError (Response (List TaskDict × ℕ))
unfolding filtered
tasks_list query ts = do
  tasks ← from_store (TaskStore.list_tasks ts)
  ok (reply 200 (filtered query tasks, length (filtered query tasks)))

delete_found : String → TaskStore → Option TaskDict → Result AppError (TaskStore × Response String)
delete_found task_id ts none = ok (ts, refuse 404 ("Task '" ⧺ task_id ⧺ "' not found"))
delete_found task_id ts (some existing) = do
  ts' ← from_store (TaskStore.delete task_id ts)
  ok (ts', reply 200 ("Task '" ⧺ task_id ⧺ "' deleted"))

-- DELETE /admin/tasks/{task_id}
unfoldable pub tasks_delete : String → TaskStore → Result AppError (TaskStore × Response String)
unfolding delete_found
tasks_delete task_id ts = do
  existing ← from_store (TaskStore.get_task task_id ts)
  delete_found task_id ts existing
