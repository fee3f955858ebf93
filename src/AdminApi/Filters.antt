-- ===== src/AdminApi/Filters.antt =====
-- What GET and DELETE /admin/tasks give, against the table of tasks.
use hermes_a2a_v.Prelude.{
  suc, ◌+◌, ◌-◌, sym, ℕ, ◌≡◌, refl, ap, ◌∙◌, String, Bool, true, ◌&&◌, Option, none, some, List, [],
  ◌∷◌, str_eq, if◌then◌else◌, arith, select, length, count_p, min, ok,
}
use hermes_a2a_v.Prelude.Int.{ℤ, pos, negsuc}
use hermes_a2a_v.Dict.{get-pop_self, get, pop, string_eq, get-pop}
use hermes_a2a_v.Text.{◌⧺◌}
use hermes_a2a_v.TaskStore
use hermes_a2a_v.TaskStore.{TaskStore, TaskDict, TaskRow, int_of}
use hermes_a2a_v.AdminApi.Tasks.{
  TaskQuery, has_status, in_context, filter_by, take, slice, limited, filtered, tasks_list,
  tasks_delete,
}
use hermes_a2a_v.App.{reply, refuse}

-- Whether a task has the status and the context that a query asks for.
passes {ℓ} : {A : Type ℓ} → (String → A → Bool) → Option String → A → Bool
passes p none x = true
passes p (some value) x = p value x

-- One test for both filters
unfoldable pub answers : TaskQuery → TaskDict → Bool
unfolding passes
answers query t = passes has_status query.status t && passes in_context query.context_id t

module _ {ℓ} {A : Type ℓ} where
  select-true : (xs : List A) → select (λ x. true) xs ≡ xs
  select-true [] = refl
  select-true (x ∷ xs) = ap (◌∷◌ x) (select-true xs)

  filter_by-passes :
      (p : String → A → Bool) (o : Option String) (xs : List A)
      → filter_by p o xs ≡ select (passes p o) xs
  unfolding filter_by passes
  filter_by-passes p none xs = sym (select-true xs)
  filter_by-passes p (some value) xs = refl

  select-select :
      (p q : A → Bool) (xs : List A) → select q (select p xs) ≡ select (λ x. p x && q x) xs
  select-select p q [] = refl
  select-select p q (x ∷ xs) = ground (arith, select-select p q xs)

  length-select : (p : A → Bool) (xs : List A) → length (select p xs) ≡ count_p p xs
  length-select p [] = refl
  length-select p (x ∷ xs) = ground (arith, length-select p xs)

  length-take : (n : ℕ) (xs : List A) → length (take n xs) ≡ min n (length xs)
  unfolding take
  length-take ℕ.zero xs = omega arith
  length-take (ℕ.suc n) [] = omega arith
  length-take (ℕ.suc n) (x ∷ xs) = omega (arith, length-take n xs)

-- The length of `xs[:n]`, for a list of that length
unfoldable pub slice_length : ℤ → ℕ → ℕ
slice_length (pos n) len = min n len
slice_length (negsuc n) len = len - (n + 1)

unfoldable pub limited_length : Option String → ℕ → ℕ
unfolding slice_length
limited_length none len = len
limited_length (some t) len = elim (int_of t) [ none ↦ len | some n ↦ slice_length n len ]

length-slice {ℓ} :
    {A : Type ℓ} (n : ℤ) (xs : List A) → length (slice n xs) ≡ slice_length n (length xs)
unfolding slice slice_length
length-slice (pos n) xs = length-take n xs
length-slice (negsuc n) xs = length-take (length xs - suc n) xs ∙ omega arith

length-limited {ℓ} :
    {A : Type ℓ} (limit : Option String) (xs : List A)
    → length (limited limit xs) ≡ limited_length limit (length xs)
unfolding limited limited_length
length-limited none xs = refl
length-limited (some t) xs = go (int_of t)
  where
    go :
        (o : Option ℤ)
        → length (elim o [ none ↦ xs | some n ↦ slice n xs ])
          ≡ elim o [ none ↦ length xs | some n ↦ slice_length n (length xs) ]
    go none = refl
    go (some n) = length-slice n xs

-- For the tasks that the store lists, the answer is 200 with those that have the status and the context
-- that the query asks for, in the store's order and cut by the limit, and with their number, which is
-- the number of all such tasks cut by the limit: a limit n that is not negative leaves at most n, a
-- limit -n leaves out n, and a limit that is no number leaves all.
pub tasks_list_lem :
    (query : TaskQuery) (ts : TaskStore) (tasks : List TaskDict)
    → TaskStore.list_tasks ts ≡ ok tasks
    → tasks_list query ts
      ≡ ok (
          reply 200 (
            limited query.limit (select (answers query) tasks),
            limited_length query.limit (count_p (answers query) tasks),
          ))
unfolding tasks_list filtered answers
tasks_list_lem query ts tasks listed =
    rw
      (
        listed,
        length-limited query.limit,
        filter_by-passes has_status query.status tasks,
        filter_by-passes in_context query.context_id,
        select-select (passes has_status query.status) (passes in_context query.context_id) tasks,
        length-select (answers query) tasks,
      )
      refl

-- Deleting a stored task answers with 200; then no task is stored under its id, every other task is
-- stored as before, and deleting it again answers with 404 and changes nothing.
pub tasks_delete_twice :
    (task_id : String) (ts : TaskStore) (row : TaskRow)
    → ts.connected ≡ true
    → get task_id ts.rows ≡ some row
    → let deleted : TaskStore = record ts { rows = pop task_id ts.rows } in
      (tasks_delete task_id ts ≡ ok (deleted, reply 200 ("Task '" ⧺ task_id ⧺ "' deleted")))
      × (tasks_delete task_id deleted
          ≡ ok (deleted, refuse 404 ("Task '" ⧺ task_id ⧺ "' not found")))
      × ((other : String)
          → TaskStore.get_task other deleted
            ≡ (if str_eq task_id other then ok none else TaskStore.get_task other ts))
unfolding tasks_delete TaskStore.get_task TaskStore.delete
tasks_delete_twice task_id ts row connected stored = (
  rw (connected, stored) refl,
  rw (connected, get-pop_self task_id ts.rows) refl,
  λ other. rw (connected, get-pop task_id other ts.rows) (ground arith),
)
