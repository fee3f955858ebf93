-- ===== src/TaskStore/Laws.antt =====
-- What the task table gives back after its operations, and the order of its listing.
use mathlib.Core.List.{Perm}
use mathlib.Core.List.Perm
use hermes_a2a_v.Prelude.{
  All, ◌≡◌, ◌≤◌, inl, inr, ℕ, String, true, none, some, List, [], ◌∷◌, map, arith, ok, str_eq,
  if◌then◌else◌, Bool-cases, leb,
}
use hermes_a2a_v.Dict.{put, pop, get-put, get-pop, string_eq}
use hermes_a2a_v.TaskStore.{
  TaskDict, TaskRow, TaskStore, save, get_task, delete, row_of, list_tasks, newest_first,
  insert_row,
}

-- Saving a task in an open store makes `get` return that very dict under its id and changes no other
-- id's answer; deleting an id afterwards takes it away and changes no other id's answer.
pub save_task :
    (s : TaskStore) (t : TaskDict) (now : ℕ)
    → s.connected ≡ true
    → (s' : TaskStore) × (save t now s ≡ ok s')
      × (s'.connected ≡ true)
      × ((k : String) → get_task k s' ≡ (if str_eq t.id k then ok (some t) else get_task k s))
      × ((d : String)
          → (s'' : TaskStore) × (delete d s' ≡ ok s'')
            × ((k : String) → get_task k s'' ≡ (if str_eq d k then ok none else get_task k s')))
unfolding save get_task delete row_of
save_task s t now open_store =
    let rows = put t.id (row_of t now) (pop t.id s.rows) in
    (
      record s { rows = rows },
      ground arith,
      open_store,
      (λ k. ground (arith, get-put t.id k (row_of t now) (pop t.id s.rows), get-pop t.id k s.rows)),
      (λ d. (record s { rows = pop d rows }, ground arith, λ k. ground (arith, get-pop d k rows))),
    )

-- Every row is at least as new as those after it.
abbrev pub IsNewestFirst : List TaskRow → Type 0
IsNewestFirst [] = Unit
IsNewestFirst (r ∷ rs) = All (λ (x : TaskRow). x.updated_at ≤ r.updated_at) rs × IsNewestFirst rs

insert_row-perm : (r : TaskRow) (l : List TaskRow) → Perm (insert_row r l) (r ∷ l)
unfolding insert_row
insert_row-perm r [] = Perm.refl (r ∷ [])
insert_row-perm r (x ∷ l) = elim (Bool-cases (leb x.updated_at r.updated_at)) [
  | inl newer ↦ rw newer (Perm.refl (r ∷ x ∷ l))
  | inr older ↦ rw older (Perm.trans (Perm.cons x (insert_row-perm r l)) (Perm.swap r x l))
]

newest_first-perm : (l : List TaskRow) → Perm (newest_first l) l
unfolding newest_first
newest_first-perm [] = Perm.refl []
newest_first-perm (r ∷ l) =
    Perm.trans (insert_row-perm r (newest_first l)) (Perm.cons r (newest_first-perm l))

All-insert_row :
    (n : ℕ) (r : TaskRow) (l : List TaskRow)
    → r.updated_at ≤ n
    → All (λ (x : TaskRow). x.updated_at ≤ n) l
    → All (λ (x : TaskRow). x.updated_at ≤ n) (insert_row r l)
unfolding insert_row
All-insert_row n r [] h a = (h, tt)
All-insert_row n r (x ∷ l) h a = elim (Bool-cases (leb x.updated_at r.updated_at)) [
  | inl newer ↦ rw newer (h, a)
  | inr older ↦ rw older (a.0, All-insert_row n r l h a.1)
]

All-weaken :
    (m n : ℕ) (l : List TaskRow)
    → m ≤ n
    → All (λ (x : TaskRow). x.updated_at ≤ m) l
    → All (λ (x : TaskRow). x.updated_at ≤ n) l
All-weaken m n [] h a = tt
All-weaken m n (x ∷ l) h a = (omega arith, All-weaken m n l h a.1)

insert_row-IsNewestFirst :
    (r : TaskRow) (l : List TaskRow) → IsNewestFirst l → IsNewestFirst (insert_row r l)
unfolding insert_row
insert_row-IsNewestFirst r [] h = (tt, tt)
insert_row-IsNewestFirst r (x ∷ l) h = elim (Bool-cases (leb x.updated_at r.updated_at)) [
  | inl newer ↦
      let le : x.updated_at ≤ r.updated_at = ground arith in
      rw newer ((le, All-weaken x.updated_at r.updated_at l le h.0), h)
  | inr older ↦
      let le : r.updated_at ≤ x.updated_at = ground arith in
      rw older (All-insert_row x.updated_at r l le h.0, insert_row-IsNewestFirst r l h.1)
]

newest_first-IsNewestFirst : (l : List TaskRow) → IsNewestFirst (newest_first l)
unfolding newest_first
newest_first-IsNewestFirst [] = tt
newest_first-IsNewestFirst (r ∷ l) =
    insert_row-IsNewestFirst r (newest_first l) (newest_first-IsNewestFirst l)

-- The listing of an open store is the dicts of all its rows, each as often as it is stored, with the
-- most recently updated first.
pub list_tasks-IsNewestFirst :
    (s : TaskStore)
    → s.connected ≡ true
    → (rows : List TaskRow) × (list_tasks s ≡ ok (map (λ r. r.data_column) rows))
      × Perm rows (map (λ e. e.1) s.rows)
      × IsNewestFirst rows
unfolding list_tasks
list_tasks-IsNewestFirst s open_store = (
  newest_first (map (λ e. e.1) s.rows),
  rw open_store,
  newest_first-perm _,
  newest_first-IsNewestFirst _,
)
