-- ===== src/TaskStore.antt =====
-- src/hermes_a2a/task_store.py: the SQLite table of tasks. A row's `data` column holds the dict
-- itself, which `json.dumps` and `json.loads` carry over; CURRENT_TIMESTAMP is an argument, in
-- seconds. The proofs are in the child.
pub mod Laws
use Prim.Native.Char.{Char, code}
use mathlib.Core.Option
use hermes_a2a_v.Prelude.{
  ◌≡◌, refl, ◌≡◌, ℕ, ◌+◌, ◌-◌, ◌*◌, String, Bool, true, false, ◌&&◌, Option, none, some, List, [],
  ◌∷◌, map, leb, ◌==◌, str_eq, if◌then◌else◌, Result, ok, raise,
}
use hermes_a2a_v.Prelude.Int.{ℤ, pos, neg}
use hermes_a2a_v.Dict.{Dict, get, put, pop, string_eq}
use hermes_a2a_v.Text.{strip}

-- `status["state"]` of a task dict: absent, a text, or an `int`.
pub data StateField : Type 0 where
  no_state : StateField
  text : String → StateField
  number : ℤ → StateField

-- `task["status"]`: absent, a dict, or something else.
pub data StatusField : Type 0 where
  no_status : StatusField
  dict : StateField → StatusField
  other : String → StatusField

-- A task dict, by the keys that the gateway reads and writes. A missing `contextId` or `response` is
-- `none`.
pub record TaskDict : Type 0 where
  pub id : String
  pub context_id : Option String
  pub status : StatusField
  pub response : Option String

pub record TaskRow : Type 0 where
  pub context_id : Option String
  pub state : ℤ
  pub data_column : TaskDict
  pub created_at : ℕ
  pub updated_at : ℕ

-- The table is on disk: closing the connection keeps it. `connected` is `_db is not None`.
pub record TaskStore : Type 0 where
  pub connected : Bool
  pub rows : Dict String TaskRow

-- "Store not initialised" (AssertionError), or what the opening of a database raised
pub data StoreError : Type 0 where
  not_initialised : StoreError
  not_opened : String → StoreError

-- What `init` meets: an exception of `mkdir` or of `aiosqlite.connect`, an exception of the statements
-- that follow, or none
pub data Opening : Type 0 where
  no_connection : String → Opening
  no_table : String → Opening
  opens : Opening

-- The store as it is left, and what is raised
unfoldable pub init : Opening → TaskStore → TaskStore × Result StoreError (Unit {0})
init (no_connection e) s = (s, raise (not_opened e))
init (no_table e) s = (record s { connected = true }, raise (not_opened e))
init opens s = (record s { connected = true }, ok tt)

unfoldable pub close : TaskStore → TaskStore
close s = record s { connected = false }

-- The digits of `int(text)`, with single underscores between them
int_digits : ℕ → Bool → String → Option ℕ
int_digits acc after_digit String.[] = if after_digit then some acc else none
int_digits acc after_digit (String.◌∷◌ c s) =
    let n = code c in
    let more = int_digits (acc * 10 + (n - b'0')) true s in
    let skip = int_digits acc false s in
    if leb b'0' n && leb n b'9' then more else if n == b'_' && after_digit then skip else none

signed : String → Option ℤ
unfolding int_digits
signed String.[] = none
signed (String.◌∷◌ c s) =
    if code c == b'-'
    then Option.map neg (int_digits 0 false s)
    else if code c == b'+'
    then Option.map pos (int_digits 0 false s)
    else Option.map pos (int_digits 0 false (String.◌∷◌ c s))

-- `int(text)`, over ASCII digits; `none` is a ValueError
unfoldable pub int_of : String → Option ℤ
unfolding signed strip
int_of t = signed (strip t)

state_number : StateField → ℤ
unfolding int_of
state_number no_state = pos 1
state_number (number n) = n
state_number (text t) = elim (int_of t) [ none ↦ pos 1 | some n ↦ n ]

-- The `state` column of a task; 1 where the dict gives no number
unfoldable pub state_column : StatusField → ℤ
unfolding state_number
state_column no_status = pos 1
state_column (other v) = pos 1
state_column (dict state) = state_number state

unfoldable pub row_of : TaskDict → ℕ → TaskRow
unfolding state_column
row_of task now = record {
  context_id = task.context_id;
  state = state_column task.status;
  data_column = task;
  created_at = now;
  updated_at = now;
}

-- `INSERT OR REPLACE`: the old row is deleted, and the new one is the last. Its `created_at` is the
-- column's default.
unfoldable pub save : TaskDict → ℕ → TaskStore → Result StoreError TaskStore
unfolding row_of
save task now s =
    if s.connected
    then ok (record s { rows = put task.id (row_of task now) (pop task.id s.rows) })
    else raise not_initialised

unfoldable pub get_task : String → TaskStore → Result StoreError (Option TaskDict)
get_task task_id s =
    if s.connected
    then ok (Option.map (λ r. r.data_column) (get task_id s.rows))
    else raise not_initialised

unfoldable pub delete : String → TaskStore → Result StoreError TaskStore
delete task_id s =
    if s.connected then ok (record s { rows = pop task_id s.rows }) else raise not_initialised

-- `ORDER BY updated_at DESC`; rows of one second keep the table's order
pub insert_row : TaskRow → List TaskRow → List TaskRow
insert_row r [] = r ∷ []
insert_row r (x ∷ xs) =
    let later = insert_row r xs in if leb x.updated_at r.updated_at then r ∷ x ∷ xs else x ∷ later

unfoldable pub newest_first : List TaskRow → List TaskRow
unfolding insert_row
newest_first [] = []
newest_first (r ∷ rs) = insert_row r (newest_first rs)

unfoldable pub list_tasks : TaskStore → Result StoreError (List TaskDict)
list_tasks s =
    if s.connected
    then ok (map (λ r. r.data_column) (newest_first (map (λ e. e.1) s.rows)))
    else raise not_initialised

int_of_test : int_of " -1_20 " ≡ some (neg 120)
unfolding int_of
int_of_test = refl
