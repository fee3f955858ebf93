-- ===== src/SessionStore.antt =====
-- src/hermes_a2a/session_store.py: the SQLite table from contextId to sessionId. Readings of
-- CURRENT_TIMESTAMP and `datetime('now')` are arguments, in seconds. The proofs are in the child.
pub mod Laws
use mathlib.Core.Option
use hermes_a2a_v.Prelude.{
  ℕ, ◌+◌, ◌-◌, ◌*◌, String, Bool, true, false, not, Option, none, some, List, [], ◌∷◌, ltb,
  if◌then◌else◌, length, Result, ok, raise,
}
use hermes_a2a_v.Dict.{Dict, get, put, pop, string_eq}
use hermes_a2a_v.TaskStore.{
  StoreError, not_initialised, not_opened, Opening, no_connection, no_table, opens,
}

pub record SessionRow : Type 0 where
  pub session_id : String
  pub created_at : ℕ
  pub updated_at : ℕ

-- The table is on disk: closing the connection keeps it. `connected` is `_db is not None`.
pub record SessionStore : Type 0 where
  pub connected : Bool
  pub rows : Dict String SessionRow

-- The store as it is left, and what is raised
unfoldable pub init : Opening → SessionStore → SessionStore × Result StoreError (Unit {0})
init (no_connection e) s = (s, raise (not_opened e))
init (no_table e) s = (record s { connected = true }, raise (not_opened e))
init opens s = (record s { connected = true }, ok tt)

unfoldable pub close : SessionStore → SessionStore
close s = record s { connected = false }

-- `INSERT ... ON CONFLICT(context_id) DO UPDATE`
pub upserted : String → ℕ → Option SessionRow → SessionRow
upserted session_id now none = record {
  session_id = session_id;
  created_at = now;
  updated_at = now;
}
upserted session_id now (some row) = record row { session_id = session_id; updated_at = now }

unfoldable pub save : String → String → ℕ → SessionStore → Result StoreError SessionStore
unfolding upserted
save context_id session_id now s =
    if s.connected
    then ok (record s {
      rows = put context_id (upserted session_id now (get context_id s.rows)) s.rows;
    })
    else raise not_initialised

unfoldable pub get_session : String → SessionStore → Result StoreError (Option String)
get_session context_id s =
    if s.connected
    then ok (Option.map (λ r. r.session_id) (get context_id s.rows))
    else raise not_initialised

unfoldable pub delete : String → SessionStore → Result StoreError SessionStore
delete context_id s =
    if s.connected then ok (record s { rows = pop context_id s.rows }) else raise not_initialised

-- `updated_at < datetime('now', '-N hours')`
unfoldable pub is_stale : ℕ → ℕ → SessionRow → Bool
is_stale max_age_hours now r = ltb (r.updated_at + max_age_hours * 3600) now

-- The rows that a `DELETE ... WHERE` leaves
unfoldable pub keep_fresh : ℕ → ℕ → Dict String SessionRow → Dict String SessionRow
unfolding is_stale
keep_fresh max_age_hours now [] = []
keep_fresh max_age_hours now ((k, r) ∷ d) =
    let rest = keep_fresh max_age_hours now d in
    if is_stale max_age_hours now r then rest else (k, r) ∷ rest

-- `cleanup`: the store without the stale rows, and `cursor.rowcount`
unfoldable pub cleanup : ℕ → ℕ → SessionStore → Result StoreError (SessionStore × ℕ)
cleanup max_age_hours now s =
    let fresh = keep_fresh max_age_hours now s.rows in
    if s.connected
    then ok (record s { rows = fresh }, length s.rows - length fresh)
    else raise not_initialised

-- The dict comprehension of `load_all`
unfoldable pub ids_of : Dict String SessionRow → Dict String String
ids_of [] = []
ids_of ((k, r) ∷ d) = (k, r.session_id) ∷ ids_of d

unfoldable pub load_all : SessionStore → Result StoreError (Dict String String)
unfolding ids_of
load_all s = if s.connected then ok (ids_of s.rows) else raise not_initialised
