-- ===== src/SessionStore/Laws.antt =====
-- What the session table gives back after its operations, over tables with a primary key.
use mathlib.Core.Option
use hermes_a2a_v.Prelude.{
  leb, ◌*◌, inl, inr, ◌∙◌, ap, ◌∙◌, inr, inl, ℕ, ◌+◌, ◌-◌, ◌≤◌, ◌≡◌, refl, String, true, Option,
  none, some, [], ◌∷◌, arith, ok, length, eq_iff, str_eq, if◌then◌else◌, Bool-cases,
}
use hermes_a2a_v.Dict.{Dict, get, put, IsKeyed, get-put, get-put_self, put-IsKeyed, string_eq}
use hermes_a2a_v.SessionStore.{
  upserted, SessionRow, SessionStore, save, get_session, cleanup, keep_fresh, is_stale, load_all,
  ids_of,
}

pub length-keep_fresh-le :
    (h now : ℕ) (d : Dict String SessionRow) → length (keep_fresh h now d) ≤ length d
unfolding keep_fresh
length-keep_fresh-le h now [] = omega arith
length-keep_fresh-le h now (r ∷ d) = ground (arith, length-keep_fresh-le h now d)

-- A row that was updated within the last `h` hours
abbrev pub fresh_or_none : ℕ → ℕ → Option SessionRow → Option SessionRow
fresh_or_none h now none = none
fresh_or_none h now (some r) = if leb now (r.updated_at + h * 3600) then some r else none

pub get-keep_fresh :
    (h now : ℕ) (k : String) (d : Dict String SessionRow)
    → IsKeyed d
    → get k (keep_fresh h now d) ≡ fresh_or_none h now (get k d)
unfolding keep_fresh get
get-keep_fresh h now k [] q = refl
get-keep_fresh h now k ((j, r) ∷ d) q =
    ground (arith, q.0, get-keep_fresh h now k d q.1, eq_iff j k)

get-ids_of :
    (k : String) (d : Dict String SessionRow)
    → get k (ids_of d) ≡ Option.map (λ r. r.session_id) (get k d)
unfolding ids_of get
get-ids_of k [] = refl
get-ids_of k ((j, r) ∷ d) = ground (arith, get-ids_of k d)

keep_fresh-IsKeyed :
    (h now : ℕ) (d : Dict String SessionRow) → IsKeyed d → IsKeyed (keep_fresh h now d)
unfolding keep_fresh
keep_fresh-IsKeyed h now [] q = tt
keep_fresh-IsKeyed h now ((j, r) ∷ d) q = elim (Bool-cases (is_stale h now r)) [
  | inl stale ↦ rw stale (keep_fresh-IsKeyed h now d q.1)
  | inr kept ↦
      rw kept (
        get-keep_fresh h now j d q.1 ∙ ap (fresh_or_none h now) q.0,
        keep_fresh-IsKeyed h now d q.1,
      )
]

abbrev pub created_or : ℕ → Option SessionRow → ℕ
created_or now none = now
created_or now (some row) = row.created_at

upserted-fields :
    (sid : String) (now : ℕ) (o : Option SessionRow)
    → upserted sid now o
      ≡ record { session_id = sid; created_at = created_or now o; updated_at = now }
unfolding upserted
upserted-fields sid now none = refl
upserted-fields sid now (some row) = refl

-- Saving a session in an open store makes `get` return it for its context, changes no other
-- context's answer, keeps the primary key, and keeps the time at which a known context was created.
pub save-get_session :
    (s : SessionStore) (c sid : String) (now : ℕ)
    → s.connected ≡ true
    → IsKeyed s.rows
    → (s' : SessionStore) × (save c sid now s ≡ ok s')
      × IsKeyed s'.rows
      × ((k : String) → get_session k s' ≡ (if str_eq c k then ok (some sid) else get_session k s))
      × (get c s'.rows
          ≡ some (record {
            session_id = sid;
            created_at = created_or now (get c s.rows);
            updated_at = now;
          }))
unfolding save get_session
save-get_session s c sid now open_store keyed =
    let row = upserted sid now (get c s.rows) in
    (
      record s { rows = put c row s.rows },
      ground arith,
      put-IsKeyed c row s.rows keyed,
      (λ k. ground (arith, get-put c k row s.rows)),
      get-put_self c row s.rows ∙ ap some (upserted-fields sid now (get c s.rows)),
    )

-- The cleanup of an open store removes exactly the sessions that have not been updated for the given
-- number of hours, reports how many they were, and keeps the primary key.
pub cleanup_exact :
    (s : SessionStore) (h now : ℕ)
    → s.connected ≡ true
    → IsKeyed s.rows
    → (s' : SessionStore) × (n : ℕ) × (cleanup h now s ≡ ok (s', n))
      × ((k : String) → get k s'.rows ≡ fresh_or_none h now (get k s.rows))
      × (length s'.rows + n ≡ length s.rows)
      × IsKeyed s'.rows
unfolding cleanup
cleanup_exact s h now open_store keyed = (
  record s { rows = keep_fresh h now s.rows },
  length s.rows - length (keep_fresh h now s.rows),
  rw open_store refl,
  (λ k. get-keep_fresh h now k s.rows keyed),
  omega (arith, length-keep_fresh-le h now s.rows),
  keep_fresh-IsKeyed h now s.rows keyed,
)

-- `load_all` of an open store returns a dict that answers every context as `get` does.
pub load_all-get :
    (s : SessionStore)
    → s.connected ≡ true
    → (d : Dict String String) × (load_all s ≡ ok d)
      × ((k : String) → get_session k s ≡ ok (get k d))
unfolding load_all get_session
load_all-get s open_store = (ids_of s.rows, ground arith, λ k. ground (arith, get-ids_of k s.rows))
