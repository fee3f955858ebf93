-- ===== src/Server/Startup.antt =====
-- Starting and stopping the gateway.
use mathlib.Core.Option
use hermes_a2a_v.Prelude.{
  sym, Result, ℕ, ◌+◌, ◌≡◌, refl, ap, String, Bool, true, none, some, [], ◌∷◌, arith, length, ok,
  raise, length,
}
use hermes_a2a_v.Dict.{Dict, get, string_eq, IsKeyed}
use hermes_a2a_v.TaskStore
use hermes_a2a_v.TaskStore.{TaskStore, Opening, opens, no_connection, no_table, not_opened}
use hermes_a2a_v.SessionStore
use hermes_a2a_v.SessionStore.{SessionStore, SessionRow, keep_fresh, ids_of, is_stale}
use hermes_a2a_v.SessionStore.Laws.{length-keep_fresh-le, fresh_or_none, get-keep_fresh}
use hermes_a2a_v.A2aHandler.{get_session, restore_sessions}
use hermes_a2a_v.Config.{GatewayConfig}
use hermes_a2a_v.PushNotifier
use hermes_a2a_v.PeerManager
use hermes_a2a_v.App.{reply, App, store_error}
use hermes_a2a_v.Server.{Disk, create_app, startup, shutdown}
use hermes_a2a_v.Server.Endpoints.{Health, health}

-- What a stopped or running process leaves on disk
unfoldable pub disk_of : App → Disk
disk_of app = record {
  task_rows = app.gateway.task_store.rows;
  session_rows = elim app.gateway.session_store [ none ↦ [] | some store ↦ store.rows ];
}

length-ids_of : (d : Dict String SessionRow) → length (ids_of d) ≡ length d
unfolding ids_of
length-ids_of [] = refl
length-ids_of (e ∷ d) = ap ℕ.suc (length-ids_of d)

-- A store that cannot be opened stops the start with its error.
pub startup-refused :
    (sessions : Opening) (now now_s task : ℕ) (error : String) (app : App)
    → (startup (no_connection error) sessions now now_s task app
        ≡ raise (store_error (not_opened error)))
      × (startup (no_table error) sessions now now_s task app
          ≡ raise (store_error (not_opened error)))
unfolding startup TaskStore.init
startup-refused sessions now now_s task error app = (refl, refl)

-- When a new process opens both stores without an error, on a table of sessions with a primary key, the
-- start succeeds and reports how many stale sessions it deleted. The table is then without the
-- sessions that were not updated for 24 hours. But the handler's own dict, whose length /health
-- reports, was filled before: it holds every session that was on disk, the deleted ones included.
pub startup-sessions :
    (cfg : GatewayConfig) (now now_s task : ℕ) (disk : Disk)
    → IsKeyed disk.session_rows
    → (app : App) × (deleted : ℕ) × (store : SessionStore) × (startup opens opens now now_s task
          (create_app cfg disk)
        ≡ ok (app, deleted))
      × (app.gateway.session_store ≡ some store)
      × ((c : String) → get c store.rows ≡ fresh_or_none 24 now_s (get c disk.session_rows))
      × (length store.rows + deleted ≡ length disk.session_rows)
      × ((check : Result String Bool) (latency later : ℕ)
          → (h : Health) × (health check latency later app ≡ reply 200 h)
            × (h.active_sessions ≡ length disk.session_rows))
unfolding startup create_app restore_sessions SessionStore.cleanup SessionStore.init TaskStore.init
    SessionStore.load_all health
startup-sessions cfg now now_s task disk keyed = (
  _,
  _,
  record { connected = true; rows = keep_fresh 24 now_s disk.session_rows },
  refl,
  refl,
  (λ c. get-keep_fresh 24 now_s c disk.session_rows keyed),
  omega (arith, length-keep_fresh-le 24 now_s disk.session_rows),
  (λ check latency later. (_, refl, length-ids_of disk.session_rows)),
)

-- A gateway whose stores are open, with a table of sessions that has a primary key, is shut down and
-- started again on what it left on disk, and the stores open without an error: the start succeeds, the
-- task store gives the same answers as before, and the handler finds for a context the session it had,
-- unless that was not updated for 24 hours. Push configs, and the peers and circuit breakers of the
-- running gateway, are forgotten.
pub restart_keeps :
    (cfg : GatewayConfig) (now now_s task : ℕ) (app : App) (store : SessionStore)
    → app.gateway.session_store ≡ some store
    → app.gateway.task_store.connected ≡ true
    → IsKeyed store.rows
    → (app' : App) × (deleted : ℕ) × (startup opens opens now now_s task
          (create_app cfg (disk_of (shutdown app)))
        ≡ ok (app', deleted))
      × (app'.gateway.task_store ≡ app.gateway.task_store)
      × ((c : String)
          → (get_session c app'.gateway).0
            ≡ ok (Option.map (λ r. r.session_id) (fresh_or_none 24 now_s (get c store.rows))))
      × (app'.gateway.push_store ≡ PushNotifier.empty)
      × (app'.peer_manager ≡ PeerManager.init cfg.peers)
unfolding startup create_app restore_sessions SessionStore.cleanup SessionStore.init TaskStore.init
    SessionStore.load_all disk_of shutdown get_session SessionStore.get_session SessionStore.close
    TaskStore.close
restart_keeps cfg now now_s task app store some_store connected keyed = rw some_store (
  _,
  _,
  refl,
  ap (λ b. record app.gateway.task_store { connected = b }) (sym connected),
  (λ c.
      ap (λ o. ok (Option.map (λ r. r.session_id) o)) (get-keep_fresh 24 now_s c store.rows keyed)),
  refl,
  refl,
)
