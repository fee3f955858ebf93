-- ===== src/A2aHandler/Sessions.antt =====
-- The parts of the handler that requests share: sessions, metrics and deliveries.
use mathlib.Core.Option
use hermes_a2a_v.Prelude.{ℕ, ◌+◌, String, Option, none, some, ◌++◌, Result, ok, raise}
use hermes_a2a_v.Dict.{get, put, string_eq}
use hermes_a2a_v.SessionStore
use hermes_a2a_v.SessionStore.{SessionStore}
use hermes_a2a_v.PushNotifier
use hermes_a2a_v.PushNotifier.{
  PushNotificationStore, Notification, PostOutcome, Delivered, Config, default_notifier,
}
use hermes_a2a_v.A2aHandler.Monad.{Gateway, M, HandlerError, store_failed}

-- `_get_session`, with or without a session store
unfoldable pub session_from :
    String → Option SessionStore → Gateway → Result HandlerError (Option String) × Gateway
session_from context_id none g = (ok (get context_id g.sessions), g)
session_from context_id (some store) g = elim (SessionStore.get_session context_id store) [
  | ok s ↦ (ok s, g)
  | raise e ↦ (raise (store_failed e), g)
]

unfoldable pub get_session : String → M (Option String)
unfolding session_from
get_session context_id g = session_from context_id g.session_store g

-- `_save_session`, at time `now`
unfoldable pub session_into :
    String → String → ℕ → Option SessionStore → Gateway → Result HandlerError (Unit {0}) × Gateway
session_into context_id session_id now none g =
    (ok tt, record g { sessions = put context_id session_id g.sessions })
session_into context_id session_id now (some store) g =
    elim (SessionStore.save context_id session_id now store) [
      | ok s ↦ (ok tt, record g { session_store = some s })
      | raise e ↦ (raise (store_failed e), g)
    ]

unfoldable pub save_session : String → String → ℕ → M (Unit {0})
unfolding session_into
save_session context_id session_id now g = session_into context_id session_id now g.session_store g

unfoldable pub restored : Option SessionStore → Gateway → Result HandlerError (Unit {0}) × Gateway
restored none g = (ok tt, g)
restored (some store) g = elim (SessionStore.load_all store) [
  | ok d ↦ (ok tt, record g { sessions = d })
  | raise e ↦ (raise (store_failed e), g)
]

unfoldable pub restore_sessions : M (Unit {0})
unfolding restored
restore_sessions g = restored g.session_store g

-- `d.get(key, 0)`
unfoldable pub count_or_zero : Option ℕ → ℕ
count_or_zero none = 0
count_or_zero (some n) = n

-- `_increment_metric`
unfoldable pub increment_metric : String → M (Unit {0})
unfolding count_or_zero
increment_metric key g = (
  ok tt,
  record g { metrics = Option.map (λ m. put key (count_or_zero (get key m) + 1) m) g.metrics },
)

-- `push_notifier.deliver`
unfoldable pub deliver : (Notification → ℕ → PostOutcome) → String → String → String → M (Unit {0})
deliver post task_id status message g = (
  ok tt,
  record g {
    deliveries =
        g.deliveries
        ++ PushNotifier.deliver default_notifier post task_id status message g.push_store;
  },
)
