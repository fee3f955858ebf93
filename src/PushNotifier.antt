-- ===== src/PushNotifier.antt =====
-- src/hermes_a2a/push_notifier.py: the store of push notification configs, and their delivery with
-- retries. What each POST meets is an argument, and so is a fresh UUID. The proofs are in the
-- children.
pub mod Configs
pub mod Delivery
use hermes_a2a_v.Prelude.{
  ℕ, zero, suc, ◌+◌, ◌-◌, String, Bool, true, false, Option, none, some, List, [], ◌∷◌, ◌++◌, ltb,
  str_eq, truthy, str_or, if◌then◌else◌, min, length, is_empty, get_elem?,
}
use hermes_a2a_v.Dict.{Dict, get, put, pop, has_key, pair_eq, string_eq}
use hermes_a2a_v.Text.{◌⧺◌}

-- A `TaskPushNotificationConfig`, by the fields that the gateway reads.
pub record Config : Type 0 where
  pub id : String
  pub task_id : String
  pub url : String
  pub token : String

pub record PushNotificationStore : Type 0 where
  pub configs : Dict (String × String) Config

unfoldable pub empty : PushNotificationStore
empty = record { configs = [] }

-- `create`: the new store, and the stored config
unfoldable pub create : Config → String → PushNotificationStore → PushNotificationStore × Config
create config uuid s =
    let config_id = str_or config.id uuid in
    let stored = record config { id = config_id } in
    (record s { configs = put (config.task_id, config_id) stored s.configs }, stored)

unfoldable pub get_config : String → String → PushNotificationStore → Option Config
get_config task_id config_id s = get (task_id, config_id) s.configs

-- `[c for (tid, _), c in self._configs.items() if tid == task_id]`
unfoldable pub configs_of : String → Dict (String × String) Config → List Config
configs_of task_id [] = []
configs_of task_id (((tid, cid), c) ∷ d) =
    let rest = configs_of task_id d in if str_eq tid task_id then c ∷ rest else rest

unfoldable pub list_configs : String → PushNotificationStore → List Config
unfolding configs_of
list_configs task_id s = configs_of task_id s.configs

unfoldable pub delete : String → String → PushNotificationStore → PushNotificationStore × Bool
delete task_id config_id s =
    if has_key (task_id, config_id) s.configs
    then (record s { configs = pop (task_id, config_id) s.configs }, true)
    else (s, false)

-- What one POST comes to: a status, or an exception.
pub data PostOutcome : Type 0 where
  status : ℕ → PostOutcome
  exception : String → PostOutcome

unfoldable pub is_delivered : PostOutcome → Bool
is_delivered (status code) = ltb code 400
is_delivered (exception exc) = false

-- A notifier's settings; the delays in milliseconds.
pub record Notifier : Type 0 where
  pub max_retries : ℕ
  pub retry_delays : List ℕ

abbrev pub default_notifier : Notifier
default_notifier = record { max_retries = 3; retry_delays = 1000 ∷ 2000 ∷ 4000 ∷ [] }

-- What one delivery did: whether it was accepted, the POSTs it made, and its pauses in order.
pub record Delivered : Type 0 where
  pub accepted : Bool
  pub posts : ℕ
  pub pauses : List ℕ

module _ (notifier : Notifier) where
  -- `self._retry_delays[min(attempt, len(self._retry_delays) - 1)]`, for delays that are not empty
  pub delay_for : ℕ → ℕ
  delay_for attempt =
      elim (get_elem? notifier.retry_delays (min attempt (length notifier.retry_delays - 1))) [
        | none ↦ 0
        | some delay ↦ delay
      ]

  -- The loop over `range(max_retries)`, with `rounds` attempts left; `attempt` is the next one.
  unfoldable pub post_rounds : ℕ → ℕ → List ℕ → (ℕ → PostOutcome) → Delivered
  unfolding delay_for is_delivered
  post_rounds zero attempt pauses post = record {
    accepted = false;
    posts = attempt;
    pauses = pauses;
  }
  post_rounds (suc rounds) attempt pauses post =
      let paused =
        if ltb attempt (notifier.max_retries - 1)
        then pauses ++ delay_for attempt ∷ []
        else pauses in
      let rest = post_rounds rounds (attempt + 1) paused post in
      if is_delivered (post attempt)
      then record { accepted = true; posts = attempt + 1; pauses = pauses }
      else rest

  unfoldable pub post_with_retry : (ℕ → PostOutcome) → Delivered
  unfolding post_rounds
  post_with_retry post = post_rounds notifier.max_retries 0 [] post

-- The POST of a notification.
pub record Notification : Type 0 where
  pub url : String
  pub task_id : String
  pub status : String
  pub message : String
  pub headers : Dict String String

notification_headers : String → Dict String String
notification_headers token =
    let headers = put "Content-Type" "application/json" [] in
    if truthy token then put "Authorization" ("Bearer " ⧺ token) headers else headers

unfoldable pub notification_for : Config → String → String → String → Notification
unfolding notification_headers
notification_for cfg task_id state message = record {
  url = cfg.url;
  task_id = task_id;
  status = state;
  message = message;
  headers = notification_headers cfg.token;
}

-- The loop of `deliver` over the configs: each notification that was posted, with what came of it
unfoldable pub deliver_loop :
    Notifier
    → (Notification → ℕ → PostOutcome)
    → String
    → String
    → String
    → List Config
    → List (Notification × Delivered)
unfolding notification_for
deliver_loop notifier post task_id state message [] = []
deliver_loop notifier post task_id state message (cfg ∷ cfgs) =
    let n = notification_for cfg task_id state message in
    let rest = deliver_loop notifier post task_id state message cfgs in
    if truthy cfg.url then (n, post_with_retry notifier (post n)) ∷ rest else rest

unfoldable pub deliver :
    Notifier
    → (Notification → ℕ → PostOutcome)
    → String
    → String
    → String
    → PushNotificationStore
    → List (Notification × Delivered)
unfolding deliver_loop list_configs
deliver notifier post task_id state message s =
    deliver_loop notifier post task_id state message (list_configs task_id s)
