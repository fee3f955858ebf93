-- ===== src/A2aHandler/Monad.antt =====
-- The handler's state, and methods that change it and may raise. What was written before an
-- exception stays written, so the state comes back beside the exception too.
use hermes_a2a_v.Prelude.{ℕ, String, Option, List, Result, ok, raise}
use hermes_a2a_v.Dict.{Dict}
use hermes_a2a_v.TaskStore.{TaskStore, StoreError}
use hermes_a2a_v.SessionStore.{SessionStore}
use hermes_a2a_v.PushNotifier.{PushNotificationStore, Notification, Delivered}
use hermes_a2a_v.HermesClient.{HermesError}

-- The exceptions that leave a method: the client's, a store's assertion, and the errors of Python's
-- own operations on a task dict of an unexpected shape.
pub data HandlerError : Type 0 where
  hermes_failed : HermesError → HandlerError
  store_failed : StoreError → HandlerError
  key_error attribute_error : HandlerError

-- `deliveries` lists the notifications that were posted, oldest first.
pub record Gateway : Type 0 where
  pub task_store : TaskStore
  pub session_store : Option SessionStore
  pub sessions : Dict String String
  pub push_store : PushNotificationStore
  pub metrics : Option (Dict String ℕ)
  pub deliveries : List (Notification × Delivered)

abbrev pub M : Type 0 → Type 0
M A = Gateway → Result HandlerError A × Gateway

abbrev pub continue : {A B : Type 0} → Result HandlerError A → (A → M B) → M B
continue (ok a) f g = f a g
continue (raise e) f g = (raise e, g)

infixl 10 ◌>>=◌ ◌>>◌
abbrev pub ◌>>=◌ : {A B : Type 0} → M A → (A → M B) → M B
◌>>=◌ m f g = continue (m g).0 f (m g).1

abbrev pub ◌>>◌ : {A B : Type 0} → M A → M B → M B
m >> n = m >>= λ _. n

abbrev pub pure : {A : Type 0} → A → M A
pure a g = (ok a, g)

abbrev pub fail : {A : Type 0} → HandlerError → M A
fail e g = (raise e, g)

-- A call of the task store that writes
abbrev pub on_tasks : (TaskStore → Result StoreError TaskStore) → M (Unit {0})
on_tasks f g = elim (f g.task_store) [
  | ok s ↦ (ok tt, record g { task_store = s })
  | raise e ↦ (raise (store_failed e), g)
]

-- A call of the task store that reads
abbrev pub from_tasks : {A : Type 0} → (TaskStore → Result StoreError A) → M A
from_tasks f g = elim (f g.task_store) [ ok a ↦ (ok a, g) | raise e ↦ (raise (store_failed e), g) ]
