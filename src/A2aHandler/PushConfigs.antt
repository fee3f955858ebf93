-- ===== src/A2aHandler/PushConfigs.antt =====
-- The push config requests of a2a_handler.py, and whom a cancel request notifies.
use mathlib.Core.List.{Memᴰ, map-append}
use hermes_a2a_v.Prelude.{
  Bool, sym, inl, inr, Bool-cases, eq_refl, ◌≡◌, refl, ◌∙◌, ap, String, true, false, Option, none,
  some, List, [], ◌∷◌, ◌++◌, map, arith, ok, select, truthy, if◌then◌else◌, str_or,
}
use hermes_a2a_v.TaskState.{is_terminal, state_from_str}
use hermes_a2a_v.TaskStore
use hermes_a2a_v.TaskStore.{TaskDict}
use hermes_a2a_v.Dict.{pair_beq}
use hermes_a2a_v.PushNotifier
use hermes_a2a_v.PushNotifier.{
  Config, Notification, Delivered, create, get_config, list_configs, notification_for,
  default_notifier,
}
use hermes_a2a_v.PushNotifier.Delivery.{deliver-configs}
use hermes_a2a_v.PushNotifier.Configs.{IsValid, create_config, list_configs_iff}
use hermes_a2a_v.A2aHandler.{Gateway, M, Outside, on_cancel_task}
use hermes_a2a_v.A2aHandler.Cancels.{Holds}

-- `on_create_task_push_notification_config`, with a fresh UUID
unfoldable pub on_create_config : Config → String → M Config
on_create_config params uuid g =
    let (store, config) = create params uuid g.push_store in
    (ok config, record g { push_store = store })

-- `on_get_task_push_notification_config`, by the task's id and the config's
unfoldable pub on_get_config : String → String → M (Option Config)
on_get_config task_id id g = (ok (get_config task_id id g.push_store), g)

-- `on_list_task_push_notification_configs`
unfoldable pub on_list_configs : String → M (List Config)
on_list_configs task_id g = (ok (list_configs task_id g.push_store), g)

-- `on_delete_task_push_notification_config`: the request again, if it named a config
unfoldable pub on_delete_config : String → String → M (Option (String × String))
on_delete_config task_id id g =
    let (store, deleted) = PushNotifier.delete task_id id g.push_store in
    (ok (if deleted then some (task_id, id) else none), record g { push_store = store })

cancel-deliveries :
    (t : TaskDict) (state : String) (out : Outside) (g : Gateway)
    → Holds g t state
    → is_terminal (state_from_str state) ≡ false
    → (on_cancel_task t.id out g).1.deliveries
      ≡ g.deliveries
        ++ PushNotifier.deliver default_notifier out.post t.id "canceled" "Task canceled"
            g.push_store
unfolding on_cancel_task TaskStore.save
cancel-deliveries t state out g h live = ground (arith, h.stored, h.status, h.open_store)

Mem-right {ℓ} : {A : Type ℓ} (x : A) (xs ys : List A) → Memᴰ x ys → Memᴰ x (xs ++ ys)
Mem-right x [] ys m = m
Mem-right x (y ∷ xs) ys m = Memᴰ.tail (Mem-right x xs ys m)

Mem-map {ℓ κ} :
    {A : Type ℓ} {B : Type κ} (f : A → B) (x : A) (xs : List A) → Memᴰ x xs → Memᴰ (f x) (map f xs)
Mem-map f x [] m = elim m [ ]
Mem-map f x (y ∷ xs) (Memᴰ.head e) = Memᴰ.head (ap f e)
Mem-map f x (y ∷ xs) (Memᴰ.tail m) = Memᴰ.tail (Mem-map f x xs m)

Mem-select {ℓ} :
    {A : Type ℓ} (p : A → Bool) (x : A) (xs : List A)
    → p x ≡ true
    → Memᴰ x xs
    → Memᴰ x (select p xs)
Mem-select p x [] h m = elim m [ ]
Mem-select p x (y ∷ xs) h (Memᴰ.head e) =
    let kept : p y ≡ true = ap p (sym e) ∙ h in rw kept (Memᴰ.head e)
Mem-select p x (y ∷ xs) h (Memᴰ.tail m) =
    let rest = Mem-select p x xs h m in
    elim (Bool-cases (p y)) [ inl kept ↦ rw kept (Memᴰ.tail rest) | inr dropped ↦ rw dropped rest ]

cancel-notifications :
    (t : TaskDict) (state : String) (out : Outside) (g : Gateway)
    → Holds g t state
    → is_terminal (state_from_str state) ≡ false
    → map (λ x. x.0) (on_cancel_task t.id out g).1.deliveries
      ≡ map (λ x. x.0) g.deliveries
        ++ map
            (λ c. notification_for c t.id "canceled" "Task canceled")
            (select (λ c. truthy c.url) (list_configs t.id g.push_store))
cancel-notifications t state out g h live =
    let new =
      PushNotifier.deliver default_notifier out.post t.id "canceled" "Task canceled" g.push_store in
    ap (map (λ x. x.0)) (cancel-deliveries t state out g h live)
    ∙ map-append (λ x. x.0) g.deliveries new
    ∙ ap (λ l. map (λ x. x.0) g.deliveries ++ l)
        (deliver-configs default_notifier out.post t.id "canceled" "Task canceled" g.push_store)

-- If a client creates a push config with a URL, in a valid store, for a stored task whose state does
-- not read as terminal, the handler answers a request for the config with it, and canceling the task
-- notifies it, with its token.
pub created_config_notified :
    (t : TaskDict) (state : String) (out : Outside) (g : Gateway) (config : Config) (uuid : String)
    → Holds g t state
    → is_terminal (state_from_str state) ≡ false
    → IsValid g.push_store
    → config.task_id ≡ t.id
    → truthy config.url ≡ true
    → let stored = record config { id = str_or config.id uuid } in
      let g' = (on_create_config config uuid g).1 in
      (on_get_config t.id stored.id g' ≡ (ok (some stored), g'))
      × Memᴰ
          (notification_for stored t.id "canceled" "Task canceled")
          (map (λ x. x.0) (on_cancel_task t.id out g').1.deliveries)
unfolding on_create_config on_get_config pair_beq create
created_config_notified t state out g config uuid h live valid same url =
    let stored = record config { id = str_or config.id uuid } in
    let g' = (on_create_config config uuid g).1 in
    let (valid', _, answers) = create_config g.push_store config uuid valid in
    let found : get_config t.id stored.id g'.push_store ≡ some stored =
      answers t.id stored.id ∙ rw (same, eq_refl t.id, eq_refl stored.id) refl in
    let held : Holds g' t state = record {
      open_store = h.open_store;
      stored = h.stored;
      status = h.status;
    } in
    let listed = (list_configs_iff g'.push_store t.id stored valid').1 found in
    (
      ap (λ x. (ok x, g')) found,
      rw (cancel-notifications t state out g' held live) (
          Mem-right (notification_for stored t.id "canceled" "Task canceled")
            (map (λ x. x.0) g'.deliveries) _
            (Mem-map (λ c. notification_for c t.id "canceled" "Task canceled") stored _
              (Mem-select (λ c. truthy c.url) stored _ url listed))),
    )
