-- ===== src/PushNotifier/Configs.antt =====
-- The store of configs: what is created can be read, listed and deleted.
use mathlib.Core.List.{Memᴰ}
use hermes_a2a_v.Prelude.{
  Option-cases, is_some, sym, subst, ◌↔◌, ◌⊎◌, ◌≡◌, refl, inl, inr, ◌∙◌, ap, String, true, false,
  none, some, [], ◌∷◌, arith, eq_iff, str_eq, str_or, if◌then◌else◌, Bool-cases,
}
use hermes_a2a_v.Dict.{
  Dict, get, put, pop, get-put, get-pop, IsKeyed, put-IsKeyed, pop-IsKeyed, pair_eq, pair_beq,
}
use hermes_a2a_v.PushNotifier.{
  Config, PushNotificationStore, create, get_config, list_configs, configs_of, delete,
}

-- Every config stands under its own task and config ids.
abbrev pub IsFiled : Dict (String × String) Config → Type 0
IsFiled [] = Unit
IsFiled ((k, c) ∷ d) = (k ≡ (c.task_id, c.id)) × IsFiled d

put-IsFiled :
    (c : Config) (d : Dict (String × String) Config)
    → IsFiled d
    → IsFiled (put (c.task_id, c.id) c d)
unfolding put
put-IsFiled c [] h = (refl, tt)
put-IsFiled c ((k, v) ∷ d) h = elim (Bool-cases (pair_eq.beq k (c.task_id, c.id))) [
  | inl same ↦ rw same ((pair_eq.beq_iff k (c.task_id, c.id)).0 same, h.1)
  | inr other ↦ rw other (h.0, put-IsFiled c d h.1)
]

pop-IsFiled :
    (k : String × String) (d : Dict (String × String) Config) → IsFiled d → IsFiled (pop k d)
unfolding pop
pop-IsFiled k [] h = tt
pop-IsFiled k ((j, v) ∷ d) h = elim (Bool-cases (pair_eq.beq j k)) [
  | inl same ↦ rw same (pop-IsFiled k d h.1)
  | inr other ↦ rw other (h.0, pop-IsFiled k d h.1)
]

-- A store that `create` and `delete` can have built.
pub record IsValid (s : PushNotificationStore) : Type 0 where
  pub keyed : IsKeyed s.configs
  pub filed : IsFiled s.configs

-- Creating a config in a valid store keeps it valid, and the store then answers the new config's ids
-- with the config, whose id is the given one or else the fresh one, and every other pair of ids as
-- before.
pub create_config :
    (s : PushNotificationStore) (config : Config) (uuid : String)
    → IsValid s
    → let (s', stored) = create config uuid s in
      IsValid s'
      × (stored ≡ record config { id = str_or config.id uuid })
      × ((t i : String)
          → get_config t i s' ≡ (
              if pair_beq (stored.task_id, stored.id) (t, i)
              then some stored
              else get_config t i s))
unfolding create get_config pair_beq
create_config s config uuid v =
    let stored = record config { id = str_or config.id uuid } in
    (
      record {
        keyed = put-IsKeyed (stored.task_id, stored.id) stored s.configs v.keyed;
        filed = put-IsFiled stored s.configs v.filed;
      },
      refl,
      λ t i. get-put (stored.task_id, stored.id) (t, i) stored s.configs,
    )

-- Deleting from a valid store keeps it valid, reports whether the config was there, and takes away
-- exactly that pair of ids.
pub delete_config :
    (s : PushNotificationStore) (task_id config_id : String)
    → IsValid s
    → let (s', found) = delete task_id config_id s in
      IsValid s'
      × (found ≡ is_some (get_config task_id config_id s))
      × ((t i : String)
          → get_config t i s'
            ≡ (if pair_beq (task_id, config_id) (t, i) then none else get_config t i s))
unfolding delete get_config pair_beq
delete_config s task_id config_id v = elim (Option-cases (get (task_id, config_id) s.configs)) [
  | inl missing ↦
      rw missing (v, refl, λ t i. ground (arith, missing, eq_iff task_id t, eq_iff config_id i))
  | inr (c, present) ↦ rw present (
    record {
      keyed = pop-IsKeyed (task_id, config_id) s.configs v.keyed;
      filed = pop-IsFiled (task_id, config_id) s.configs v.filed;
    },
    refl,
    λ t i. get-pop (task_id, config_id) (t, i) s.configs,
  )
]

-- An entry found behind another one is found with it in front.
get_behind :
    (key k : String × String) (c v : Config) (d : Dict (String × String) Config)
    → get k d ≡ none
    → get key d ≡ some c
    → get key ((k, v) ∷ d) ≡ some c
unfolding get
get_behind key k c v d missing e = elim (Bool-cases (pair_eq.beq k key)) [
  | inl same ↦
      let p : k ≡ key = (pair_eq.beq_iff k key).0 same in
      let q : get key d ≡ none = subst (λ x. get x d ≡ none) p missing in cc
  | inr other ↦ rw other e
]

get_front :
    (key k : String × String) (v : Config) (d : Dict (String × String) Config)
    → k ≡ key
    → get key ((k, v) ∷ d) ≡ some v
unfolding get
get_front key k v d e = rw ((pair_eq.beq_iff k key).1 e)

configs_of-get :
    (t : String) (c : Config) (d : Dict (String × String) Config)
    → IsKeyed d
    → IsFiled d
    → Memᴰ c (configs_of t d)
    → get (t, c.id) d ≡ some c
unfolding configs_of
configs_of-get t c [] k f m = elim m [ ]
configs_of-get t c (((tid, cid), v) ∷ d) k f m =
    go (Bool-cases (str_eq tid t)) (configs_of-get t c d k.1 f.1)
  where
    listed :
        (tid ≡ t)
        → Memᴰ c (v ∷ configs_of t d)
        → (Memᴰ c (configs_of t d) → get (t, c.id) d ≡ some c)
        → get (t, c.id) (((tid, cid), v) ∷ d) ≡ some c
    listed p (Memᴰ.head e) ih =
        let ids : cid ≡ c.id =
          cc (ap (λ (x : String × String). x.1) f.0, ap (λ (x : Config). x.id) e) in
        get_front (t, c.id) (tid, cid) v d (cc) ∙ ap some (sym e)
    listed p (Memᴰ.tail m') ih = get_behind (t, c.id) (tid, cid) c v d k.0 (ih m')

    go :
        (str_eq tid t ≡ true) ⊎ (str_eq tid t ≡ false)
        → (Memᴰ c (configs_of t d) → get (t, c.id) d ≡ some c)
        → get (t, c.id) (((tid, cid), v) ∷ d) ≡ some c
    go (inl same) ih = listed ((eq_iff tid t).0 same) (rw same at m) ih
    go (inr other) ih = get_behind (t, c.id) (tid, cid) c v d k.0 (ih (rw other at m))

get-configs_of :
    (t i : String) (c : Config) (d : Dict (String × String) Config)
    → get (t, i) d ≡ some c
    → Memᴰ c (configs_of t d)
unfolding configs_of get
get-configs_of t i c [] e = cc
get-configs_of t i c (((tid, cid), v) ∷ d) e = elim (Bool-cases (pair_eq.beq (tid, cid) (t, i))) [
  | inl same ↦
      let w : v ≡ c = ground (arith, e, same) in
      let p : (tid, cid) ≡ (t, i) = (pair_eq.beq_iff (tid, cid) (t, i)).0 same in
      let q : tid ≡ t = ap (λ (x : String × String). x.0) p in
      rw ((eq_iff tid t).1 q) (Memᴰ.head (sym w))
  | inr other ↦
      let ih = get-configs_of t i c d (rw other at e) in
      elim (Bool-cases (str_eq tid t)) [ inl same ↦ rw same (Memᴰ.tail ih) | inr ne ↦ rw ne ih ]
]

-- In a valid store, a config is listed for a task exactly when the store answers the task's id and
-- the config's own id with it.
pub list_configs_iff :
    (s : PushNotificationStore) (task_id : String) (c : Config)
    → IsValid s
    → Memᴰ c (list_configs task_id s) ↔ (get_config task_id c.id s ≡ some c)
unfolding list_configs get_config
list_configs_iff s task_id c v =
    (configs_of-get task_id c s.configs v.keyed v.filed, get-configs_of task_id c.id c s.configs)
