-- ===== src/PushNotifier/Delivery.antt =====
-- Which POST of a delivery is the last one, and what is delivered to whom.
use native.Mathlib.Nat.{add-zero}
use hermes_a2a_v.Prelude.{
  inl, inr, Bool-cases, length-append, ltb, ℕ, zero, suc, ◌+◌, ◌-◌, ◌≤◌, ◌<◌, ◌≡◌, refl, ap, subst,
  String, true, false, List, [], ◌∷◌, ◌++◌, map, arith, length, select, truthy,
}
use hermes_a2a_v.PushNotifier.{
  delay_for, Config, PushNotificationStore, Notifier, Notification, PostOutcome, is_delivered,
  post_rounds, post_with_retry, deliver, deliver_loop, list_configs, notification_for,
}

module _ (notifier : Notifier) (post : ℕ → PostOutcome) where
  post_again :
      (rounds attempt : ℕ) (pauses : List ℕ)
      → is_delivered (post attempt) ≡ false
      → attempt < notifier.max_retries - 1
      → post_rounds notifier (suc rounds) attempt pauses post
        ≡ post_rounds notifier rounds (attempt + 1) (pauses ++ delay_for notifier attempt ∷ []) post
  unfolding post_rounds
  post_again rounds attempt pauses f l =
      let t : ltb attempt (notifier.max_retries - 1) ≡ true = ground arith in rw f (rw t refl)

  rounds_accept :
      (n rounds attempt : ℕ) (pauses : List ℕ)
      → n < rounds
      → attempt + rounds ≡ notifier.max_retries
      → length pauses ≡ attempt
      → ((j : ℕ) → j < n → is_delivered (post (attempt + j)) ≡ false)
      → is_delivered (post (attempt + n)) ≡ true
      → let d = post_rounds notifier rounds attempt pauses post in
        (d.accepted ≡ true) × (d.posts ≡ attempt + n + 1) × (length d.pauses ≡ attempt + n)
  rounds_accept n zero attempt pauses l s p before at = absurd (omega arith)
  rounds_accept zero (suc rounds) attempt pauses l s p before at =
      let here : is_delivered (post attempt) ≡ true = rw add-zero at at in
      unfold post_rounds in rw here (refl, omega arith, omega arith)
  rounds_accept (suc n) (suc rounds) attempt pauses l s p before at =
      let failed : is_delivered (post attempt) ≡ false = rw add-zero at (before 0 (omega arith)) in
      let shift : (j : ℕ) → attempt + suc j ≡ attempt + 1 + j = λ j. omega arith in
      rw (post_again rounds attempt pauses failed (omega arith), shift n)
        (rounds_accept n rounds (attempt + 1) (pauses ++ delay_for notifier attempt ∷ [])
          (omega arith) (omega arith)
          (omega (arith, length-append pauses (delay_for notifier attempt ∷ [])))
          (λ j jl.
            subst (λ k. is_delivered (post k) ≡ false) (shift j) (before (suc j) (omega arith)))
          (subst (λ k. is_delivered (post k) ≡ true) (shift n) at))

  rounds_reject :
      (k attempt : ℕ) (pauses : List ℕ)
      → attempt + suc k ≡ notifier.max_retries
      → length pauses ≡ attempt
      → ((j : ℕ) → j ≤ k → is_delivered (post (attempt + j)) ≡ false)
      → let d = post_rounds notifier (suc k) attempt pauses post in
        (d.accepted ≡ false)
        × (d.posts ≡ notifier.max_retries)
        × (length d.pauses + 1 ≡ notifier.max_retries)
  rounds_reject zero attempt pauses s p all =
      let failed : is_delivered (post attempt) ≡ false = rw add-zero at (all 0 (omega arith)) in
      let t : ltb attempt (notifier.max_retries - 1) ≡ false = ground arith in
      unfold post_rounds in rw failed (rw t (refl, omega arith, omega arith))
  rounds_reject (suc k) attempt pauses s p all =
      let failed : is_delivered (post attempt) ≡ false = rw add-zero at (all 0 (omega arith)) in
      let shift : (j : ℕ) → attempt + suc j ≡ attempt + 1 + j = λ j. omega arith in
      rw (post_again (suc k) attempt pauses failed (omega arith)) (
        rounds_reject k (attempt + 1) (pauses ++ delay_for notifier attempt ∷ []) (omega arith)
          (omega (arith, length-append pauses (delay_for notifier attempt ∷ [])))
          (λ j jl.
            subst (λ i. is_delivered (post i) ≡ false) (shift j) (all (suc j) (omega arith))))

  zero_add : (j : ℕ) → j ≡ 0 + j
  zero_add j = omega arith

  -- If there is a retry delay and POST `n`, within the retries, is the first one that is answered below
  -- 400, the notification is accepted by it: there are n + 1 POSTs, and one pause between any two of them.
  pub post_with_retry-first :
      (n : ℕ)
      → 0 < length notifier.retry_delays
      → n < notifier.max_retries
      → ((j : ℕ) → j < n → is_delivered (post j) ≡ false)
      → is_delivered (post n) ≡ true
      → let d = post_with_retry notifier post in
        (d.accepted ≡ true) × (d.posts ≡ n + 1) × (length d.pauses ≡ n)
  post_with_retry-first n delays l before at =
      let (a, p, w) =
        rounds_accept n notifier.max_retries 0 [] l (omega arith) refl
          (λ j jl. subst (λ k. is_delivered (post k) ≡ false) (zero_add j) (before j jl))
          (subst (λ k. is_delivered (post k) ≡ true) (zero_add n) at) in
      unfold post_with_retry in (a, omega (arith, p), omega (arith, w))

  -- If there is a retry delay and all of the allowed POSTs, of which there is at least one, are refused or raise, the
  -- notification is given up after exactly that number of POSTs, with one pause between any two.
  pub post_with_retry-refused :
      0 < length notifier.retry_delays
      → 0 < notifier.max_retries
      → ((j : ℕ) → j < notifier.max_retries → is_delivered (post j) ≡ false)
      → let d = post_with_retry notifier post in
        (d.accepted ≡ false)
        × (d.posts ≡ notifier.max_retries)
        × (length d.pauses + 1 ≡ notifier.max_retries)
  post_with_retry-refused delays pos all =
      let e : suc (notifier.max_retries - 1) ≡ notifier.max_retries = omega arith in
      let r =
        rounds_reject (notifier.max_retries - 1) 0 [] (omega arith) refl
          (λ j jl. subst (λ k. is_delivered (post k) ≡ false) (zero_add j) (all j (omega arith))) in
      unfold post_with_retry in
      subst
        (λ m.
          let d = post_rounds notifier m 0 [] post in
          (d.accepted ≡ false)
          × (d.posts ≡ notifier.max_retries)
          × (length d.pauses + 1 ≡ notifier.max_retries))
        e r

-- A delivery posts one notification for each config of the task that has a URL, in the store's
-- order, and to no other.
pub deliver-configs :
    (notifier : Notifier) (post : Notification → ℕ → PostOutcome) (task_id state message : String)
    (s : PushNotificationStore)
    → map (λ x. x.0) (deliver notifier post task_id state message s)
      ≡ map
          (λ c. notification_for c task_id state message)
          (select (λ c. truthy c.url) (list_configs task_id s))
unfolding deliver
deliver-configs notifier post task_id state message s = loop (list_configs task_id s)
  where
    loop :
        (cfgs : List Config)
        → map (λ x. x.0) (deliver_loop notifier post task_id state message cfgs)
          ≡ map (λ c. notification_for c task_id state message) (select (λ c. truthy c.url) cfgs)
    loop [] = refl
    loop (c ∷ cfgs) = elim (Bool-cases (truthy c.url)) [
      | inl e ↦ rw e (ap (◌∷◌ (notification_for c task_id state message)) (loop cfgs))
      | inr e ↦ rw e (loop cfgs)
    ]
