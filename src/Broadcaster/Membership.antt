-- ===== src/Broadcaster/Membership.antt =====
-- The broadcaster against a set of sockets: what its calls do to who is connected.
use hermes_a2a_v.Prelude.{
  sym, subst, ℕ, ◌≡◌, ◌≢◌, refl, ap, ◌∙◌, inl, inr, String, Bool, true, false, not, ◌&&◌, ◌||◌,
  List, [], ◌∷◌, ◌==◌, if◌then◌else◌, arith, select, map, Bool-cases,
}
use hermes_a2a_v.Dict.{Dict}
use hermes_a2a_v.Distinct.{
  nat_eq, remove_first, is_in, IsDistinct, is_in-append, append-IsDistinct, is_in-remove_first,
  remove_first-IsDistinct, is_in-select, select-IsDistinct,
}
use hermes_a2a_v.Broadcaster.{
  finally_disconnect, Broadcaster, WebSocket, Payload, Value, Event, connects, disconnects,
  broadcasts, connect, disconnect, send_loop, disconnect_each, broadcast, step, run, Received,
  waiting, message, disconnected, failed, receive_loop, endpoint,
}

-- A set of sockets
abbrev pub Members : Type 0
Members = WebSocket → Bool

-- What a call means for the set: a broadcast keeps those that take its text.
unfoldable pub after_event : Event → Members → Members
after_event (connects ws) s x = ws == x || s x
after_event (disconnects ws) s x = not (ws == x) && s x
after_event (broadcasts event_type data_field now accepts) s x = s x && accepts x

unfoldable pub after_events : List Event → Members → Members
unfolding after_event
after_events [] s = s
after_events (e ∷ es) s = after_events es (after_event e s)

-- No socket is connected while it is a member.
unfoldable pub IsNew : Event → Members → Type 0
IsNew (connects ws) s = s ws ≡ false
IsNew (disconnects ws) s = Unit
IsNew (broadcasts event_type data_field now accepts) s = Unit

unfoldable pub IsNewAll : List Event → Members → Type 0
unfolding IsNew after_event
IsNewAll [] s = Unit
IsNewAll (e ∷ es) s = IsNew e s × IsNewAll es (after_event e s)

-- The sockets of the registry
unfoldable pub members : Broadcaster → Members
unfolding is_in
members b x = is_in x b.connections

send_loop-sent :
    (accepts : WebSocket → Bool) (payload : Payload) (xs : List WebSocket)
    → (send_loop accepts payload xs).0 ≡ map (λ ws. (ws, payload)) (select accepts xs)
unfolding send_loop
send_loop-sent accepts payload [] = refl
send_loop-sent accepts payload (x ∷ xs) = ground (arith, send_loop-sent accepts payload xs)

send_loop-stale :
    (accepts : WebSocket → Bool) (payload : Payload) (xs : List WebSocket)
    → (send_loop accepts payload xs).1 ≡ select (λ ws. not (accepts ws)) xs
unfolding send_loop
send_loop-stale accepts payload [] = refl
send_loop-stale accepts payload (x ∷ xs) = ground (arith, send_loop-stale accepts payload xs)

-- The registry after the stale sockets are removed one by one
remove_each : List WebSocket → List WebSocket → List WebSocket
unfolding remove_first
remove_each [] xs = xs
remove_each (s ∷ stale) xs = remove_each stale (remove_first s xs)

disconnect_each-remove_each :
    (stale : List WebSocket) (b : Broadcaster)
    → disconnect_each stale b ≡ record b { connections = remove_each stale b.connections }
unfolding disconnect_each remove_each
disconnect_each-remove_each [] b = refl
disconnect_each-remove_each (s ∷ stale) b = disconnect_each-remove_each stale _

remove_each-skip :
    (x : ℕ) (stale xs : List WebSocket)
    → is_in x stale ≡ false
    → remove_each stale (x ∷ xs) ≡ x ∷ remove_each stale xs
unfolding remove_each is_in
remove_each-skip x [] xs h = refl
remove_each-skip x (s ∷ stale) xs h = elim (Bool-cases (x == s)) [
  | inl e ↦ absurd (ground arith)
  | inr e ↦ rw e (remove_each-skip x stale (remove_first s xs) (ground arith))
]

same : (x : ℕ) → (x == x) ≡ true
same x = ground arith

-- In a list without repetitions, removing those that fail a test leaves those that pass it.
remove_each-select :
    (p : WebSocket → Bool) (xs : List WebSocket)
    → IsDistinct xs
    → remove_each (select (λ ws. not (p ws)) xs) xs ≡ select p xs
unfolding remove_each is_in IsDistinct
remove_each-select p [] d = refl
remove_each-select p (x ∷ xs) d = elim (Bool-cases (p x)) [
  | inl e ↦ rw e (
      remove_each-skip x (select (λ ws. not (p ws)) xs) xs
        (is_in-select (λ ws. not (p ws)) x xs ∙ ground (arith, d.0))
      ∙ ap (◌∷◌ x) (remove_each-select p xs d.1))
  | inr e ↦ rw (e, same x, remove_first) (remove_each-select p xs d.1)
]

-- A broadcast to sockets none of which is registered twice sends its payload once to every socket
-- that takes it, in the registry's order, and leaves exactly these in the registry, in that order.
pub broadcast-sent :
    (event_type : String) (data_field : Dict String Value) (now : ℕ) (accepts : WebSocket → Bool)
    (b : Broadcaster)
    → IsDistinct b.connections
    → ((broadcast event_type data_field now accepts b).0
        ≡ record b { connections = select accepts b.connections })
      × ((broadcast event_type data_field now accepts b).1
          ≡ map
              (λ ws.
                (ws, record { event_type = event_type; data_field = data_field; timestamp = now }))
              (select accepts b.connections))
unfolding broadcast
broadcast-sent event_type data_field now accepts b d = (
  rw send_loop-stale (
      disconnect_each-remove_each _ b
      ∙ ap (λ cs. record b { connections = cs }) (remove_each-select accepts b.connections d)),
  send_loop-sent accepts _ b.connections,
)

step-IsDistinct :
    (e : Event) (b : Broadcaster)
    → IsDistinct b.connections
    → IsNew e (members b)
    → IsDistinct (step e b).connections
unfolding step IsNew members connect disconnect
step-IsDistinct (connects ws) b d h = append-IsDistinct ws b.connections h d
step-IsDistinct (disconnects ws) b d h = remove_first-IsDistinct ws b.connections d
step-IsDistinct (broadcasts t f now accepts) b d h =
    rw (broadcast-sent t f now accepts b d).0 (select-IsDistinct accepts b.connections d)

step-members :
    (e : Event) (b : Broadcaster)
    → IsDistinct b.connections
    → IsNew e (members b)
    → (x : WebSocket) → members (step e b) x ≡ after_event e (members b) x
unfolding step members after_event connect disconnect
step-members (connects ws) b d h x = is_in-append x ws b.connections
step-members (disconnects ws) b d h x = is_in-remove_first x ws b.connections d
step-members (broadcasts t f now accepts) b d h x =
    rw (broadcast-sent t f now accepts b d).0 (is_in-select accepts x b.connections)

members_path :
    (e : Event) (b : Broadcaster)
    → IsDistinct b.connections
    → IsNew e (members b)
    → members (step e b) ≡ after_event e (members b)
members_path e b d h i x = step-members e b d h x i

-- For any calls, in any order, that connect no socket while it is registered, on a registry
-- without repetitions: afterwards the registry is without repetitions, and holds exactly the members
-- that the calls leave of the set it held.
pub run_refines :
    (es : List Event) (b : Broadcaster)
    → IsDistinct b.connections
    → IsNewAll es (members b)
    → IsDistinct (run es b).connections × (members (run es b) ≡ after_events es (members b))
unfolding run after_events IsNewAll
run_refines [] b d h = (d, refl)
run_refines (e ∷ es) b d h =
    let same_set = members_path e b d h.0 in
    let rest =
      run_refines es (step e b) (step-IsDistinct e b d h.0)
        (subst (IsNewAll es) (sym same_set) h.1) in
    (rest.0, rest.1 ∙ ap (after_events es) same_set)

-- Some item ends the receiving.
unfoldable pub ends : List Received → Bool
ends [] = false
ends (message m ∷ more) = ends more
ends (disconnected ∷ more) = true
ends (failed e ∷ more) = true

removed :
    (ws : WebSocket) (b : Broadcaster)
    → IsDistinct b.connections
    → members (disconnect ws b) ws ≡ false
unfolding members disconnect
removed ws b d = is_in-remove_first ws ws b.connections d ∙ ground arith

-- What `finally` leaves of the registry
finally_disconnect-members :
    (received : List Received) (ws : WebSocket) (b : Broadcaster)
    → IsDistinct b.connections
    → if ends received
      then ((receive_loop received ≢ waiting)
          × (members (finally_disconnect ws (receive_loop received) b) ws ≡ false))
      else ((receive_loop received ≡ waiting)
          × (finally_disconnect ws (receive_loop received) b ≡ b))
unfolding ends receive_loop finally_disconnect
finally_disconnect-members [] ws b d = (refl, refl)
finally_disconnect-members (message m ∷ more) ws b d = finally_disconnect-members more ws b d
finally_disconnect-members (disconnected ∷ more) ws b d = (ground arith, removed ws b d)
finally_disconnect-members (failed e ∷ more) ws b d = (ground arith, removed ws b d)

-- For an endpoint whose socket is not registered when it starts, on a registry without repetitions, and
-- for any other calls that come in between and connect no socket while it is registered: when the
-- client's side has ended, by a close or an error, the endpoint has ended and its socket is not
-- registered; before, the endpoint waits and has not removed its socket.
pub endpoint-leaves :
    (ws : WebSocket) (received : List Received) (others : List Event) (b : Broadcaster)
    → IsDistinct b.connections
    → members b ws ≡ false
    → IsNewAll others (after_event (connects ws) (members b))
    → if ends received
      then (((endpoint ws received others b).1 ≢ waiting)
          × (members (endpoint ws received others b).0 ws ≡ false))
      else (((endpoint ws received others b).1 ≡ waiting)
          × ((endpoint ws received others b).0 ≡ run others (connect ws b)))
unfolding endpoint IsNew step
endpoint-leaves ws received others b d fresh h =
    finally_disconnect-members received ws _
      (run_refines others (connect ws b) (step-IsDistinct (connects ws) b d fresh)
        (subst (IsNewAll others) (sym (members_path (connects ws) b d fresh)) h)).0
