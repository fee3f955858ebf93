-- ===== src/Scenarios/Sockets.antt =====
-- Runs of the broadcaster.
use hermes_a2a_v.Prelude.{none, ◌≡◌, ◌≢◌, refl, false, not, List, [], ◌∷◌, ◌==◌}
use hermes_a2a_v.Broadcaster.{
  Broadcaster, Event, connects, disconnects, broadcasts, Received, message, disconnected, waiting,
  run, endpoint,
}
use hermes_a2a_v.Distinct.{nat_eq, is_in, IsDistinct}
use hermes_a2a_v.Broadcaster.Membership.{
  members, after_events, after_event, IsNew, IsNewAll, run_refines, ends, endpoint-leaves,
}

-- Two sockets are registered.
abbrev two_sockets : Broadcaster
two_sockets = record { connections = 1 ∷ 2 ∷ []; background_task = none; running = [] }

-- A third one comes, then socket 2 fails at a broadcast, and socket 1 leaves.
abbrev events : List Event
events =
    connects 3
    ∷ broadcasts "task_completed" [] 7 (λ ws. not (ws == 2))
    ∷ disconnects 1
    ∷ connects 2
    ∷ []

run_refines_example :
    IsDistinct (run events two_sockets).connections
    × (members (run events two_sockets) ≡ after_events events (members two_sockets))
unfolding is_in IsDistinct IsNew IsNewAll members after_event
run_refines_example =
    run_refines events two_sockets (refl, (refl, tt)) (refl, (tt, (tt, (refl, tt))))

abbrev received : List Received
received = message "hello" ∷ disconnected ∷ []

abbrev others : List Event
others = broadcasts "task_completed" [] 7 (λ ws. not (ws == 2)) ∷ connects 4 ∷ []

endpoint-leaves_example :
    ((endpoint 3 received others two_sockets).1 ≢ waiting)
    × (members (endpoint 3 received others two_sockets).0 3 ≡ false)
unfolding is_in IsDistinct IsNew IsNewAll members after_event ends
endpoint-leaves_example =
    endpoint-leaves 3 received others two_sockets (refl, (refl, tt)) refl (tt, (refl, tt))
