-- ===== src/Scenarios/Peers.antt =====
-- Runs of the circuit breaker and of sends to a peer.
use hermes_a2a_v.Dict.{get}
use hermes_a2a_v.Prelude.{
  arith, ◌+◌, ℕ, ◌≡◌, refl, false, true, none, some, List, [], ◌∷◌, ok, raise,
}
use hermes_a2a_v.PeerManager.{
  client_error, PeerConfig, PeerManager, is_peer_down, send_to_peer, find_peer, broken, cooldown,
  call_for,
}
use hermes_a2a_v.PeerManager.Breaker.{
  Event, failed, checked, run, spec_run, spec_down, closed, breaker_refines,
}
use hermes_a2a_v.PeerManager.Sending.{Client, events, send_to_peer-run, three_failures_open}

abbrev bob : PeerConfig
bob = record {
  name = "bob";
  agent_card_url = "http://bob/.well-known/agent-card.json";
  auth_token = "";
  enabled = true;
}

abbrev manager : PeerManager
manager = record { peers_config = bob ∷ []; discovered = []; cb_state = [] }

abbrev history : List Event
history = failed "bob" 1 ∷ failed "al" 2 ∷ failed "bob" 3 ∷ failed "bob" 4 ∷ checked "bob" 5 ∷ []

abbrev refusing : Client
refusing call = raise (client_error "refused")

abbrev tripped : PeerManager
tripped = record manager {
  cb_state = ("bob", record { failures = 3; down_until = some 60004 }) ∷ [];
}

breaker_refines_example :
    (is_peer_down "bob" 100 (run history manager)).1 ≡ spec_down 100 (spec_run "bob" history closed)
unfolding get
breaker_refines_example = breaker_refines "bob" history manager 100 refl

send_to_peer-run_example :
    (send_to_peer "bob" "hi" none 10 20 refusing manager).0
    ≡ run
        (events "bob" 10 20
          (find_peer "bob" manager)
          (is_peer_down "bob" 10 manager).1
          (λ p. refusing (call_for p "hi" none)))
        manager
send_to_peer-run_example = send_to_peer-run "bob" "hi" none 10 20 refusing manager

three_failures_open_example :
    let send = λ (now later : ℕ) (pm : PeerManager).
      (send_to_peer "bob" "hi" none now later refusing pm).0 in
    let opened = send 5 6 (send 3 4 (send 1 2 manager)) in
    (send_to_peer "bob" "again" none 7 8 refusing opened ≡ (opened, ok (broken "bob")))
    × ((is_peer_down "bob" (6 + cooldown) opened).1 ≡ false)
unfolding find_peer get
three_failures_open_example =
    three_failures_open "bob" "hi" none refusing bob "refused" refl manager 1 2 3 4 5 6 7 8 "again"
      none refusing refl refl (omega arith)
