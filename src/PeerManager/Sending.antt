-- ===== src/PeerManager/Sending.antt =====
-- `send_to_peer` on all its branches, and how it moves the circuit breakers.
use hermes_a2a_v.Prelude.{
  ℕ, ◌+◌, ◌<◌, ◌≡◌, refl, String, Bool, true, false, Option, none, some, List, [], ◌∷◌, arith,
  Result, ok, raise, if◌then◌else◌,
}
use hermes_a2a_v.Dict.{get, get-put_self, string_eq}
use hermes_a2a_v.PeerManager.{
  ClientError, client_error, other_error, PeerConfig, CbEntry, PeerManager, Info, SendCall,
  cooldown, is_peer_down, find_peer, call_for, after_send, send_to_peer, cb_record_failure, broken,
  entry_or_new, count_failure,
}
use hermes_a2a_v.PeerManager.Breaker.{Event, sent, failed, checked, step, run}

abbrev pub Client : Type 0
Client = SendCall → Result ClientError Info

-- The event of a call of the client; an exception that is not its own leaves no trace.
unfoldable pub outcome : String → ℕ → Result ClientError Info → List Event
outcome name later (ok r) = sent name ∷ []
outcome name later (raise (client_error exc)) = failed name later ∷ []
outcome name later (raise (other_error exc)) = []

-- The events of one send, from what the peer's lookup, its breaker and the client's answer were.
unfoldable pub events :
    String → ℕ → ℕ → Option PeerConfig → Bool → (PeerConfig → Result ClientError Info) → List Event
events name now later none down answer = []
events name now later (some peer) true answer = checked name now ∷ []
events name now later (some peer) false answer = checked name now ∷ outcome name later (answer peer)

-- The state after a send is the one that its events leave: a look at the breaker if the peer is
-- found, then, if the breaker let the call through, a success, or a failure when the client raised its
-- own error; nothing if the peer is not found.
pub send_to_peer-run :
    (name message : String) (context_id : Option String) (now later : ℕ) (client : Client)
    (pm : PeerManager)
    → (send_to_peer name message context_id now later client pm).0
      ≡ run
          (events name now later
            (find_peer name pm)
            (is_peer_down name now pm).1
            (λ p. client (call_for p message context_id)))
          pm
unfolding send_to_peer events outcome run step after_send
send_to_peer-run name message context_id now later client pm = ground arith

-- While a known peer is down, a send returns the circuit breaker's error and changes nothing,
-- whatever the client would have answered.
pub send_while_down :
    (name message : String) (context_id : Option String) (now later : ℕ) (client : Client)
    (pm : PeerManager) (p : PeerConfig)
    → find_peer name pm ≡ some p
    → (is_peer_down name now pm).1 ≡ true
    → send_to_peer name message context_id now later client pm ≡ (pm, ok (broken name))
unfolding send_to_peer is_peer_down
send_while_down name message context_id now later client pm p found down = ground arith

pub after_send-answer :
    (name : String) (later : ℕ) (r : Result ClientError Info) (pm q : PeerManager)
    → (after_send name later r pm).1 ≡ (after_send name later r q).1
unfolding after_send
after_send-answer name later (ok info) pm q = refl
after_send-answer name later (raise (client_error exc)) pm q = refl
after_send-answer name later (raise (other_error exc)) pm q = refl

-- A send to a known peer answers with the breaker's error while the peer is down, and else with what
-- the client's answer comes to.
pub send_to_peer-answer :
    (name message : String) (context_id : Option String) (now later : ℕ) (client : Client)
    (pm : PeerManager) (p : PeerConfig)
    → find_peer name pm ≡ some p
    → (send_to_peer name message context_id now later client pm).1 ≡ (
        if (is_peer_down name now pm).1
        then ok (broken name)
        else (after_send name later (client (call_for p message context_id)) pm).1)
unfolding send_to_peer
send_to_peer-answer name message context_id now later client pm p found = rw found (
    ground (
      arith,
      after_send-answer name later (client (call_for p message context_id))
          (is_peer_down name now pm).0 pm,
    ))

-- Whether a peer is down rests on the breakers alone.
pub is_peer_down-cb_state :
    (name : String) (now : ℕ) (pm q : PeerManager)
    → pm.cb_state ≡ q.cb_state
    → (is_peer_down name now pm).1 ≡ (is_peer_down name now q).1
unfolding is_peer_down
is_peer_down-cb_state name now pm q e = ground arith

module _ (name message : String) (context_id : Option String) (client : Client) (p : PeerConfig)
    (exc : String)
    (raises : client (call_for p message context_id) ≡ raise (client_error exc)) where
  abbrev send : ℕ → ℕ → PeerManager → PeerManager
  send now later pm = (send_to_peer name message context_id now later client pm).0

  -- One failing send on a breaker that is not open counts the failure and keeps the peers.
  send_fails :
      (now later : ℕ) (pm : PeerManager) (o : Option CbEntry)
      → find_peer name pm ≡ some p
      → get name pm.cb_state ≡ o
      → (entry_or_new o).down_until ≡ none
      → (get name (send now later pm).cb_state ≡ some (count_failure later (entry_or_new o)))
        × (find_peer name (send now later pm) ≡ some p)
  unfolding send_to_peer after_send is_peer_down cb_record_failure find_peer entry_or_new
  send_fails now later pm none found e up =
      ground
        (arith, raises, get-put_self name (count_failure later (entry_or_new none)) pm.cb_state)
  send_fails now later pm (some entry) found e up =
      ground (arith, raises, get-put_self name (count_failure later entry) pm.cb_state)

  -- If a call of the client for a known peer raises the client's own error, and the peer has no failure
  -- on record, then three such sends open its breaker: until sixty seconds after the third failure was
  -- recorded, every send to it returns the circuit breaker's error and changes nothing, whatever the
  -- client would have answered; at that time it is not down any more.
  pub three_failures_open :
      (pm : PeerManager) (n1 l1 n2 l2 n3 l3 now later : ℕ) (text : String) (c : Option String)
      (other : Client)
      → find_peer name pm ≡ some p
      → get name pm.cb_state ≡ none
      → now < l3 + cooldown
      → let opened = send n3 l3 (send n2 l2 (send n1 l1 pm)) in
        (send_to_peer name text c now later other opened ≡ (opened, ok (broken name)))
        × ((is_peer_down name (l3 + cooldown) opened).1 ≡ false)
  unfolding entry_or_new count_failure
  three_failures_open pm n1 l1 n2 l2 n3 l3 now later text c other found clean early =
      let (g1, f1) = send_fails n1 l1 pm none found clean refl in
      let (g2, f2) = send_fails n2 l2 (send n1 l1 pm) _ f1 g1 refl in
      let (g3, f3) = send_fails n3 l3 (send n2 l2 (send n1 l1 pm)) _ f2 g2 refl in
      (send_while_down name text c now later other _ p f3 (down_of _ g3), up_of _ g3)
    where
      third_failure : CbEntry
      third_failure = record { failures = 3; down_until = some (l3 + cooldown) }

      down_of :
          (q : PeerManager)
          → get name q.cb_state ≡ some third_failure
          → (is_peer_down name now q).1 ≡ true
      down_of q g = unfold is_peer_down in ground arith

      up_of :
          (q : PeerManager)
          → get name q.cb_state ≡ some third_failure
          → (is_peer_down name (l3 + cooldown) q).1 ≡ false
      up_of q g = unfold is_peer_down in ground arith
