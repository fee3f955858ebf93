-- ===== src/A2aClient/Wrapping.antt =====
-- The client's exceptions, and what they mean for the peer manager.
use hermes_a2a_v.PeerManager.Sending.{send_to_peer-answer}
use hermes_a2a_v.Prelude.{
  ℕ, ◌≡◌, refl, String, Bool, true, false, Option, none, some, if◌then◌else◌, Result, ok, raise,
}
use hermes_a2a_v.PeerManager.{
  broken, is_peer_down, after_send, PeerManager, PeerConfig, Info, ClientError, client_error,
  other_error, SendCall, SendResult, find_peer, send_to_peer,
}
use hermes_a2a_v.A2aClient.{
  Client, A2aClient, Sdk, Stream, Message, Card, send_message, streamed, with_client, with_card,
  last_task, result_of, failed,
}

-- The exception is the client's own.
unfoldable pub IsWrapped {ℓ} : {A : Type ℓ} → Result ClientError A → Type 0
IsWrapped (ok a) = Unit
IsWrapped (raise (client_error e)) = Unit
IsWrapped (raise (other_error e)) = ⊥

result_of-IsWrapped : (o : Option (String × String)) → IsWrapped (result_of o)
unfolding IsWrapped result_of
result_of-IsWrapped none = tt
result_of-IsWrapped (some t) = tt

streamed-IsWrapped : (s : Stream) → IsWrapped (streamed s)
unfolding streamed IsWrapped failed
streamed-IsWrapped (responses, some exc) = tt
streamed-IsWrapped (responses, none) = result_of-IsWrapped (last_task none responses)

with_client-IsWrapped :
    (msg : Message) (made : Result String Client) (c : A2aClient)
    → IsWrapped (with_client msg made c).1
unfolding with_client failed IsWrapped
with_client-IsWrapped msg (raise exc) c = tt
with_client-IsWrapped msg (ok client) c = streamed-IsWrapped (client.send msg)

with_card-IsWrapped :
    (sdk : Sdk) (msg : Message) (card : Result String Card) (c : A2aClient)
    → IsWrapped (with_card sdk msg card c).1
unfolding with_card failed IsWrapped
with_card-IsWrapped sdk msg (raise exc) c = tt
with_card-IsWrapped sdk msg (ok card) c = with_client-IsWrapped msg (sdk.create card) c

send_message-IsWrapped :
    (sdk : Sdk) (url message : String) (context_id auth_token : Option String) (c : A2aClient)
    → IsWrapped (send_message sdk url message context_id auth_token c).1
unfolding send_message
send_message-IsWrapped sdk url message context_id auth_token c = with_card-IsWrapped sdk _ _ _

-- The peer manager's client: `send_message` of this one
unfoldable pub calling : Sdk → A2aClient → SendCall → Result ClientError Info
calling sdk c call =
    (send_message sdk call.agent_url call.message call.context_id call.auth_token c).1

after_send-answers :
    (name : String) (later : ℕ) (r : Result ClientError Info) (pm : PeerManager)
    → IsWrapped r
    → (sent : SendResult) × ((after_send name later r pm).1 ≡ ok sent)
unfolding after_send IsWrapped
after_send-answers name later (ok info) pm w = (_, refl)
after_send-answers name later (raise (client_error e)) pm w = (_, refl)
after_send-answers name later (raise (other_error e)) pm w = absurd w

either_ok :
    (b : Bool) (x : SendResult) (y : Result String SendResult)
    → ((sent : SendResult) × (y ≡ ok sent))
    → (sent : SendResult) × ((if b then ok x else y) ≡ ok sent)
either_ok true x y h = (x, refl)
either_ok false x y h = h

-- Whatever the A2A SDK does, a send of the peer manager to a known peer through this client returns a
-- result and raises nothing.
pub known_peer_answers :
    (sdk : Sdk) (c : A2aClient) (name message : String) (context_id : Option String) (now later : ℕ)
    (pm : PeerManager) (p : PeerConfig)
    → find_peer name pm ≡ some p
    → (sent : SendResult) × ((send_to_peer name message context_id now later (calling sdk c) pm).1
        ≡ ok sent)
unfolding calling
known_peer_answers sdk c name message context_id now later pm p found =
    rw (send_to_peer-answer name message context_id now later (calling sdk c) pm p found) (
      either_ok (is_peer_down name now pm).1 (broken name) _
        (after_send-answers name later _ pm (send_message-IsWrapped sdk _ _ _ _ c)))
