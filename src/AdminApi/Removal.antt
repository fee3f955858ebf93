-- ===== src/AdminApi/Removal.antt =====
-- Adding and removing one peer through the admin API, and sending to it afterwards.
use hermes_a2a_v.PeerManager.Sending.{is_peer_down-cb_state, send_to_peer-answer}
use hermes_a2a_v.Prelude.{
  ◌≢◌, raise, false, ℕ, ◌≡◌, refl, ap, ◌∙◌, inl, inr, String, Bool, true, not, Option, none, some,
  List, [], ◌∷◌, ◌++◌, eq_refl, if◌then◌else◌, arith, select, find_first, length-append, truthy,
  Bool-cases, ok, Result,
}
use hermes_a2a_v.Dict.{pop, string_eq}
use hermes_a2a_v.PeerManager.{
  SendResult, client_error, other_error, token_or_none, PeerManager, PeerConfig, Info, ClientError,
  SendCall, find_peer, serves, send_to_peer, is_peer_down, after_send, broken, call_for,
}
use hermes_a2a_v.AdminApi.{
  AddPeer, peers_add, add_named, missing, peers_remove, named, peer_of, or_default,
}
use hermes_a2a_v.AdminApi.Peers.{peers_remove-peers_config, find_first-select}
use hermes_a2a_v.App.{reply}
use hermes_a2a_v.Text.{◌⧺◌, remove_all}

-- A request with a name and a URL
unfoldable pub add_request : String → String → Option String → Option Bool → AddPeer
add_request name agent_card_url auth_token enabled = record {
  name = some name;
  agent_card_url = some agent_card_url;
  auth_token = auth_token;
  enabled = enabled;
}

select-absent :
    (name : String) (ps : List PeerConfig)
    → find_first (named name) ps ≡ none
    → select (λ p. not (named name p)) ps ≡ ps
select-absent name [] h = refl
select-absent name (p ∷ ps) h = elim (Bool-cases (named name p)) [
  | inl e ↦ absurd (ground arith)
  | inr e ↦ rw e (ap (◌∷◌ p) (select-absent name ps (ground arith)))
]

select-last :
    (name : String) (ps : List PeerConfig) (p : PeerConfig)
    → named name p ≡ true
    → select (λ q. not (named name q)) (ps ++ p ∷ []) ≡ select (λ q. not (named name q)) ps
select-last name [] p h = ground arith
select-last name (q ∷ ps) p h = ground (arith, select-last name ps p h)

serves-last :
    (name : String) (ps : List PeerConfig) (p : PeerConfig)
    → find_first (named name) ps ≡ none
    → serves name p ≡ true
    → find_first (serves name) (ps ++ p ∷ []) ≡ some p
serves-last name [] p h e = rw e refl
serves-last name (q ∷ ps) p h e = ground (arith, serves-last name ps p, h, e)

or_default-enabled : (enabled : Option Bool) → enabled ≢ some false → or_default true enabled ≡ true
unfolding or_default
or_default-enabled none h = refl
or_default-enabled (some true) h = refl
or_default-enabled (some false) h = absurd (h refl)

-- A token that is not empty
unfoldable pub given_token : Option String → Option String
given_token none = none
given_token (some String.[]) = none
given_token (some (String.◌∷◌ c s)) = some (String.◌∷◌ c s)

token_or_none-given : (o : Option String) → token_or_none (or_default "" o) ≡ given_token o
unfolding token_or_none or_default given_token
token_or_none-given none = refl
token_or_none-given (some String.[]) = refl
token_or_none-given (some (String.◌∷◌ c s)) = refl

-- What a send answers: an exception of the client as an error, any other as itself
unfoldable pub answer_to : String → Result ClientError Info → Result String SendResult
answer_to name (ok info) =
    ok (record { success = true; error = none; details = info; peer_name = name })
answer_to name (raise (client_error e)) =
    ok (record { success = false; error = some e; details = []; peer_name = name })
answer_to name (raise (other_error e)) = raise e

after_send-answer_to :
    (name : String) (later : ℕ) (r : Result ClientError Info) (pm : PeerManager)
    → (after_send name later r pm).1 ≡ answer_to name r
unfolding after_send answer_to
after_send-answer_to name later (ok info) pm = refl
after_send-answer_to name later (raise (client_error e)) pm = refl
after_send-answer_to name later (raise (other_error e)) pm = refl

module _ (name url : String) (auth_token : Option String) (enabled : Option Bool) where
  -- The peer of the request
  unfoldable pub new_peer : PeerConfig
  unfolding peer_of add_request
  new_peer = peer_of name url (add_request name url auth_token enabled)

  peers_add-absent :
      (pm : PeerManager)
      → truthy name ≡ true
      → truthy url ≡ true
      → find_first (named name) pm.peers_config ≡ none
      → peers_add (add_request name url auth_token enabled) pm ≡ (
        record pm { peers_config = pm.peers_config ++ new_peer ∷ [] },
        reply 201
            (record { message = "Peer '" ⧺ name ⧺ "' added"; name = name; agent_card_url = url }),
      )
  unfolding new_peer peers_add missing add_request add_named or_default
  peers_add-absent pm hn hu h = rw (hn, hu, h) refl

  -- Adding a peer under a name that no peer has, with a name and a URL that are not empty, and
  -- removing it again answers with 200 and gives the peer manager back, less what it had discovered
  -- under that name.
  pub add_then_remove :
      (pm : PeerManager)
      → truthy name ≡ true
      → truthy url ≡ true
      → find_first (named name) pm.peers_config ≡ none
      → peers_remove name (peers_add (add_request name url auth_token enabled) pm).0 ≡ (
        record pm { discovered = pop name pm.discovered },
        reply 200 ("Peer '" ⧺ name ⧺ "' removed"),
      )
  unfolding peers_remove new_peer peer_of
  add_then_remove pm hn hu h =
      rw
        (
          peers_add-absent pm hn hu h,
          select-last name pm.peers_config (new_peer) (eq_refl name),
          select-absent name pm.peers_config h,
        )
        (ground (arith, length-append pm.peers_config (new_peer ∷ [])))

  -- The call that a client gets for the request
  unfoldable pub new_call : String → Option String → SendCall
  new_call message context_id = record {
    agent_url = remove_all "/.well-known/agent-card.json" url;
    message = message;
    context_id = context_id;
    auth_token = given_token auth_token;
  }

  -- After a peer is removed, if it was there, and added again, not disabled, with a name and a URL that
  -- are not empty, a send to it calls the A2A client with the new request's URL, less the card's path,
  -- and with its token, if that is not empty, and answers with what the client answered; but where the
  -- circuit breaker of the removed peer is open, the send answers with the breaker's error.
  pub readd_then_send :
      (pm : PeerManager) (message : String) (context_id : Option String) (now later : ℕ)
      (client : SendCall → Result ClientError Info)
      → truthy name ≡ true
      → truthy url ≡ true
      → enabled ≢ some false
      → (send_to_peer name message context_id now later client
          (peers_add (add_request name url auth_token enabled) (peers_remove name pm).0).0).1
        ≡ (if (is_peer_down name now pm).1
            then ok (broken name)
            else answer_to name (client (new_call message context_id)))
  unfolding find_peer new_peer peer_of call_for new_call
  readd_then_send pm message context_id now later client hn hu on =
      let absent = find_first-select name name pm.peers_config ∙ rw (eq_refl name) refl in
      rw (peers_remove-peers_config name pm, peers_add-absent removed hn hu absent)
        (answer _ refl
          (serves-last name _ new_peer absent (rw (eq_refl name) (or_default-enabled enabled on))))
    where
      removed : PeerManager
      removed = record pm {
        peers_config = select (λ p. not (named name p)) pm.peers_config;
        discovered = pop name pm.discovered;
      }

      answer :
          (q : PeerManager)
          → q.cb_state ≡ pm.cb_state
          → find_peer name q ≡ some new_peer
          → (send_to_peer name message context_id now later client q).1 ≡ (
              if (is_peer_down name now pm).1
              then ok (broken name)
              else answer_to name (client (new_call message context_id)))
      answer q e found =
          send_to_peer-answer name message context_id now later client q new_peer found
          ∙ rw
              (
                is_peer_down-cb_state name now q pm e,
                after_send-answer_to name later (client (call_for new_peer message context_id)) q,
                token_or_none-given auth_token,
              )
              refl
