-- ===== src/Server/Relays.antt =====
-- The relay route together with the admin API's routes over peers.
use hermes_a2a_v.Prelude.{
  ℕ, ◌≡◌, refl, String, true, not, Option, none, some, List, [], ◌∷◌, arith, truthy, select,
  find_first, raise, Result,
}
use hermes_a2a_v.Dict.{string_eq}
use hermes_a2a_v.Text.{◌⧺◌}
use hermes_a2a_v.PeerManager.{
  PeerConfig, Info, ClientError, SendCall, find_peer, serves, send_to_peer,
}
use hermes_a2a_v.AdminApi.{peers_remove, named}
use hermes_a2a_v.AdminApi.Peers.{peers_remove-peers_config}
use hermes_a2a_v.App.{App, peer_error}
use hermes_a2a_v.Server.Endpoints.{RelayBody, relay_message_endpoint}

-- A body with a peer and a message
unfoldable pub relay_body : String → String → Option String → RelayBody
relay_body peer_name message context_id = record {
  peer_name = some peer_name;
  message = some message;
  context_id = context_id;
}

serves-select :
    (name : String) (ps : List PeerConfig)
    → find_first (serves name) (select (λ p. not (named name p)) ps) ≡ none
serves-select name [] = refl
serves-select name (p ∷ ps) = ground (arith, serves-select name ps)

-- After the admin API has removed a name, whether or not a peer had it, a relay to that name raises the
-- manager's error for an unknown peer and changes nothing, whatever the A2A client would have answered.
pub removed_not_relayed :
    (app : App) (name message : String) (context_id : Option String) (now later : ℕ)
    (client : SendCall → Result ClientError Info)
    → truthy name ≡ true
    → truthy message ≡ true
    → let app' : App = record app { peer_manager = (peers_remove name app.peer_manager).0 } in
      relay_message_endpoint (relay_body name message context_id) now later client app'
      ≡ (app', raise (peer_error ("Peer '" ⧺ name ⧺ "' not found or disabled")))
unfolding relay_message_endpoint relay_body send_to_peer find_peer
removed_not_relayed app name message context_id now later client hn hm =
    rw
      (
        hn,
        hm,
        peers_remove-peers_config name app.peer_manager,
        serves-select name app.peer_manager.peers_config,
      )
      refl
