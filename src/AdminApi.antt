-- ===== src/AdminApi.antt =====
-- src/hermes_a2a/admin_api.py: the routes of the admin API over peers. The body of a request is
-- given as far as it has the types that `PeerConfig` takes. The routes over tasks and metrics, and
-- the proofs, are in the children.
pub mod Tasks
pub mod Metrics
pub mod Peers
pub mod Removal
pub mod Filters
pub mod Counts
use hermes_a2a_v.Prelude.{
  ℕ, String, Bool, true, false, not, Option, none, some, List, [], ◌∷◌, ◌++◌, str_eq, truthy,
  if◌then◌else◌, find_first, select, length, is_some, Result, ok, raise, ◌==◌,
}
use hermes_a2a_v.Dict.{Dict, get, put, pop, string_eq}
use hermes_a2a_v.Text.{◌⧺◌}
use hermes_a2a_v.PeerManager.{PeerManager, PeerConfig, Info, ClientError, find_peer}
use hermes_a2a_v.PeerManager.Discovery.{discover_one}
use hermes_a2a_v.PeerManager.Discovery.{list_peers}
use hermes_a2a_v.App.{Response, reply, refuse, AppError, peer_error}

-- GET /admin/peers
unfoldable pub peers_list : PeerManager → Response (List Info)
unfolding list_peers
peers_list pm = reply 200 (list_peers pm)

-- The JSON body of POST /admin/peers; a missing key is `none`.
pub record AddPeer : Type 0 where
  pub name : Option String
  pub agent_card_url : Option String
  pub auth_token : Option String
  pub enabled : Option Bool

-- `{"message": ..., "peer": {"name": ..., "agent_card_url": ...}}`
pub record Added : Type 0 where
  pub message : String
  pub name : String
  pub agent_card_url : String

or_default {ℓ} : {A : Type ℓ} → A → Option A → A
or_default d none = d
or_default d (some a) = a

-- `not value`, of a text that may be missing
missing : Option String → Bool
missing none = true
missing (some s) = not (truthy s)

-- The peer that a request describes
unfoldable pub peer_of : String → String → AddPeer → PeerConfig
unfolding or_default
peer_of name agent_card_url request = record {
  name = name;
  agent_card_url = agent_card_url;
  auth_token = or_default "" request.auth_token;
  enabled = or_default true request.enabled;
}

-- `p.name == name`
abbrev pub named : String → PeerConfig → Bool
named name p = str_eq p.name name

-- The rest of the handler, once name and URL are there
add_named : String → String → AddPeer → PeerManager → PeerManager × Response Added
unfolding peer_of
add_named name agent_card_url request pm =
    if is_some (find_first (named name) pm.peers_config)
    then (pm, refuse 409 ("Peer '" ⧺ name ⧺ "' already exists"))
    else (
      record pm { peers_config = pm.peers_config ++ peer_of name agent_card_url request ∷ [] },
      reply 201 (record {
        message = "Peer '" ⧺ name ⧺ "' added";
        name = name;
        agent_card_url = agent_card_url;
      }),
    )

-- POST /admin/peers
unfoldable pub peers_add : AddPeer → PeerManager → PeerManager × Response Added
unfolding add_named missing or_default
peers_add request pm =
    let name = or_default "" request.name in
    let agent_card_url = or_default "" request.agent_card_url in
    if missing request.name
    then (pm, refuse 400 "Missing required fields: name, agent_card_url")
    else if missing request.agent_card_url
    then (pm, refuse 400 "Missing required fields: name, agent_card_url")
    else add_named name agent_card_url request pm

-- DELETE /admin/peers/{name}
unfoldable pub peers_remove : String → PeerManager → PeerManager × Response String
peers_remove peer_name pm =
    let kept = select (λ p. not (named peer_name p)) pm.peers_config in
    let pm' = record pm { peers_config = kept; discovered = pop peer_name pm.discovered } in
    if length kept == length pm.peers_config
    then (pm', refuse 404 ("Peer '" ⧺ peer_name ⧺ "' not found"))
    else (pm', reply 200 ("Peer '" ⧺ peer_name ⧺ "' removed"))

-- `result.get("status") != "error"`
is_error : Option String → Bool
is_error none = false
is_error (some status) = str_eq status "error"

-- The end of the handler, with what `_discover_one` returned
checked : String → PeerManager → Result String Info → PeerManager × Result AppError (Response Info)
unfolding is_error
checked peer_name pm (raise e) = (pm, raise (peer_error e))
checked peer_name pm (ok result) =
    if is_error (get "status" result)
    then (pm, ok (reply 200 result))
    else (record pm { discovered = put peer_name result pm.discovered }, ok (reply 200 result))

check_found :
    String
    → (String → Result ClientError Info)
    → PeerManager
    → Option PeerConfig
    → PeerManager × Result AppError (Response Info)
unfolding checked
check_found peer_name discover_agent pm none =
    (pm, ok (refuse 404 ("Peer '" ⧺ peer_name ⧺ "' not found or disabled")))
check_found peer_name discover_agent pm (some peer) =
    checked peer_name pm (discover_one peer (discover_agent peer.agent_card_url))

-- POST /admin/peers/{name}/check; `discover_agent` is what the A2A client answers.
unfoldable pub peers_check :
    String
    → (String → Result ClientError Info)
    → PeerManager
    → PeerManager × Result AppError (Response Info)
unfolding check_found find_peer
peers_check peer_name discover_agent pm =
    check_found peer_name discover_agent pm (find_peer peer_name pm)
