-- ===== src/PeerManager.antt =====
-- src/hermes_a2a/peer_manager.py and `PeerConfig` of models.py: peers, the sends to them, and the
-- circuit breaker. Readings of `time.monotonic()` are arguments, in milliseconds. What a call of the
-- A2A client returned or raised is an argument too. Discovery holds the health checks, the lists and the
-- discovery; the proofs are in the other children.
pub mod Discovery
pub mod Breaker
pub mod Sending
use hermes_a2a_v.Prelude.{
  ℕ, ◌+◌, String, Bool, true, false, not, ◌&&◌, Option, none, some, List, [], ◌∷◌, map, str_eq, leb,
  truthy, if◌then◌else◌, find_first, select, Result, ok, raise,
}
use hermes_a2a_v.Dict.{Dict, get, put, pop, has_key, string_eq}
use hermes_a2a_v.Text.{◌⧺◌, remove_all}

pub record PeerConfig : Type 0 where
  pub name : String
  pub agent_card_url : String
  pub auth_token : String
  pub enabled : Bool

-- The dicts with text values that describe a peer.
abbrev pub Info : Type 0
Info = Dict String String

-- An entry of `_cb_state`; `down_until` in milliseconds.
pub record CbEntry : Type 0 where
  pub failures : ℕ
  pub down_until : Option ℕ

pub record PeerManager : Type 0 where
  pub peers_config : List PeerConfig
  pub discovered : Dict String Info
  pub cb_state : Dict String CbEntry

abbrev pub failure_threshold : ℕ
failure_threshold = 3

-- `_COOLDOWN_SECONDS`, in milliseconds
abbrev pub cooldown : ℕ
cooldown = 60000

unfoldable pub init : List PeerConfig → PeerManager
init peers_config = record { peers_config = peers_config; discovered = []; cb_state = [] }

unfoldable pub cb_record_success : String → PeerManager → PeerManager
cb_record_success name pm = record pm { cb_state = pop name pm.cb_state }

-- `setdefault(name, {"failures": 0, "down_until": None})`
pub entry_or_new : Option CbEntry → CbEntry
entry_or_new none = record { failures = 0; down_until = none }
entry_or_new (some entry) = entry

pub count_failure : ℕ → CbEntry → CbEntry
count_failure now entry =
    let failures = entry.failures + 1 in
    if leb failure_threshold failures
    then record { failures = failures; down_until = some (now + cooldown) }
    else record entry { failures = failures }

unfoldable pub cb_record_failure : String → ℕ → PeerManager → PeerManager
unfolding entry_or_new count_failure
cb_record_failure name now pm = record pm {
  cb_state = put name (count_failure now (entry_or_new (get name pm.cb_state))) pm.cb_state;
}

down_by : String → ℕ → PeerManager → Option ℕ → PeerManager × Bool
down_by name now pm none = (pm, false)
down_by name now pm (some down_until) =
    if leb down_until now
    then (record pm { cb_state = pop name pm.cb_state }, false)
    else (pm, true)

down_entry : String → ℕ → PeerManager → Option CbEntry → PeerManager × Bool
unfolding down_by
down_entry name now pm none = (pm, false)
down_entry name now pm (some state) = down_by name now pm state.down_until

-- The new state, and whether the peer is circuit-broken.
unfoldable pub is_peer_down : String → ℕ → PeerManager → PeerManager × Bool
unfolding down_entry
is_peer_down name now pm = down_entry name now pm (get name pm.cb_state)

-- The loop of `peer_status`, each turn at its own reading of the clock.
unfoldable pub status_loop :
    List PeerConfig
    → (ℕ → ℕ)
    → ℕ
    → Dict String String
    → PeerManager
    → PeerManager × Dict String String
status_loop [] clock i result pm = (pm, result)
status_loop (p ∷ rest) clock i result pm =
    let (pm', down) = is_peer_down p.name (clock i) pm in
    if p.enabled
    then status_loop rest clock (i + 1) (put p.name (if down then "down" else "up") result) pm'
    else status_loop rest clock i result pm

unfoldable pub peer_status : (ℕ → ℕ) → PeerManager → PeerManager × Dict String String
unfolding status_loop
peer_status clock pm = status_loop pm.peers_config clock 0 [] pm

-- `p.name == name and p.enabled`
abbrev pub serves : String → PeerConfig → Bool
serves name p = str_eq p.name name && p.enabled

-- `next((p for p in self.peers_config if p.name == name and p.enabled), None)`
unfoldable pub find_peer : String → PeerManager → Option PeerConfig
find_peer name pm = find_first (serves name) pm.peers_config

-- What a call of the A2A client raised: its own error, or another exception.
pub data ClientError : Type 0 where
  client_error : String → ClientError
  other_error : String → ClientError

-- The dict that `send_to_peer` returns, by the parts it is put together from: `success` and `error`, then
-- the items of the client's result in `details`, then `peer_name`.
pub record SendResult : Type 0 where
  pub success : Bool
  pub error : Option String
  pub details : Info
  pub peer_name : String

-- `peer.auth_token or None`
unfoldable pub token_or_none : String → Option String
token_or_none t = if truthy t then some t else none

pub record SendCall : Type 0 where
  pub agent_url : String
  pub message : String
  pub context_id : Option String
  pub auth_token : Option String

-- The call of the A2A client that a peer's configuration gives
unfoldable pub call_for : PeerConfig → String → Option String → SendCall
unfolding token_or_none
call_for peer message context_id = record {
  agent_url = remove_all "/.well-known/agent-card.json" peer.agent_card_url;
  message = message;
  context_id = context_id;
  auth_token = token_or_none peer.auth_token;
}

-- `try ... except A2AClientError`; `later` is the clock when a failure is recorded. Another exception
-- leaves the method.
unfoldable pub after_send :
    String → ℕ → Result ClientError Info → PeerManager → PeerManager × Result String SendResult
after_send peer_name later (ok result) pm = (
  cb_record_success peer_name pm,
  ok (record { success = true; error = none; details = result; peer_name = peer_name }),
)
after_send peer_name later (raise (client_error exc)) pm = (
  cb_record_failure peer_name later pm,
  ok (record { success = false; error = some exc; details = []; peer_name = peer_name }),
)
after_send peer_name later (raise (other_error exc)) pm = (pm, raise exc)

unfoldable pub broken : String → SendResult
broken peer_name = record {
  success = false;
  error = some ("Peer '" ⧺ peer_name ⧺ "' is marked down (circuit breaker)");
  details = [];
  peer_name = peer_name;
}

send_found :
    String
    → String
    → Option String
    → ℕ
    → ℕ
    → (SendCall → Result ClientError Info)
    → PeerManager
    → Option PeerConfig
    → PeerManager × Result String SendResult
unfolding broken after_send
send_found peer_name message context_id now later client pm none =
    (pm, raise ("Peer '" ⧺ peer_name ⧺ "' not found or disabled"))
send_found peer_name message context_id now later client pm (some peer) =
    let (pm', down) = is_peer_down peer_name now pm in
    let (pm'', sent) = after_send peer_name later (client (call_for peer message context_id)) pm' in
    if down then (pm', ok (broken peer_name)) else (pm'', sent)

-- `client` is what the A2A client answers to the call.
unfoldable pub send_to_peer :
    String
    → String
    → Option String
    → ℕ
    → ℕ
    → (SendCall → Result ClientError Info)
    → PeerManager
    → PeerManager × Result String SendResult
unfolding send_found
send_to_peer peer_name message context_id now later client pm =
    send_found peer_name message context_id now later client pm (find_peer peer_name pm)
