-- ===== src/Scenarios/Admin.antt =====
-- Runs of the admin API.
use hermes_a2a_v.Prelude.{
  arith, Result, ◌≡◌, refl, String, true, none, some, List, [], ◌∷◌, ok, if◌then◌else◌,
}
use hermes_a2a_v.Dict.{string_eq}
use hermes_a2a_v.PeerManager.{
  PeerManager, PeerConfig, Info, ClientError, SendCall, send_to_peer, is_peer_down, broken,
}
use hermes_a2a_v.TaskStore.{TaskDict, TaskStore, row_of, dict, text}
use hermes_a2a_v.AdminApi.{peers_add, peers_remove}
use hermes_a2a_v.AdminApi.Peers.{AdminCall, adds, removes, IsUnique, run, run-IsUnique}
use hermes_a2a_v.AdminApi.Removal.{answer_to, new_call, add_request, readd_then_send}
use hermes_a2a_v.AdminApi.Tasks.{TaskQuery}

abbrev alpha : PeerConfig
alpha = record { name = "alpha"; agent_card_url = "http://a"; auth_token = ""; enabled = true }

abbrev peers : PeerManager
peers = record { peers_config = alpha ∷ []; discovered = []; cb_state = [] }

-- A duplicate is refused, a new peer is added, the first one is removed.
abbrev calls : List AdminCall
calls =
    adds (record {
      name = some "alpha";
      agent_card_url = some "http://b";
      auth_token = none;
      enabled = none;
    })
    ∷ adds (record {
      name = some "beta";
      agent_card_url = some "http://b";
      auth_token = none;
      enabled = none;
    })
    ∷ removes "alpha"
    ∷ []

run-IsUnique_example : IsUnique (run calls peers).peers_config
unfolding IsUnique
run-IsUnique_example = run-IsUnique calls peers (refl, tt)

-- The breaker of the peer is open until 90000.
abbrev broken_peers : PeerManager
broken_peers = record peers {
  cb_state = ("alpha", record { failures = 3; down_until = some 90000 }) ∷ [];
}

abbrev client : SendCall → Result ClientError Info
client call = ok (("task_id", "t1") ∷ [])

readd_then_send_example :
    (send_to_peer "alpha" "hello" none 1000 2000 client
      (peers_add
        (add_request "alpha" "http://new" (some "t") none)
        (peers_remove "alpha" broken_peers).0).0).1
    ≡ (if (is_peer_down "alpha" 1000 broken_peers).1
        then ok (broken "alpha")
        else answer_to "alpha"
            (client (new_call "alpha" "http://new" (some "t") none "hello" none)))
readd_then_send_example =
    readd_then_send "alpha" "http://new" (some "t") none broken_peers "hello" none 1000 2000 client
      refl refl (ground arith)

abbrev task_of : String → TaskDict
task_of id = record {
  id = id;
  context_id = some "c1";
  status = dict (text "working");
  response = none;
}

abbrev store : TaskStore
store = record {
  connected = true;
  rows = ("t1", row_of (task_of "t1") 5) ∷ ("t2", row_of (task_of "t2") 9) ∷ [];
}

abbrev query : TaskQuery
query = record { status = some "working"; context_id = some "c1"; limit = some "1" }

abbrev listed : List TaskDict
listed = task_of "t2" ∷ task_of "t1" ∷ []
