-- ===== src/AdminApi/Peers.antt =====
-- What the admin API's routes over peers keep, undo and leave behind.
use hermes_a2a_v.Prelude.{
  ◌≡◌, refl, ◌∙◌, inl, inr, String, false, not, Option, none, some, List, [], ◌∷◌, ◌++◌, str_eq,
  eq_iff, if◌then◌else◌, arith, select, find_first, is_some, Bool-cases, ok, raise,
}
use hermes_a2a_v.Dict.{pop, string_eq}
use hermes_a2a_v.PeerManager.{PeerManager, PeerConfig, Info, ClientError, find_peer}
use hermes_a2a_v.AdminApi.{
  check_found, checked, missing, add_named, Result, AddPeer, peers_add, peers_remove, peers_check,
  named, peer_of,
}

-- No two peers have one name.
unfoldable pub IsUnique : List PeerConfig → Type 0
IsUnique [] = Unit
IsUnique (p ∷ ps) = (find_first (named p.name) ps ≡ none) × IsUnique ps

pub find_first-append :
    (name : String) (ps : List PeerConfig) (p : PeerConfig)
    → find_first (named name) (ps ++ p ∷ []) ≡ (
        if is_some (find_first (named name) ps)
        then find_first (named name) ps
        else if named name p
        then some p
        else none)
find_first-append name [] p = ground arith
find_first-append name (q ∷ ps) p = ground (arith, find_first-append name ps p)

append-IsUnique :
    (ps : List PeerConfig) (p : PeerConfig)
    → IsUnique ps
    → is_some (find_first (named p.name) ps) ≡ false
    → IsUnique (ps ++ p ∷ [])
unfolding IsUnique
append-IsUnique [] p u h = (refl, tt)
append-IsUnique (q ∷ ps) p u h = (
  ground (arith, find_first-append q.name ps p, u.0, eq_iff p.name q.name, eq_iff q.name p.name),
  append-IsUnique ps p u.1 (ground arith),
)

pub find_first-select :
    (name other : String) (ps : List PeerConfig)
    → find_first (named name) (select (λ p. not (named other p)) ps)
      ≡ (if str_eq name other then none else find_first (named name) ps)
find_first-select name other [] = ground arith
find_first-select name other (p ∷ ps) = ground (
  arith,
  find_first-select name other ps,
  eq_iff p.name other,
  eq_iff p.name name,
  eq_iff name other,
)

remove-IsUnique :
    (name : String) (ps : List PeerConfig)
    → IsUnique ps
    → IsUnique (select (λ p. not (named name p)) ps)
unfolding IsUnique
remove-IsUnique name [] u = tt
remove-IsUnique name (p ∷ ps) u = elim (Bool-cases (str_eq p.name name)) [
  | inl e ↦ rw e (remove-IsUnique name ps u.1)
  | inr e ↦
      rw e (find_first-select p.name name ps ∙ ground (arith, u.0), remove-IsUnique name ps u.1)
]

-- The routes that change the peer manager
pub data AdminCall : Type 0 where
  adds : AddPeer → AdminCall
  removes : String → AdminCall
  checks : String → (String → Result ClientError Info) → AdminCall

unfoldable pub step : AdminCall → PeerManager → PeerManager
step (adds request) pm = (peers_add request pm).0
step (removes name) pm = (peers_remove name pm).0
step (checks name discover_agent) pm = (peers_check name discover_agent pm).0

unfoldable pub run : List AdminCall → PeerManager → PeerManager
unfolding step
run [] pm = pm
run (c ∷ cs) pm = run cs (step c pm)

add_named-IsUnique :
    (name url : String) (request : AddPeer) (pm : PeerManager)
    → IsUnique pm.peers_config
    → IsUnique (add_named name url request pm).0.peers_config
unfolding add_named peer_of
add_named-IsUnique name url request pm u =
    elim (Bool-cases (is_some (find_first (named name) pm.peers_config))) [
      | inl e ↦ rw e u
      | inr e ↦ rw e (append-IsUnique pm.peers_config (peer_of name url request) u (peer_named e))
    ]
  where
    peer_named :
        is_some (find_first (named name) pm.peers_config) ≡ false
        → is_some (find_first (named (peer_of name url request).name) pm.peers_config) ≡ false
    peer_named e = e

peers_add-IsUnique :
    (request : AddPeer) (pm : PeerManager)
    → IsUnique pm.peers_config
    → IsUnique (peers_add request pm).0.peers_config
unfolding peers_add
peers_add-IsUnique request pm u = elim (Bool-cases (missing request.name)) [
  | inl e ↦ rw e u
  | inr e ↦ rw e (elim (Bool-cases (missing request.agent_card_url)) [
    | inl e' ↦ rw e' u
    | inr e' ↦ rw e' (add_named-IsUnique _ _ request pm u)
  ])
]

pub peers_remove-peers_config :
    (name : String) (pm : PeerManager)
    → (peers_remove name pm).0 ≡ record pm {
      peers_config = select (λ p. not (named name p)) pm.peers_config;
      discovered = pop name pm.discovered;
    }
unfolding peers_remove
peers_remove-peers_config name pm = ground arith

checked-peers_config :
    (name : String) (pm : PeerManager) (r : Result String Info)
    → (checked name pm r).0.peers_config ≡ pm.peers_config
unfolding checked
checked-peers_config name pm (raise e) = refl
checked-peers_config name pm (ok info) = ground arith

peers_check-peers_config :
    (name : String) (discover_agent : String → Result ClientError Info) (pm : PeerManager)
    → (peers_check name discover_agent pm).0.peers_config ≡ pm.peers_config
unfolding peers_check check_found
peers_check-peers_config name discover_agent pm = go (find_peer name pm)
  where
    go :
        (o : Option PeerConfig)
        → (check_found name discover_agent pm o).0.peers_config ≡ pm.peers_config
    go none = refl
    go (some p) = checked-peers_config name pm _

step-IsUnique :
    (c : AdminCall) (pm : PeerManager)
    → IsUnique pm.peers_config
    → IsUnique (step c pm).peers_config
unfolding step
step-IsUnique (adds request) pm u = peers_add-IsUnique request pm u
step-IsUnique (removes name) pm u =
    rw (peers_remove-peers_config name pm) (remove-IsUnique name pm.peers_config u)
step-IsUnique (checks name discover_agent) pm u =
    rw (peers_check-peers_config name discover_agent pm) u

-- When no two peers have one name, any sequence of requests that add, remove and check peers, those
-- that are refused included, leaves no two peers with one name.
pub run-IsUnique :
    (calls : List AdminCall) (pm : PeerManager)
    → IsUnique pm.peers_config
    → IsUnique (run calls pm).peers_config
unfolding run
run-IsUnique [] pm u = u
run-IsUnique (c ∷ cs) pm u = run-IsUnique cs (step c pm) (step-IsUnique c pm u)
