-- ===== src/PeerManager/Discovery.antt =====
-- src/hermes_a2a/peer_manager.py: health checks, listing and discovery of peers.
use hermes_a2a_v.Prelude.{
  String, Bool, true, false, Option, none, some, List, [], ◌∷◌, map, select, Result, ok, raise,
}
use hermes_a2a_v.Dict.{Dict, get, put, string_eq}
use hermes_a2a_v.PeerManager.{
  ClientError, client_error, other_error, Info, PeerConfig, PeerManager, find_peer,
}

-- The four keys of `check_peer_health`'s answer, less the two times.
unfoldable pub health_of : Option PeerConfig → (String → Result String Info) → Bool
health_of none discover_agent = false
health_of (some peer) discover_agent = elim (discover_agent peer.agent_card_url) [
  | ok card ↦ true
  | raise e ↦ false
]

unfoldable pub check_peer_health :
    String → (String → Result String Info) → PeerManager → String × Bool
unfolding health_of find_peer
check_peer_health name discover_agent pm = (name, health_of (find_peer name pm) discover_agent)

-- `{**d, ...}` and `d.update(...)`: the second dict's items, put into the first one by one
unfoldable pub update : Info → Info → Info
update d [] = d
update d ((k, v) ∷ more) = update (put k v d) more

-- One turn of the loop of `list_peers`
listed : Dict String Info → PeerConfig → Info
unfolding update
listed discovered p =
    let info =
      ("name", p.name) ∷ ("agent_card_url", p.agent_card_url) ∷ ("status", "unknown") ∷ [] in
    elim (get p.name discovered) [ none ↦ info | some found ↦ update info found ]

unfoldable pub list_peers : PeerManager → List Info
unfolding listed
list_peers pm = map (listed pm.discovered) (select (λ p. p.enabled) pm.peers_config)

unfoldable pub discover_one : PeerConfig → Result ClientError Info → Result String Info
unfolding update
discover_one peer (ok card) = ok (update card (("name", peer.name) ∷ ("status", "available") ∷ []))
discover_one peer (raise (client_error exc)) =
    ok (("name", peer.name) ∷ ("status", "unreachable") ∷ ("error", exc) ∷ [])
discover_one peer (raise (other_error exc)) = raise exc

-- One turn of the loop over the gathered results
gathered : PeerConfig → Result String Info → PeerManager → PeerManager × Info
gathered peer (raise r) pm = (pm, ("name", peer.name) ∷ ("status", "error") ∷ ("error", r) ∷ [])
gathered peer (ok r) pm = (record pm { discovered = put peer.name r pm.discovered }, r)

unfoldable pub discover_loop :
    List PeerConfig → (String → Result ClientError Info) → PeerManager → PeerManager × List Info
unfolding gathered discover_one
discover_loop [] discover_agent pm = (pm, [])
discover_loop (p ∷ rest) discover_agent pm =
    let (pm', info) = gathered p (discover_one p (discover_agent p.agent_card_url)) pm in
    let (pm'', infos) = discover_loop rest discover_agent pm' in (pm'', info ∷ infos)

unfoldable pub discover_all :
    (String → Result ClientError Info) → PeerManager → PeerManager × List Info
unfolding discover_loop
discover_all discover_agent pm =
    discover_loop (select (λ p. p.enabled) pm.peers_config) discover_agent pm
