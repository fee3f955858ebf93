-- ===== src/Scenarios/Outside.antt =====
-- Runs of the skill router, of `decompose`, of the A2A client and of the certificate check.
use hermes_a2a_v.Prelude.{
  ℕ, ◌<◌, ◌≤◌, ◌≡◌, refl, String, Bool, true, ◌&&◌, none, some, List, [], ◌∷◌, ok, map, arith, leb,
  if◌then◌else◌,
}
use hermes_a2a_v.Dict.{string_eq}
use hermes_a2a_v.Text.{strip, str_nat}
use hermes_a2a_v.SkillRouter.{init, PeerInfo, named, match_all, score_peer}
use hermes_a2a_v.SkillRouter.Ranking.{Call, succeeds, fails, begins, run, skill_dominates}
use hermes_a2a_v.Orchestrator.Decompose.{decompose}
use hermes_a2a_v.Orchestrator.Visible.{visible, visible_all}
use hermes_a2a_v.Orchestrator.Lossless.{decompose_lossless}
use hermes_a2a_v.PeerManager.{PeerManager, PeerConfig, SendResult, send_to_peer, find_peer}
use hermes_a2a_v.A2aClient
use hermes_a2a_v.A2aClient.{A2aClient, Sdk, task}
use hermes_a2a_v.A2aClient.Resources
use hermes_a2a_v.A2aClient.Wrapping.{calling, known_peer_answers}
use hermes_a2a_v.A2aClient.Resources.{discovers, sends, closes, IsAccounted, run-IsAccounted}
use hermes_a2a_v.TlsConfig.{rstrip_gmt, verify_certificate, finished}
use hermes_a2a_v.TlsConfig.Dates.{gmt_never_expires}

abbrev keywords : List String
keywords = "python" ∷ "review" ∷ []

abbrev coder : PeerInfo
coder = record { name = some "coder"; skills = named (some "python") ∷ []; tags = [] }

abbrev singer : PeerInfo
singer = record { name = some "singer"; skills = named (some "music") ∷ []; tags = [] }

abbrev past : List Call
past = succeeds "singer" ∷ fails "coder" ∷ begins "coder" ∷ []

-- All or nothing
abbrev round_rate : ℕ → ℕ → ℕ
round_rate s t = if leb t s then 10000 else 0

round_rate-le : (s t : ℕ) → s ≤ t → round_rate s t ≤ 10000
round_rate-le s t h = ground arith

skill_dominates_example :
    (score_peer (λ s. s) round_rate keywords singer (run past init)).score
    < (score_peer (λ s. s) round_rate keywords coder (run past init)).score
unfolding score_peer match_all
skill_dominates_example =
    skill_dominates (λ s. s) round_rate round_rate-le past keywords coder singer (omega arith)
      (omega arith)

abbrev is_decimal : ℕ → Bool
is_decimal n = leb 48 n && leb n 57

decompose_lossless_example :
    visible_all (
      map
        (λ t. t.description)
        (decompose is_decimal str_nat " Find it. Fix it!\nTest it. " "sequential"))
    ≡ visible " Find it. Fix it!\nTest it. "
decompose_lossless_example =
    decompose_lossless is_decimal str_nat " Find it. Fix it!\nTest it. " "sequential"

-- A split, and two lines that are not split
decompose_test :
    map (λ t. t.description) (decompose is_decimal str_nat "Find it. Fix it!" "sequential")
    ≡ "Find it." ∷ "Fix it!" ∷ []
unfolding decompose
decompose_test = refl

decompose_lines_test :
    map (λ t. t.description) (decompose is_decimal str_nat "find it\nfix it" "sequential")
    ≡ "find it\nfix it" ∷ []
unfolding decompose
decompose_lines_test = refl

abbrev sdk : Sdk
sdk = record {
  get_agent_card = λ url. ok (record { name = "a"; card_version = "1"; description = "" });
  create = λ card. ok (record {
    send = λ msg. (task "t1" "2" ∷ [], some "connection lost");
    close_error = some "closed already";
  });
}

abbrev peer : PeerConfig
peer = record { name = "alpha"; agent_card_url = "http://a"; auth_token = ""; enabled = true }

abbrev peers : PeerManager
peers = record { peers_config = peer ∷ []; discovered = []; cb_state = [] }

known_peer_answers_example :
    (sent : SendResult) × ((send_to_peer "alpha" "hello" none 5 9
        (calling sdk (A2aClient.init 30))
        peers).1
      ≡ ok sent)
unfolding find_peer
known_peer_answers_example =
    known_peer_answers sdk (A2aClient.init 30) "alpha" "hello" none 5 9 peers peer refl

abbrev client_calls : List Resources.Call
client_calls = discovers "http://a" ∷ sends "http://a" "hello" none none ∷ closes none ∷ []

run-IsAccounted_example :
    IsAccounted
      (Resources.run sdk client_calls (A2aClient.init 30)).httpx_client
      (Resources.run sdk client_calls (A2aClient.init 30)).resources
run-IsAccounted_example = run-IsAccounted sdk 30 client_calls

-- The certificate expired in 2020, and the time is in 2026.
gmt_never_expires_example :
    verify_certificate
      (λ s. none)
      (λ s. some 1590537600)
      1780000000
      true
      (finished 0 "notAfter=May 27 00:00:00 2020 GMT\n")
    ≡ ok true
unfolding strip rstrip_gmt
gmt_never_expires_example =
    gmt_never_expires (λ s. none) (λ s. some 1590537600) 1780000000 "May 27 00:00:00 2020 "
      "notAfter=May 27 00:00:00 2020 GMT\n" refl refl
