-- ===== src/A2aClient/Resources.antt =====
-- Which resources of the client are open, by its log.
use hermes_a2a_v.Prelude.{
  ℕ, ◌≡◌, refl, String, Option, none, some, List, [], ◌∷◌, ◌++◌, if◌then◌else◌, arith, Result, ok,
  raise, inl, inr, Option-cases, sym, ap, ◌∙◌, subst,
}
use hermes_a2a_v.Distinct.{is_in, remove_first, nat_eq}
use hermes_a2a_v.A2aClient.{
  true, A2aClient, Sdk, Client, Message, Card, Resource, http_opened, http_closed, created,
  client_closed, close_failed, get_httpx, close, send_message, discover_agent, with_client,
  with_card, close_client, opened, logged, init,
}

-- The calls of one client; of a `close` with what `aclose` raised
pub data Call : Type 0 where
  discovers : String → Call
  sends : String → String → Option String → Option String → Call
  closes : Option String → Call

unfoldable pub step : Sdk → Call → A2aClient → A2aClient
unfolding send_message discover_agent
step sdk (discovers url) c = (discover_agent sdk url c).0
step sdk (sends url message context_id auth_token) c =
    (send_message sdk url message context_id auth_token c).0
step sdk (closes aclose) c = (close aclose c).0

unfoldable pub run : Sdk → List Call → A2aClient → A2aClient
unfolding step
run sdk [] c = c
run sdk (k ∷ ks) c = run sdk ks (step sdk k c)

-- The resources that are open: HTTP clients, and SDK clients
pub record Open : Type 0 where
  pub http : List ℕ
  pub sdk : List ℕ

-- One entry of the log; `none` where a resource is closed that is not open
unfoldable pub replay_one : Resource → Open → Option Open
unfolding is_in remove_first
replay_one (http_opened n) o = some (record o { http = n ∷ o.http })
replay_one (http_closed n) o =
    if is_in n o.http then some (record o { http = remove_first n o.http }) else none
replay_one (created n) o = some (record o { sdk = n ∷ o.sdk })
replay_one (client_closed n) o =
    if is_in n o.sdk then some (record o { sdk = remove_first n o.sdk }) else none
replay_one (close_failed n) o = if is_in n o.sdk then some o else none

unfoldable pub replay : List Resource → Open → Option Open
unfolding replay_one
replay [] o = some o
replay (r ∷ rs) o = elim (replay_one r o) [ none ↦ none | some o' ↦ replay rs o' ]

-- The SDK clients whose `close` raised, the last one first
unfoldable pub failures : List Resource → List ℕ → List ℕ
failures [] ns = ns
failures (close_failed n ∷ rs) ns = failures rs (n ∷ ns)
failures (http_opened n ∷ rs) ns = failures rs ns
failures (http_closed n ∷ rs) ns = failures rs ns
failures (created n ∷ rs) ns = failures rs ns
failures (client_closed n ∷ rs) ns = failures rs ns

-- The HTTP client that is kept
unfoldable pub kept : Option ℕ → List ℕ
kept none = []
kept (some n) = n ∷ []

-- By its log, the client closed only what was open, and what is open is the HTTP client it keeps and
-- the SDK clients whose `close` raised.
unfoldable pub IsAccounted : Option ℕ → List Resource → Type 0
IsAccounted httpx_client rs =
    replay rs (record { http = []; sdk = [] })
    ≡ some (record { http = kept httpx_client; sdk = failures rs [] })

replay_single : (r : Resource) (o : Open) → replay (r ∷ []) o ≡ replay_one r o
unfolding replay
replay_single r o = elim (Option-cases (replay_one r o)) [
  | inl e ↦ rw (e, replay) refl
  | inr (q, e) ↦ rw (e, replay) refl
]

replay-append :
    (rs : List Resource) (r : Resource) (o p : Open)
    → replay rs o ≡ some p
    → replay (rs ++ r ∷ []) o ≡ replay_one r p
unfolding replay
replay-append [] r o p h =
    let same : o ≡ p = ground (arith, h) in replay_single r o ∙ ap (replay_one r) same
replay-append (x ∷ rs) r o p h = elim (Option-cases (replay_one x o)) [
  | inl e ↦ absurd (ground (arith, h, e))
  | inr (q, e) ↦ rw (e, replay) (replay-append rs r q p (ground (arith, h, e)))
]

failures-append :
    (rs : List Resource) (r : Resource) (ns : List ℕ)
    → failures (rs ++ r ∷ []) ns ≡ failures (r ∷ []) (failures rs ns)
unfolding failures
failures-append [] r ns = refl
failures-append (close_failed n ∷ rs) r ns = failures-append rs r (n ∷ ns)
failures-append (http_opened n ∷ rs) r ns = failures-append rs r ns
failures-append (http_closed n ∷ rs) r ns = failures-append rs r ns
failures-append (created n ∷ rs) r ns = failures-append rs r ns
failures-append (client_closed n ∷ rs) r ns = failures-append rs r ns

abbrev Accounted : A2aClient → Type 0
Accounted c = IsAccounted c.httpx_client c.resources

init-Accounted : (timeout : ℕ) → Accounted (init timeout)
unfolding init IsAccounted replay failures kept
init-Accounted timeout = refl

-- One more entry
grow :
    (k k' : Option ℕ) (rs : List Resource) (r : Resource)
    → replay_one r (record { http = kept k; sdk = failures rs [] })
      ≡ some (record { http = kept k'; sdk = failures (r ∷ []) (failures rs []) })
    → IsAccounted k rs
    → IsAccounted k' (rs ++ r ∷ [])
unfolding IsAccounted
grow k k' rs r e h =
    replay-append rs r _ _ h
    ∙ e
    ∙ ap (λ ns. some (record { http = kept k'; sdk = ns })) (sym (failures-append rs r []))

in_front : (n : ℕ) (ns : List ℕ) → is_in n (n ∷ ns) ≡ true
unfolding is_in
in_front n ns = ground arith

open_lem :
    (n : ℕ) (rs : List Resource)
    → IsAccounted none rs
    → IsAccounted (some n) (rs ++ http_opened n ∷ [])
unfolding replay_one kept failures
open_lem n rs = grow none (some n) rs (http_opened n) refl

close_http :
    (n : ℕ) (rs : List Resource)
    → IsAccounted (some n) rs
    → IsAccounted none (rs ++ http_closed n ∷ [])
unfolding replay_one kept failures is_in remove_first
close_http n rs = grow (some n) none rs (http_closed n) (ground arith)

failures-created :
    (n : ℕ) (rs : List Resource) (r : Resource)
    → failures ((rs ++ created n ∷ []) ++ r ∷ []) [] ≡ failures (r ∷ []) (failures rs [])
unfolding failures
failures-created n rs r =
    failures-append (rs ++ created n ∷ []) r []
    ∙ ap (λ ns. failures (r ∷ []) ns) (failures-append rs (created n) [])

-- An SDK client that is made, and what its `close` comes to
made_and :
    (n : ℕ) (k : Option ℕ) (rs : List Resource) (r : Resource)
    → replay_one r (record { http = kept k; sdk = n ∷ failures rs [] })
      ≡ some (record { http = kept k; sdk = failures (r ∷ []) (failures rs []) })
    → IsAccounted k rs
    → IsAccounted k ((rs ++ created n ∷ []) ++ r ∷ [])
unfolding IsAccounted replay_one
made_and n k rs r e h =
    replay-append (rs ++ created n ∷ []) r _ _ (replay-append rs (created n) _ _ h)
    ∙ e
    ∙ ap (λ ns. some (record { http = kept k; sdk = ns })) (sym (failures-created n rs r))

use_client :
    (n : ℕ) (k : Option ℕ) (close_error : Option String) (c : A2aClient)
    → IsAccounted k c.resources
    → IsAccounted k (close_client n close_error (logged (created n) c)).resources
unfolding close_client logged replay_one failures is_in remove_first
use_client n k none c = made_and n k c.resources (client_closed n) (ground arith)
use_client n k (some exc) c = made_and n k c.resources (close_failed n) (ground arith)

get_httpx-IsAccounted : (c : A2aClient) → Accounted c → Accounted (get_httpx c)
unfolding get_httpx opened
get_httpx-IsAccounted c h = go c.httpx_client refl
  where
    go : (o : Option ℕ) → c.httpx_client ≡ o → Accounted (get_httpx c)
    go none e =
        rw (e, get_httpx) (open_lem c.next c.resources (subst (λ o. IsAccounted o c.resources) e h))
    go (some n) e = rw (e, get_httpx) h

close-IsAccounted :
    (aclose : Option String) (c : A2aClient) → Accounted c → Accounted (close aclose c).0
unfolding close logged
close-IsAccounted (some exc) c h = go c.httpx_client refl
  where
    go : (o : Option ℕ) → c.httpx_client ≡ o → Accounted (close (some exc) c).0
    go none e = rw (e, close) h
    go (some n) e = rw (e, close) h
close-IsAccounted none c h = go c.httpx_client refl
  where
    go : (o : Option ℕ) → c.httpx_client ≡ o → Accounted (close none c).0
    go none e = rw (e, close) h
    go (some n) e =
        rw (e, close) (close_http n c.resources (subst (λ o. IsAccounted o c.resources) e h))

with_client-IsAccounted :
    (msg : Message) (made : Result String Client) (c : A2aClient)
    → Accounted c
    → Accounted (with_client msg made c).0
unfolding with_client opened logged close_client
with_client-IsAccounted msg (raise exc) c h = h
with_client-IsAccounted msg (ok client) c h = go client.close_error
  where
    go : (e : Option String) → Accounted (close_client c.next e (opened created c))
    go none = use_client c.next c.httpx_client none c h
    go (some exc) = use_client c.next c.httpx_client (some exc) c h

with_card-IsAccounted :
    (sdk : Sdk) (msg : Message) (card : Result String Card) (c : A2aClient)
    → Accounted c
    → Accounted (with_card sdk msg card c).0
unfolding with_card
with_card-IsAccounted sdk msg (raise exc) c h = h
with_card-IsAccounted sdk msg (ok card) c h = with_client-IsAccounted msg (sdk.create card) c h

step-IsAccounted : (sdk : Sdk) (k : Call) (c : A2aClient) → Accounted c → Accounted (step sdk k c)
unfolding step send_message discover_agent
step-IsAccounted sdk (discovers url) c h = get_httpx-IsAccounted c h
step-IsAccounted sdk (sends url message context_id auth_token) c h =
    with_card-IsAccounted sdk _ _ (get_httpx c) (get_httpx-IsAccounted c h)
step-IsAccounted sdk (closes aclose) c h = close-IsAccounted aclose c h

run_keeps : (sdk : Sdk) (ks : List Call) (c : A2aClient) → Accounted c → Accounted (run sdk ks c)
unfolding run
run_keeps sdk [] c h = h
run_keeps sdk (k ∷ ks) c h = run_keeps sdk ks (step sdk k c) (step-IsAccounted sdk k c h)

-- After any calls on a new client, whatever the SDK answered or raised: it closed nothing that was not
-- open, and what is still open is the HTTP client that it keeps, if it keeps one, and the SDK clients
-- whose `close` raised; every other client that was created is closed.
pub run-IsAccounted :
    (sdk : Sdk) (timeout : ℕ) (ks : List Call)
    → IsAccounted (run sdk ks (init timeout)).httpx_client (run sdk ks (init timeout)).resources
run-IsAccounted sdk timeout ks = run_keeps sdk ks (init timeout) (init-Accounted timeout)
