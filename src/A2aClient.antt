-- ===== src/A2aClient.antt =====
-- src/hermes_a2a/a2a_client.py: the client for peers. The A2A SDK is an argument: what the card
-- resolver, the client factory and the stream of a client give or raise. The log lists what was opened
-- and closed, oldest first. The proofs are in the children.
pub mod Wrapping
pub mod Resources
use hermes_a2a_v.Prelude.{
  ℕ, ◌+◌, String, Bool, true, false, Option, none, some, List, [], ◌∷◌, ◌++◌, truthy, if◌then◌else◌,
  Result, ok, raise,
}
use hermes_a2a_v.Dict.{Dict}
use hermes_a2a_v.Text.{◌⧺◌, remove_all}
use hermes_a2a_v.PeerManager.{Info, ClientError, client_error, other_error}

-- `http_opened n` is an `httpx.AsyncClient`; the last three are about SDK clients, the last one about a
-- call of `close` that raised.
pub data Resource : Type 0 where
  http_opened http_closed created client_closed close_failed : ℕ → Resource

-- `_httpx_client` is the number of the client that is kept; `next` numbers what is opened.
pub record A2aClient : Type 0 where
  pub timeout : ℕ
  pub httpx_client : Option ℕ
  pub next : ℕ
  pub resources : List Resource

unfoldable pub init : ℕ → A2aClient
init timeout = record { timeout = timeout; httpx_client = none; next = 0; resources = [] }

-- A resource with the next number
opened : (ℕ → Resource) → A2aClient → A2aClient
opened kind c = record c { next = c.next + 1; resources = c.resources ++ kind c.next ∷ [] }

logged : Resource → A2aClient → A2aClient
logged r c = record c { resources = c.resources ++ r ∷ [] }

-- `_get_httpx`
unfoldable pub get_httpx : A2aClient → A2aClient
unfolding opened
get_httpx c = elim c.httpx_client [
  | some n ↦ c
  | none ↦ record (opened http_opened c) { httpx_client = some c.next }
]

-- `close`, with what `aclose` raised, if anything; then the client stays in `_httpx_client`.
unfoldable pub close : Option String → A2aClient → A2aClient × Result String (Unit {0})
unfolding logged
close (some exc) c = elim c.httpx_client [ none ↦ (c, ok tt) | some n ↦ (c, raise exc) ]
close none c = elim c.httpx_client [
  | none ↦ (c, ok tt)
  | some n ↦ (record (logged (http_closed n) c) { httpx_client = none }, ok tt)
]

-- An agent card, by what is read of it
pub record Card : Type 0 where
  pub name : String
  pub card_version : String
  pub description : String

-- The message of a request; an unset context is the empty text.
pub record Message : Type 0 where
  pub text : String
  pub context_id : String

-- A response of the stream: with a task, by its id and its state's number as a text, or without one
pub data Streamed : Type 0 where
  task : String → String → Streamed
  no_task : Streamed

-- The responses of a stream, and the exception that ends it, if one does
abbrev pub Stream : Type 0
Stream = List Streamed × Option String

-- A client of the SDK; `close_error` is what its `close` raises, if anything.
pub record Client : Type 0 where
  pub send : Message → Stream
  pub close_error : Option String

-- The A2A SDK
pub record Sdk : Type 0 where
  pub get_agent_card : String → Result String Card
  pub create : Card → Result String Client

unfoldable pub card_info : Result String Card → Result ClientError Info
card_info (ok card) =
    ok (
      ("name", card.name) ∷ ("version", card.card_version) ∷ ("description", card.description) ∷ [])
card_info (raise exc) = raise (client_error ("Agent discovery failed: " ⧺ exc))

unfoldable pub discover_agent : Sdk → String → A2aClient → A2aClient × Result ClientError Info
unfolding get_httpx card_info
discover_agent sdk agent_card_url c = (
  get_httpx c,
  card_info (sdk.get_agent_card (remove_all "/.well-known/agent-card.json" agent_card_url)),
)

-- `if context_id:`
context_or_empty : Option String → String
context_or_empty none = ""
context_or_empty (some context_id) = context_id

-- The loop over the stream: the last task, over the one so far
last_task : Option (String × String) → List Streamed → Option (String × String)
last_task found [] = found
last_task found (task id state ∷ more) = last_task (some (id, state)) more
last_task found (no_task ∷ more) = last_task found more

result_of : Option (String × String) → Result ClientError Info
result_of none = raise (client_error "No task returned from remote agent")
result_of (some (id, state)) = ok (("task_id", id) ∷ ("state", state) ∷ [])

failed : String → Result ClientError Info
failed exc = raise (client_error ("Message sending failed: " ⧺ exc))

unfoldable pub streamed : Stream → Result ClientError Info
unfolding last_task result_of failed
streamed (responses, some exc) = failed exc
streamed (responses, none) = result_of (last_task none responses)

-- `await client.close()`, with its exception dropped
close_client : ℕ → Option String → A2aClient → A2aClient
unfolding logged
close_client n none c = logged (client_closed n) c
close_client n (some exc) c = logged (close_failed n) c

-- The rest of `send_message`, once the factory has answered; the client that it made is closed on all
-- ways out.
with_client : Message → Result String Client → A2aClient → A2aClient × Result ClientError Info
unfolding failed streamed opened close_client
with_client msg (raise exc) c = (c, failed exc)
with_client msg (ok client) c =
    (close_client c.next client.close_error (opened created c), streamed (client.send msg))

with_card : Sdk → Message → Result String Card → A2aClient → A2aClient × Result ClientError Info
unfolding with_client failed
with_card sdk msg (raise exc) c = (c, failed exc)
with_card sdk msg (ok card) c = with_client msg (sdk.create card) c

-- `send_message`; `auth_token` is not used.
unfoldable pub send_message :
    Sdk
    → String
    → String
    → Option String
    → Option String
    → A2aClient
    → A2aClient × Result ClientError Info
unfolding get_httpx with_card context_or_empty
send_message sdk agent_url message context_id auth_token c =
    with_card sdk (record { text = message; context_id = context_or_empty context_id })
      (sdk.get_agent_card agent_url) (get_httpx c)
