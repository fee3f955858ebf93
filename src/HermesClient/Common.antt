-- ===== src/HermesClient/Common.antt =====
-- What both request loops of hermes_client.py share: errors, back-off schedules and headers.
use hermes_a2a_v.Prelude.{
  ℕ, zero, suc, String, Bool, Option, none, some, List, [], ◌∷◌, truthy, if◌then◌else◌,
}
use hermes_a2a_v.Dict.{Dict, put, string_eq}
use hermes_a2a_v.Text.{◌⧺◌}

-- The exceptions that leave the client: those of exceptions.py with their message and status code,
-- `http_status_error` of httpx with its status code, and any other exception by its text.
pub data HermesError : Type 0 where
  auth_error : String → ℕ → HermesError
  server_error : String → ℕ → HermesError
  connection_error : String → Option ℕ → HermesError
  http_status_error : ℕ → HermesError
  other_exception : String → HermesError

-- `_CONNECT_RETRY_DELAYS`, `_TIMEOUT_RETRY_DELAYS` and `_HTTP_RETRYABLE_DELAYS`, in seconds
abbrev pub connect_retry_delays : List ℕ
connect_retry_delays = 1 ∷ 2 ∷ 4 ∷ []

abbrev pub timeout_retry_delays : List ℕ
timeout_retry_delays = 1 ∷ 1 ∷ []

abbrev pub http_retryable_delays : List ℕ
http_retryable_delays = 1 ∷ 2 ∷ 4 ∷ []

-- `delays[n]`; the loops index only within the schedule, and the 0 beyond it is never used
abbrev pub delay_at : List ℕ → ℕ → ℕ
delay_at [] n = 0
delay_at (d ∷ ds) zero = d
delay_at (d ∷ ds) (suc n) = delay_at ds n

-- A pause between two attempts: of the schedule, or as long as the `Retry-After` header asks.
pub data Wait : Type 0 where
  scheduled : ℕ → Wait
  requested : String → Wait

with_auth : Option String → Dict String String → Dict String String
with_auth none headers = headers
with_auth (some key) headers =
    if truthy key then put "Authorization" ("Bearer " ⧺ key) headers else headers

with_accept : Bool → Dict String String → Dict String String
with_accept streaming headers =
    if streaming then put "Accept" "text/event-stream" headers else headers

-- `_build_headers`
unfoldable pub build_headers : Option String → Bool → Dict String String
unfolding with_auth with_accept
build_headers api_key streaming =
    with_auth api_key (with_accept streaming (put "Content-Type" "application/json" []))

-- `if session_id is not None: headers["X-Hermes-Session-Id"] = session_id`
unfoldable pub with_session : Option String → Dict String String → Dict String String
with_session none headers = headers
with_session (some session_id) headers = put "X-Hermes-Session-Id" session_id headers
