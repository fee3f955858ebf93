-- ===== src/HermesClient/Request.antt =====
-- `_request_with_retry`, `send_message` and `health_check` of hermes_client.py.
use hermes_a2a_v.Dict.{Dict}
use hermes_a2a_v.Prelude.{
  zero, ◌∷◌, ◌++◌, false, [], suc, ℕ, ◌+◌, ◌-◌, String, Bool, ◌&&◌, ◌||◌, Option, none, some, List,
  leb, ltb, ◌==◌, truthy, if◌then◌else◌, length, Result, ok, raise,
}
use hermes_a2a_v.Text.{◌⧺◌, str_nat}
use hermes_a2a_v.HermesClient.Common.{
  build_headers, with_session, HermesError, auth_error, server_error, connection_error,
  other_exception, connect_retry_delays, timeout_retry_delays, http_retryable_delays, delay_at,
  Wait, scheduled, requested,
}

-- An `httpx.Response`, as far as the client reads it.
pub record Response : Type 0 where
  pub status_code : ℕ
  pub retry_after : Option String
  pub body : String

-- What one `http.post` comes to.
pub data Outcome : Type 0 where
  response : Response → Outcome
  connect_error : String → Outcome
  timeout : String → Outcome
  other_error : String → Outcome

pub record Attempts : Type 0 where
  pub connect : ℕ
  pub timeouts : ℕ
  pub http : ℕ

abbrev pub no_attempts : Attempts
no_attempts = record { connect = 0; timeouts = 0; http = 0 }

-- One turn of the loop: it ends, or it waits and tries again.
pub data Turn : Type 0 where
  done : Result HermesError Response → Turn
  again : Wait → Attempts → Turn

-- `500 <= status < 600`
abbrev pub is_5xx : ℕ → Bool
is_5xx s = leb 500 s && ltb s 600

-- What the loop did: its result, the posts it made and its pauses in order.
pub record Final : Type 0 where
  pub result : Result HermesError Response
  pub posts : ℕ
  pub waits : List Wait

-- `raises s`: whether httpx's `raise_for_status` raises for status s.
-- `is_float t`: whether Python's `float(t)` succeeds.
module _ (raises : ℕ → Bool) (is_float : String → Bool) (url : String) where
  -- The pause that a 429 or 503 asks for
  retry_wait : ℕ → Option String → Wait
  retry_wait attempts none = scheduled (delay_at http_retryable_delays (attempts - 1))
  retry_wait attempts (some header) =
      if truthy header && is_float header
      then requested header
      else scheduled (delay_at http_retryable_delays (attempts - 1))

  -- `_classify_and_raise` for an `HTTPStatusError`
  unfoldable pub classify : ℕ → HermesError
  classify sc =
      if is_5xx sc
      then server_error ("Server error " ⧺ str_nat sc ⧺ " from " ⧺ url) sc
      else connection_error ("HTTP error " ⧺ str_nat sc ⧺ " from " ⧺ url) (some sc)

  on_response : Response → Attempts → Turn
  unfolding retry_wait classify
  on_response r a =
      let attempts = a.http + 1 in
      let spent = ltb (length http_retryable_delays) attempts in
      let counted = record a { http = attempts } in
      if r.status_code == 401
      then done (raise (auth_error "Authentication failed (HTTP 401)" 401))
      else if r.status_code == 429 || r.status_code == 503
      then if spent
        then done (
            raise (
              server_error
                ("Server returned "
                  ⧺ str_nat r.status_code
                  ⧺ " after "
                  ⧺ str_nat attempts
                  ⧺ " attempts")
                r.status_code))
        else again (retry_wait attempts r.retry_after) counted
      else if is_5xx r.status_code
      then if spent
        then done (
            raise (
              server_error
                ("Server error "
                  ⧺ str_nat r.status_code
                  ⧺ " after "
                  ⧺ str_nat attempts
                  ⧺ " attempts")
                r.status_code))
        else again (scheduled (delay_at http_retryable_delays (attempts - 1))) counted
      else if raises r.status_code
      then done (raise (classify r.status_code))
      else done (ok r)

  unfoldable pub turn : Outcome → Attempts → Turn
  unfolding on_response
  turn (response r) a = on_response r a
  turn (connect_error exc) a =
      let attempts = a.connect + 1 in
      if ltb (length connect_retry_delays) attempts
      then done (
          raise (
            connection_error
              ("Connection to " ⧺ url ⧺ " failed after " ⧺ str_nat attempts ⧺ " attempts: " ⧺ exc)
              none))
      else again (scheduled (delay_at connect_retry_delays (attempts - 1)))
          (record a { connect = attempts })
  turn (timeout exc) a =
      let attempts = a.timeouts + 1 in
      if ltb (length timeout_retry_delays) attempts
      then done (
          raise (
            connection_error
              ("Request to " ⧺ url ⧺ " timed out after " ⧺ str_nat attempts ⧺ " attempts: " ⧺ exc)
              none))
      else again (scheduled (delay_at timeout_retry_delays (attempts - 1)))
          (record a { timeouts = attempts })
  turn (other_error exc) a = done (raise (other_exception exc))

  -- `while True`, from post `i` on: `net i` is what the i-th post comes to. `none`: the fuel ran out.
  unfoldable pub loop : ℕ → (ℕ → Outcome) → ℕ → Attempts → List Wait → Option Final
  loop zero net i a waits = none
  loop (suc fuel) net i a waits = elim (turn (net i) a) [
    | done result ↦ some (record { result = result; posts = i + 1; waits = waits })
    | again wait a' ↦ loop fuel net (i + 1) a' (waits ++ wait ∷ [])
  ]

  -- Each retry uses up one of 3 + 2 + 3 delays, so nine turns are enough.
  unfoldable pub request_with_retry : (ℕ → Outcome) → Option Final
  request_with_retry net = loop 9 net 0 no_attempts []

-- The POST that the client makes.
pub record Post : Type 0 where
  pub url : String
  pub headers : Dict String String
  pub content : String
  pub stream : Bool

-- What the client reads of the JSON body of a reply.
pub record Reply : Type 0 where
  pub content : String
  pub session_id : Option String

-- `a or b` where either may be `None`
or_else : Option String → String → String
or_else none d = d
or_else (some s) d = if truthy s then s else d

reply_of : Option String → String → Result String Reply → Result HermesError (String × String)
unfolding or_else
reply_of session_id uuid (raise e) = raise (other_exception e)
reply_of session_id uuid (ok reply) =
    ok (reply.content, or_else reply.session_id (or_else session_id uuid))

finish :
    Option String
    → String
    → (String → Result String Reply)
    → Result HermesError Response
    → Result HermesError (String × String)
unfolding reply_of
finish session_id uuid read_reply (raise e) = raise e
finish session_id uuid read_reply (ok resp) = reply_of session_id uuid (read_reply resp.body)

-- `send_message`: `net post i` is what the i-th try of the post comes to, `read_reply` is
-- `resp.json()` with the subscripts that follow, `uuid` is the fresh one. `none`: out of fuel.
unfoldable pub send_message :
    (ℕ → Bool)
    → (String → Bool)
    → (String → Result String Reply)
    → String
    → Option String
    → (Post → ℕ → Outcome)
    → String
    → String
    → Option String
    → Option (Result HermesError (String × String))
unfolding finish
send_message raises is_float read_reply base_url api_key net uuid text session_id =
    let url = base_url ⧺ "/v1/chat/completions" in
    let headers = with_session session_id (build_headers api_key false) in
    let post : Post = record { url = url; headers = headers; content = text; stream = false } in
    elim (request_with_retry raises is_float url (net post)) [
      | none ↦ none
      | some final ↦ some (finish session_id uuid read_reply final.result)
    ]

-- `health_check`: `none` is an `httpx.HTTPError` or `OSError`
unfoldable pub health_check : Option ℕ → Bool
health_check none = false
health_check (some status_code) = status_code == 200
