-- ===== src/HermesClient/Stream.antt =====
-- `send_message_stream` of hermes_client.py: the chunks of an SSE stream, with its retry loop.
use hermes_a2a_v.Prelude.{
  ℕ, zero, suc, ◌+◌, String, Bool, not, Option, none, some, List, [], ◌∷◌, ◌++◌, ltb, ◌==◌, str_eq,
  truthy, if◌then◌else◌, length, Result, ok, raise,
}
use hermes_a2a_v.Text.{◌⧺◌, str_nat, starts_with, strip, drop_chars}
use hermes_a2a_v.HermesClient.Common.{
  HermesError, auth_error, server_error, connection_error, http_status_error, other_exception,
  connect_retry_delays, timeout_retry_delays,
}
use hermes_a2a_v.HermesClient.Request.{is_5xx}

-- What the `json.loads` of a data line comes to: text that is no JSON, a value on which the
-- subscripts raise, or the `content` of its delta.
pub data Chunk : Type 0 where
  invalid : Chunk
  malformed : String → Chunk
  delta : Option String → Chunk

-- How reading the lines ends: at the end of the stream, or by an exception.
pub data Ending : Type 0 where
  closed : Ending
  read_timeout : String → Ending
  connect_lost : String → Ending
  read_error : String → Ending

-- What one `http.stream` comes to.
pub data Opening : Type 0 where
  opened : ℕ → List String → Ending → Opening
  connect_error : String → Opening
  timeout : String → Opening
  other_error : String → Opening

-- What the loop does after an attempt.
pub data Next : Type 0 where
  ended : Result HermesError (Unit {0}) → Next
  retry : ℕ → ℕ → Next

-- The chunks that were yielded, how the generator ended, and how many posts it made.
pub record Streamed : Type 0 where
  pub yielded : List String
  pub result : Result HermesError (Unit {0})
  pub posts : ℕ

module _ (raises : ℕ → Bool) (read_chunk : String → Chunk) (url : String) where
  on_chunk : Chunk → List String × Ending → List String × Ending
  on_chunk invalid rest = rest
  on_chunk (malformed exc) rest = ([], read_error exc)
  on_chunk (delta none) rest = rest
  on_chunk (delta (some content)) rest = if truthy content then (content ∷ rest.0, rest.1) else rest

  -- The `async for` over the lines: the chunks yielded, and how it ended
  unfoldable pub read_lines : List String → Ending → List String × Ending
  unfolding on_chunk starts_with strip
  read_lines [] ending = ([], ending)
  read_lines (line ∷ lines) ending =
      let rest = read_lines lines ending in
      let data_str = drop_chars 6 line in
      if not (starts_with line "data: ")
      then rest
      else if str_eq (strip data_str) "[DONE]"
      then ([], closed)
      else on_chunk (read_chunk data_str) rest

  -- `except httpx.ConnectError`
  on_connect_error : String → ℕ → ℕ → Next
  on_connect_error exc connects timeouts =
      let attempts = connects + 1 in
      if ltb (length connect_retry_delays) attempts
      then ended (
          raise (
            connection_error
              ("Connection to " ⧺ url ⧺ " failed after " ⧺ str_nat attempts ⧺ " attempts: " ⧺ exc)
              none))
      else retry attempts timeouts

  -- `except httpx.TimeoutException`
  on_timeout : String → ℕ → ℕ → Next
  on_timeout exc connects timeouts =
      let attempts = timeouts + 1 in
      if ltb (length timeout_retry_delays) attempts
      then ended (
          raise (
            connection_error
              ("Request to " ⧺ url ⧺ " timed out after " ⧺ str_nat attempts ⧺ " attempts: " ⧺ exc)
              none))
      else retry connects attempts

  unfoldable pub after_lines : Ending → ℕ → ℕ → Next
  unfolding on_connect_error on_timeout
  after_lines closed connects timeouts = ended (ok tt)
  after_lines (read_timeout exc) connects timeouts = on_timeout exc connects timeouts
  after_lines (connect_lost exc) connects timeouts = on_connect_error exc connects timeouts
  after_lines (read_error exc) connects timeouts = ended (raise (other_exception exc))

  -- `raise_for_status` and the handler of its `HTTPStatusError`
  bad_status : ℕ → HermesError
  bad_status sc =
      if is_5xx sc then server_error ("Server error " ⧺ str_nat sc) sc else http_status_error sc

  -- One turn of the loop: what it yields, and what comes next
  unfoldable pub attempt : Opening → ℕ → ℕ → List String × Next
  unfolding bad_status after_lines
  attempt (opened status_code lines ending) connects timeouts =
      let (chunks, over) = read_lines lines ending in
      if status_code == 401
      then ([], ended (raise (auth_error "Authentication failed (HTTP 401)" 401)))
      else if raises status_code
      then ([], ended (raise (bad_status status_code)))
      else (chunks, after_lines over connects timeouts)
  attempt (connect_error exc) connects timeouts = ([], on_connect_error exc connects timeouts)
  attempt (timeout exc) connects timeouts = ([], on_timeout exc connects timeouts)
  attempt (other_error exc) connects timeouts = ([], ended (raise (other_exception exc)))

  -- `while True`, from post `i` on, with the chunks yielded before. `none`: the fuel ran out.
  unfoldable pub stream_loop : ℕ → (ℕ → Opening) → ℕ → ℕ → ℕ → List String → Option Streamed
  stream_loop zero net i connects timeouts before = none
  stream_loop (suc fuel) net i connects timeouts before =
      let (chunks, next) = attempt (net i) connects timeouts in
      elim next [
        | ended result ↦
            some (record { yielded = before ++ chunks; result = result; posts = i + 1 })
        | retry connects' timeouts' ↦
            stream_loop fuel net (i + 1) connects' timeouts' (before ++ chunks)
      ]

  -- Each retry uses up one of 3 + 2 delays, so six turns are enough.
  unfoldable pub send_message_stream : (ℕ → Opening) → Option Streamed
  send_message_stream net = stream_loop 6 net 0 0 0 []
