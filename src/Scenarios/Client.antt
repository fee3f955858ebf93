-- ===== src/Scenarios/Client.antt =====
-- Runs of the Hermes client's two loops against networks that fail at first.
use hermes_a2a_v.Prelude.{
  ◌≢◌, arith, ◌+◌, ℕ, zero, suc, ◌≡◌, refl, ◌≤◌, String, Bool, false, none, some, [], ◌∷◌, ok, leb,
  length,
}
use hermes_a2a_v.HermesClient.Request.{
  turn, loop, Response, Outcome, response, timeout, Final, request_with_retry,
}
use hermes_a2a_v.HermesClient.{scheduled}
use hermes_a2a_v.HermesClient.Tally.{kind_of, final, tally, total, IsWithin}
use hermes_a2a_v.HermesClient.Retry.{retry_returns, retry_reply, retry_recovers}
use hermes_a2a_v.HermesClient.Stream.{
  Chunk, delta, Opening, opened, closed, read_timeout, Streamed, read_lines, send_message_stream,
}
use hermes_a2a_v.HermesClient.Streaming.{all_yields, stream_returns, stream_restarts}

-- httpx raises for every status from 400 on.
abbrev raises : ℕ → Bool
raises s = leb 400 s

abbrev no_float : String → Bool
no_float t = false

abbrev served : Response
served = record { status_code = 200; retry_after = none; body = "{}" }

abbrev busy : Response
busy = record { status_code = 503; retry_after = none; body = "" }

-- A timeout, then a 503, then replies.
abbrev flaky : ℕ → Outcome
flaky zero = timeout "slow"
flaky (suc zero) = response busy
flaky (suc (suc n)) = response served

retry_returns_example :
    (r : Final) × (request_with_retry raises no_float "http://h" flaky ≡ some r)
    × (r.posts ≤ 9)
    × (length r.waits + 1 ≡ r.posts)
retry_returns_example = retry_returns raises no_float "http://h" flaky

retry_recovers_example :
    (r : Final) × (request_with_retry raises no_float "http://h" flaky ≡ some r)
    × (r.result ≡ ok served)
    × (r.posts ≡ 3)
unfolding tally kind_of
retry_recovers_example =
    retry_recovers raises no_float "http://h" flaky 2 served
      (record { connect = omega arith; timeouts = omega arith; http = omega arith }) refl refl refl
      (omega arith) refl

abbrev finished : Final
finished = record { result = ok served; posts = 3; waits = scheduled 1 ∷ scheduled 1 ∷ [] }

retry_reply_example :
    (n : ℕ) × (3 ≡ n + 1)
    × (flaky n ≡ response served)
    × (kind_of (flaky n) ≡ final)
    × (served.status_code ≢ 401)
    × (raises 200 ≡ false)
    × (total (tally flaky n) ≡ n)
    × IsWithin (tally flaky n)
unfolding request_with_retry loop turn
retry_reply_example = retry_reply raises no_float "http://h" flaky finished served refl refl

abbrev read_any : String → Chunk
read_any t = delta (some t)

abbrev halves : ℕ → Opening
halves zero = opened 200 ("data: Hel" ∷ []) (read_timeout "slow")
halves (suc n) = opened 200 ("data: Hello" ∷ "data: [DONE]" ∷ []) closed

stream_returns_example :
    (r : Streamed) × (send_message_stream raises read_any "http://h" halves ≡ some r)
    × (r.posts ≤ 6)
    × (r.yielded ≡ all_yields raises read_any "http://h" halves r.posts)
stream_returns_example = stream_returns raises read_any "http://h" halves

stream_restarts_example :
    send_message_stream raises read_any "http://h" halves
    ≡ some (record { yielded = "Hel" ∷ "Hello" ∷ []; result = ok tt; posts = 2 })
unfolding read_lines
stream_restarts_example =
    stream_restarts raises read_any "http://h" halves 200 200 ("data: Hel" ∷ [])
      ("data: Hello" ∷ "data: [DONE]" ∷ []) ("Hel" ∷ []) ("Hello" ∷ []) (read_timeout "slow") closed
      "slow" refl refl (omega arith) (omega arith) refl refl refl refl
