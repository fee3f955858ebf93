-- ===== src/HermesClient/Streaming.antt =====
-- The streaming loop: it ends, its yield is what its attempts yielded, and it starts over after a
-- timeout in the middle of a stream.
use hermes_a2a_v.Prelude.{
  ◌≢◌, ℕ, zero, suc, ◌+◌, ◌≤◌, ◌≡◌, refl, String, Bool, false, some, List, [], ◌++◌, arith, ok,
}
use native.Mathlib.Numerals.{add-one}
use hermes_a2a_v.HermesClient.Stream.{
  Chunk, Ending, closed, read_timeout, connect_lost, read_error, Opening, opened, connect_error,
  timeout, other_error, Next, ended, retry, Streamed, read_lines, after_lines, attempt, stream_loop,
  send_message_stream,
}

module _ (raises : ℕ → Bool) (read_chunk : String → Chunk) (url : String) where
  -- The chunks that one opening yields, whatever was tried before.
  unfoldable pub yields : Opening → List String
  yields (opened status_code lines ending) =
      (attempt raises read_chunk url (opened status_code lines ending) 0 0).0
  yields (connect_error exc) = []
  yields (timeout exc) = []
  yields (other_error exc) = []

  -- What the first `n` openings yield, in order.
  unfoldable pub all_yields : (ℕ → Opening) → ℕ → List String
  all_yields net zero = []
  all_yields net (suc n) = all_yields net n ++ yields (net n)

  attempt-yields : (o : Opening) (c t : ℕ) → (attempt raises read_chunk url o c t).0 ≡ yields o
  unfolding yields attempt
  attempt-yields (opened s lines ending) c t = ground arith
  attempt-yields (connect_error x) c t = refl
  attempt-yields (timeout x) c t = refl
  attempt-yields (other_error x) c t = refl

  after_lines-retry :
      (e : Ending) (c t c' t' : ℕ)
      → after_lines raises read_chunk url e c t ≡ retry c' t'
      → c ≤ 3
      → t ≤ 2
      → (c' + t' ≡ c + t + 1) × (c' ≤ 3) × (t' ≤ 2)
  unfolding after_lines
  after_lines-retry closed c t c' t' e hc ht = ground arith
  after_lines-retry (read_timeout x) c t c' t' e hc ht = ground arith
  after_lines-retry (connect_lost x) c t c' t' e hc ht = ground arith
  after_lines-retry (read_error x) c t c' t' e hc ht = ground arith

  attempt-retry :
      (o : Opening) (c t c' t' : ℕ)
      → (attempt raises read_chunk url o c t).1 ≡ retry c' t'
      → c ≤ 3
      → t ≤ 2
      → (c' + t' ≡ c + t + 1) × (c' ≤ 3) × (t' ≤ 2)
  unfolding attempt
  attempt-retry (opened s lines ending) c t c' t' e hc ht =
      ground (arith, after_lines-retry (read_lines raises read_chunk url lines ending).1 c t c' t')
  attempt-retry (connect_error x) c t c' t' e hc ht = ground arith
  attempt-retry (timeout x) c t c' t' e hc ht = ground arith
  attempt-retry (other_error x) c t c' t' e hc ht = ground arith

  stream_ends :
      (fuel : ℕ) (net : ℕ → Opening) (i c t : ℕ) (before : List String)
      → c ≤ 3
      → t ≤ 2
      → c + t ≡ i
      → 6 ≤ fuel + i
      → before ≡ all_yields net i
      → (r : Streamed) × (stream_loop raises read_chunk url fuel net i c t before ≡ some r)
        × (r.posts ≤ 6)
        × (r.yielded ≡ all_yields net r.posts)
  unfolding stream_loop
  stream_ends zero net i c t before hc ht s f b = absurd (omega arith)
  stream_ends (suc fuel) net i c t before hc ht s f b =
      go (attempt raises read_chunk url (net i) c t).1 refl (stream_ends fuel net (i + 1))
    where
      chunks : List String
      chunks = (attempt raises read_chunk url (net i) c t).0

      more : before ++ chunks ≡ all_yields net (i + 1)
      more = rw (attempt-yields (net i) c t, b) (unfold all_yields in rw add-one)

      go :
          (next : Next)
          → (attempt raises read_chunk url (net i) c t).1 ≡ next
          → ((c' t' : ℕ) (bs : List String)
              → c' ≤ 3
              → t' ≤ 2
              → c' + t' ≡ i + 1
              → 6 ≤ fuel + (i + 1)
              → bs ≡ all_yields net (i + 1)
              → (r : Streamed) × (stream_loop raises read_chunk url fuel net (i + 1) c' t' bs
                  ≡ some r)
                × (r.posts ≤ 6)
                × (r.yielded ≡ all_yields net r.posts))
          → (r : Streamed) × (stream_loop raises read_chunk url (suc fuel) net i c t before
              ≡ some r)
            × (r.posts ≤ 6)
            × (r.yielded ≡ all_yields net r.posts)
      go (ended result) q ih = (
        record { yielded = before ++ chunks; result = result; posts = i + 1 },
        rw (q, stream_loop),
        omega arith,
        more,
      )
      go (retry c' t') q ih =
          let (e, hc', ht') = attempt-retry (net i) c t c' t' q hc ht in
          rw (q, stream_loop) (ih c' t' (before ++ chunks) hc' ht' (omega arith) (omega arith) more)

  -- For every network the generator ends after at most six posts, and what it has yielded is what
  -- all of its posts yielded, one after the other.
  pub stream_returns :
      (net : ℕ → Opening)
      → (r : Streamed) × (send_message_stream raises read_chunk url net ≡ some r)
        × (r.posts ≤ 6)
        × (r.yielded ≡ all_yields net r.posts)
  unfolding send_message_stream
  stream_returns net =
      stream_ends 6 net 0 0 0 [] (omega arith) (omega arith) refl (omega arith)
        (unfold all_yields in refl)

  -- A read timeout in the middle of the first stream makes the client post the message again: what
  -- the second stream yields follows the chunks that were already yielded.
  pub stream_restarts :
      (net : ℕ → Opening) (s s' : ℕ) (lines lines' first second : List String)
      (ending ending' : Ending) (exc : String)
      → net 0 ≡ opened s lines ending
      → net 1 ≡ opened s' lines' ending'
      → s ≢ 401
      → s' ≢ 401
      → raises s ≡ false
      → raises s' ≡ false
      → read_lines raises read_chunk url lines ending ≡ (first, read_timeout exc)
      → read_lines raises read_chunk url lines' ending' ≡ (second, closed)
      → send_message_stream raises read_chunk url net
        ≡ some (record { yielded = first ++ second; result = ok tt; posts = 2 })
  unfolding send_message_stream stream_loop attempt after_lines
  stream_restarts net s s' lines lines' first second ending ending' exc n0 n1 a a' r r' l l' =
      ground arith
