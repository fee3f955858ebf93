-- ===== src/HermesClient/Retry.antt =====
-- The retry loop: it ends, it makes at most nine posts, and it returns a reply exactly when the
-- failures before it fit the schedules.
use hermes_a2a_v.Prelude.{
  subst, ◌∙◌, ℕ, zero, suc, ◌+◌, ◌≤◌, ◌≡◌, refl, ap, ◌≢◌, String, Bool, false, some, List, [], ◌∷◌,
  ◌++◌, arith, length, length-append, Result, ok,
}
use native.Mathlib.Decide.{dec_lt}
use hermes_a2a_v.HermesClient.Common.{HermesError, Wait}
use hermes_a2a_v.HermesClient.Request.{
  Response, Outcome, response, connect_error, timeout, other_error, Attempts, no_attempts, Turn,
  done, again, turn, loop, request_with_retry, Final,
}
use hermes_a2a_v.HermesClient.Tally.{
  final, kind_of, counted, tally, tally-next, total, IsWithin, tally-before,
}

module _ (raises : ℕ → Bool) (is_float : String → Bool) (url : String) where
  -- A turn goes on only by counting one retried failure within the schedules.
  turn-again :
      (o : Outcome) (a a' : Attempts) (w : Wait)
      → turn raises is_float url o a ≡ again w a'
      → IsWithin a
      → IsWithin a' × (total a' ≡ total a + 1) × (a' ≡ counted (kind_of o) a)
  unfolding turn counted kind_of
  turn-again (response r) a a' w e h = ground arith
  turn-again (connect_error x) a a' w e h = ground arith
  turn-again (timeout x) a a' w e h = ground arith
  turn-again (other_error x) a a' w e h = ground arith

  -- What holds when the loop has ended: `last` is the index of the last post.
  pub record Ended (net : ℕ → Outcome) (r : Final) : Type 0 where
    pub last : ℕ
    pub posts : r.posts ≡ last + 1
    pub waits : length r.waits ≡ last
    pub within : IsWithin (tally net last)
    pub all_retried : total (tally net last) ≡ last
    pub verdict : turn raises is_float url (net last) (tally net last) ≡ done r.result

  loop_ends :
      (fuel : ℕ) (net : ℕ → Outcome) (i : ℕ) (a : Attempts) (ws : List Wait)
      → IsWithin a
      → total a ≡ i
      → 9 ≤ fuel + i
      → length ws ≡ i
      → a ≡ tally net i
      → (r : Final) × (loop raises is_float url fuel net i a ws ≡ some r) × Ended net r
  unfolding loop
  loop_ends zero net i a ws h t f l e = absurd (omega (arith, h))
  loop_ends (suc fuel) net i a ws h t f l e =
      go (turn raises is_float url (net i) a) refl (loop_ends fuel net (i + 1))
    where
      go :
          (next : Turn)
          → turn raises is_float url (net i) a ≡ next
          → ((a' : Attempts) (ws' : List Wait)
              → IsWithin a'
              → total a' ≡ i + 1
              → 9 ≤ fuel + (i + 1)
              → length ws' ≡ i + 1
              → a' ≡ tally net (i + 1)
              → (r : Final) × (loop raises is_float url fuel net (i + 1) a' ws' ≡ some r)
                × Ended net r)
          → (r : Final) × (loop raises is_float url (suc fuel) net i a ws ≡ some r) × Ended net r
      go (done result) q ih = (
        record { result = result; posts = i + 1; waits = ws },
        rw (q, loop),
        record {
          last = i;
          posts = refl;
          waits = l;
          within = rw (← e) h;
          all_retried = rw (← e) t;
          verdict = rw (← e) q;
        },
      )
      go (again w a') q ih =
          let (h', t', e') = turn-again (net i) a a' w q h in
          rw (q, loop)
            (ih a' (ws ++ w ∷ []) h' (omega arith) (omega arith)
              (omega (arith, length-append ws (w ∷ []))) (e' ∙ rw (tally-next net i, ← e)))

  -- For every network, the request ends: it makes at most nine posts and pauses once between any
  -- two of them.
  pub retry_returns :
      (net : ℕ → Outcome)
      → (r : Final) × (request_with_retry raises is_float url net ≡ some r)
        × (r.posts ≤ 9)
        × (length r.waits + 1 ≡ r.posts)
  unfolding request_with_retry
  retry_returns net =
      let (r, e, x) =
        loop_ends 9 net 0 no_attempts [] (omega arith) refl (omega arith) refl
          (unfold tally in refl) in
      (r, e, omega (arith, x), omega (arith, x))

  run_of :
      (net : ℕ → Outcome) (r : Final)
      → request_with_retry raises is_float url net ≡ some r
      → Ended net r
  unfolding request_with_retry
  run_of net r e =
      let (r', e', x) =
        loop_ends 9 net 0 no_attempts [] (omega arith) refl (omega arith) refl
          (unfold tally in refl) in
      let same : r' ≡ r = cc in subst (Ended net) same x

  turn-reply :
      (o : Outcome) (a : Attempts) (resp : Response)
      → turn raises is_float url o a ≡ done (ok resp)
      → (o ≡ response resp)
        × (kind_of o ≡ final)
        × (resp.status_code ≢ 401)
        × (raises resp.status_code ≡ false)
  unfolding turn kind_of
  turn-reply (response r) a resp e = ground arith
  turn-reply (connect_error x) a resp e = ground arith
  turn-reply (timeout x) a resp e = ground arith
  turn-reply (other_error x) a resp e = ground arith

  -- A reply that the request returns is what its last post met, with a status that is not 401, 429
  -- or 5xx and that httpx accepts; every earlier post met a failure that is retried, at most three
  -- failed connections, two timeouts and three busy replies among them.
  pub retry_reply :
      (net : ℕ → Outcome) (r : Final) (resp : Response)
      → request_with_retry raises is_float url net ≡ some r
      → r.result ≡ ok resp
      → (n : ℕ) × (r.posts ≡ n + 1)
        × (net n ≡ response resp)
        × (kind_of (net n) ≡ final)
        × (resp.status_code ≢ 401)
        × (raises resp.status_code ≡ false)
        × (total (tally net n) ≡ n)
        × IsWithin (tally net n)
  retry_reply net r resp e q =
      let x = run_of net r e in
      let (o, k, s, t) = turn-reply (net x.last) (tally net x.last) resp (x.verdict ∙ ap done q) in
      (x.last, x.posts, o, k, s, t, x.all_retried, x.within)

  turn-retries :
      (o : Outcome) (a : Attempts) (result : Result HermesError Response)
      → kind_of o ≢ final
      → IsWithin (counted (kind_of o) a)
      → turn raises is_float url o a ≢ done result
  unfolding turn counted kind_of
  turn-retries (response r) a result k h e = ground arith
  turn-retries (connect_error x) a result k h e = ground arith
  turn-retries (timeout x) a result k h e = ground arith
  turn-retries (other_error x) a result k h e = ground arith

  turn-accepts :
      (resp : Response) (a : Attempts)
      → kind_of (response resp) ≡ final
      → resp.status_code ≢ 401
      → raises resp.status_code ≡ false
      → turn raises is_float url (response resp) a ≡ done (ok resp)
  unfolding turn kind_of
  turn-accepts resp a k s t = ground arith

  -- If the first `n` posts meet failures that are retried, within the schedules, and post `n` is
  -- answered with a status that is not 401, 429 or 5xx and that httpx accepts, then the request
  -- returns that reply after n + 1 posts.
  pub retry_recovers :
      (net : ℕ → Outcome) (n : ℕ) (resp : Response)
      → IsWithin (tally net n)
      → total (tally net n) ≡ n
      → net n ≡ response resp
      → kind_of (response resp) ≡ final
      → resp.status_code ≢ 401
      → raises resp.status_code ≡ false
      → (r : Final) × (request_with_retry raises is_float url net ≡ some r)
        × (r.result ≡ ok resp)
        × (r.posts ≡ n + 1)
  retry_recovers net n resp h t o k s a =
      let (r, e, _, _) = retry_returns net in
      let x = run_of net r e in
      let accepted = turn-accepts resp (tally net x.last) k s a in
      let at : x.last ≡ n = elim (dec_lt x.last n) [
        | yes l ↦
            let (q, w) = tally-before net n x.last h t l in
            absurd (turn-retries (net x.last) (tally net x.last) r.result q w x.verdict)
        | no nl ↦ elim (dec_lt n x.last) [
          | yes g ↦
              absurd ((tally-before net x.last n x.within x.all_retried g).0 (ap kind_of o ∙ k))
          | no ng ↦ omega arith
        ]
      ] in
      let v : turn raises is_float url (response resp) (tally net x.last) ≡ done r.result =
        subst (λ y. turn raises is_float url y (tally net x.last) ≡ done r.result) (ap net at ∙ o)
          x.verdict in
      (r, e, cc, omega (arith, x.posts, at))
