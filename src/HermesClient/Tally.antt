-- ===== src/HermesClient/Tally.antt =====
-- How the failed posts of a call are counted against the schedules of delays.
use hermes_a2a_v.Prelude.{if◌then◌else◌, ℕ, zero, suc, ◌+◌, ◌≤◌, ◌<◌, ◌≡◌, ◌≢◌, ◌||◌, arith, ◌==◌}
use native.Mathlib.Decide.{ℕ_discrete}
use native.Mathlib.Numerals.{add-one}
use hermes_a2a_v.HermesClient.Request.{
  Outcome, response, connect_error, timeout, other_error, Attempts, no_attempts, is_5xx,
}

-- The failures that the loop retries, by what they count against.
pub data Kind : Type 0 where
  connect_failure timed_out busy final : Kind

unfoldable pub kind_of : Outcome → Kind
kind_of (response r) = if r.status_code == 429 || is_5xx r.status_code then busy else final
kind_of (connect_error e) = connect_failure
kind_of (timeout e) = timed_out
kind_of (other_error e) = final

unfoldable pub counted : Kind → Attempts → Attempts
counted connect_failure a = record a { connect = a.connect + 1 }
counted timed_out a = record a { timeouts = a.timeouts + 1 }
counted busy a = record a { http = a.http + 1 }
counted final a = a

-- How many of the first `n` posts failed in each way that is retried.
unfoldable pub tally : (ℕ → Outcome) → ℕ → Attempts
unfolding counted
tally net zero = no_attempts
tally net (suc n) = counted (kind_of (net n)) (tally net n)

pub tally-next :
    (net : ℕ → Outcome) (n : ℕ) → tally net (n + 1) ≡ counted (kind_of (net n)) (tally net n)
unfolding tally
tally-next net n = rw add-one

abbrev pub total : Attempts → ℕ
total a = a.connect + a.timeouts + a.http

-- Within the schedules: three failed connections, two timeouts, three busy replies.
pub record IsWithin (a : Attempts) : Type 0 where
  pub connect : a.connect ≤ 3
  pub timeouts : a.timeouts ≤ 2
  pub http : a.http ≤ 3

pub total-counted : (k : Kind) (a : Attempts) → total (counted k a) ≤ total a + 1
unfolding counted
total-counted k a = ground arith

pub total-tally : (net : ℕ → Outcome) (n : ℕ) → total (tally net n) ≤ n
unfolding tally
total-tally net zero = omega arith
total-tally net (suc n) =
    omega (arith, total-tally net n, total-counted (kind_of (net n)) (tally net n))

pub counted-IsWithin : (k : Kind) (a : Attempts) → IsWithin (counted k a) → IsWithin a
unfolding counted
counted-IsWithin k a h = ground arith

pub retried-last :
    (k : Kind) (a : Attempts) (n : ℕ)
    → total a ≤ n
    → total (counted k a) ≡ suc n
    → (k ≢ final) × (total a ≡ n)
unfolding counted
retried-last k a n h e = ground arith

-- Where all of the first `m` posts met retried failures within the schedules, so did the first
-- `k + 1` for every smaller `k`.
pub tally-before :
    (net : ℕ → Outcome) (m k : ℕ)
    → IsWithin (tally net m)
    → total (tally net m) ≡ m
    → k < m
    → (kind_of (net k) ≢ final) × IsWithin (counted (kind_of (net k)) (tally net k))
unfolding tally
tally-before net zero k h t l = absurd (omega arith)
tally-before net (suc m) k h t l =
    let (r, t') = retried-last (kind_of (net m)) (tally net m) m (total-tally net m) t in
    elim (ℕ_discrete k m) [
      | yes e ↦ rw e (r, h)
      | no ne ↦
          tally-before net m k (counted-IsWithin (kind_of (net m)) (tally net m) h) t' (omega arith)
    ]
