-- ===== src/RateLimiter/Limit.antt =====
-- How many requests of one client the middleware passes, among the requests of all clients.
use hermes_a2a_v.Prelude.{
  ℕ, ◌+◌, ◌-◌, ◌*◌, ◌≤◌, refl, String, List, [], ◌∷◌, arith, str_eq, Bool-cases, inl, inr,
}
use native.Mathlib.Nat.{mul-le-mul_right}
use hermes_a2a_v.Dict.{get, string_eq}
use hermes_a2a_v.RateLimiter.{init, new_bucket, one_token}
use hermes_a2a_v.RateLimiter.Bounds.{admitted, IsClock, last_of, consume_all-le}
use hermes_a2a_v.RateLimiter.Isolation.{
  Arrival, ip_of, serve_all, answers, times_of, first_made, clients_isolated,
}

-- The clock over the arrivals, from time `t` on.
abbrev pub IsTimely : ℕ → List Arrival → Type 0
IsTimely t [] = Unit
IsTimely t (a ∷ more) = (t ≤ a.made) × (a.made ≤ a.now) × IsTimely a.now more

-- The time of the last arrival, or `t` if there is none.
abbrev pub end_of : ℕ → List Arrival → ℕ
end_of t [] = t
end_of t (a ∷ more) = end_of a.now more

-- The clock of one client, which starts at any time that is not after the arrivals.
times_of-IsClock :
    (ip : String) (arrivals : List Arrival) (s t : ℕ)
    → s ≤ t
    → IsTimely t arrivals
    → IsClock s (times_of ip arrivals) × (last_of s (times_of ip arrivals) ≤ end_of t arrivals)
unfolding times_of
times_of-IsClock ip [] s t l h = (tt, l)
times_of-IsClock ip (a ∷ more) s t l (h, m, rest) = elim (Bool-cases (str_eq (ip_of a) ip)) [
  | inl own ↦
      let (c, e) = times_of-IsClock ip more a.now a.now (omega arith) rest in
      rw own ((omega arith, c), e)
  | inr other ↦ rw other (times_of-IsClock ip more s a.now (omega arith) rest)
]

window :
    (ip : String) (arrivals : List Arrival) (t : ℕ)
    → IsTimely t arrivals
    → let m = first_made ip arrivals in
      let ts = times_of ip arrivals in IsClock m ts × (last_of m ts - m ≤ end_of t arrivals - t)
unfolding times_of first_made
window ip [] t h = (tt, omega arith)
window ip (a ∷ more) t (h, m, rest) = elim (Bool-cases (str_eq (ip_of a) ip)) [
  | inl own ↦
      let (c, e) = times_of-IsClock ip more a.now a.now (omega arith) rest in
      rw own ((m, c), omega (arith, e, h))
  | inr other ↦ let (c, e) = window ip more a.now rest in rw other (c, omega (arith, e, h, m))
]

-- Under a clock that does not run backwards, a new limiter passes of any one client's requests, among
-- those of all clients, at most its burst size and what its rate per minute allows in the time from
-- the start to the last request.
pub limiter_bound :
    (ip : String) (requests_per_minute burst_size start : ℕ) (arrivals : List Arrival)
    → IsTimely start arrivals
    → let log = (serve_all arrivals (init requests_per_minute burst_size)).1 in
      admitted (answers ip log) * one_token
      ≤ burst_size * one_token + (end_of start arrivals - start) * requests_per_minute
unfolding init new_bucket
limiter_bound ip rpm burst start arrivals h =
    let m = first_made ip arrivals in
    let ts = times_of ip arrivals in
    let (c, e) = window ip arrivals start h in
    let own = clients_isolated ip arrivals (init rpm burst) (unfold get in refl) in
    let (_, bound) = consume_all-le ts (new_bucket (burst * one_token) rpm m) (omega arith) c in
    let grown = mul-le-mul_right rpm e in rw own (omega (arith, bound, grown))
