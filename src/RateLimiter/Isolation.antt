-- ===== src/RateLimiter/Isolation.antt =====
-- The middleware over many clients: each client's answers are those of its own bucket.
use hermes_a2a_v.Prelude.{
  ℕ, ◌*◌, ◌≡◌, refl, String, Bool, true, false, none, some, List, [], ◌∷◌, arith, str_eq, eq_iff,
  if◌then◌else◌,
}
use hermes_a2a_v.Dict.{get, get-put, string_eq}
use hermes_a2a_v.RateLimiter.{
  TokenBucket, RateLimiter, Request, Verdict, passed, rejected, extract_client_ip, dispatch,
  get_bucket, consume, new_bucket, one_token,
}
use hermes_a2a_v.RateLimiter.Bounds.{consume_all}

-- A request that arrives, with the two clock readings of its `dispatch`.
pub record Arrival : Type 0 where
  pub request : Request
  pub made : ℕ
  pub now : ℕ

abbrev pub ip_of : Arrival → String
ip_of a = extract_client_ip a.request

-- The limiter after the arrivals, and each one's address and verdict.
unfoldable pub serve_all : List Arrival → RateLimiter → RateLimiter × List (String × Verdict)
serve_all [] l = (l, [])
serve_all (a ∷ more) l =
    let (l', v) = dispatch a.request a.made a.now l in
    let (l'', log) = serve_all more l' in (l'', (ip_of a, v) ∷ log)

abbrev pub is_passed : Verdict → Bool
is_passed passed = true
is_passed rejected = false

-- What a log says of one client's requests.
unfoldable pub answers : String → List (String × Verdict) → List Bool
answers ip [] = []
answers ip ((j, v) ∷ log) =
    let rest = answers ip log in if str_eq j ip then is_passed v ∷ rest else rest

-- The times of one client's requests.
unfoldable pub times_of : String → List Arrival → List ℕ
times_of ip [] = []
times_of ip (a ∷ more) =
    let rest = times_of ip more in if str_eq (ip_of a) ip then a.now ∷ rest else rest

-- When the client's bucket is made.
unfoldable pub first_made : String → List Arrival → ℕ
first_made ip [] = 0
first_made ip (a ∷ more) =
    let rest = first_made ip more in if str_eq (ip_of a) ip then a.made else rest

verdict-passed : (b : Bool) → is_passed (if b then passed else rejected) ≡ b
verdict-passed true = refl
verdict-passed false = refl

own-answers :
    (ip : String) (arrivals : List Arrival) (l : RateLimiter) (b : TokenBucket)
    → get ip l.buckets ≡ some b
    → answers ip (serve_all arrivals l).1 ≡ (consume_all (times_of ip arrivals) b).1
unfolding answers serve_all times_of consume_all dispatch get_bucket
own-answers ip [] l b h = refl
own-answers ip (a ∷ more) l b h =
    let l' = (dispatch a.request a.made a.now l).0 in
    let bucket = (consume a.now (get_bucket (ip_of a) a.made l)).0 in
    ground (
      arith,
      h,
      own-answers ip more l' (consume a.now b).0,
      own-answers ip more l' b,
      get-put (ip_of a) ip bucket l.buckets,
      eq_iff (ip_of a) ip,
      verdict-passed (consume a.now b).1,
    )

-- Clients do not affect each other: from a limiter that does not know a client, whatever requests of
-- other clients come between its own, the client's requests are answered as a bucket of its own would
-- answer them, which is made full at its first request.
pub clients_isolated :
    (ip : String) (arrivals : List Arrival) (l : RateLimiter)
    → get ip l.buckets ≡ none
    → answers ip (serve_all arrivals l).1
      ≡ (consume_all
          (times_of ip arrivals)
          (new_bucket (l.burst_size * one_token) l.refill_rate (first_made ip arrivals))).1
unfolding answers serve_all times_of first_made consume_all dispatch get_bucket
clients_isolated ip [] l h = refl
clients_isolated ip (a ∷ more) l h =
    let l' = (dispatch a.request a.made a.now l).0 in
    let fresh = new_bucket (l.burst_size * one_token) l.refill_rate a.made in
    let bucket = (consume a.now (get_bucket (ip_of a) a.made l)).0 in
    ground (
      arith,
      h,
      own-answers ip more l' (consume a.now fresh).0,
      clients_isolated ip more l',
      get-put (ip_of a) ip bucket l.buckets,
      eq_iff (ip_of a) ip,
      verdict-passed (consume a.now fresh).1,
    )
