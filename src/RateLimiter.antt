-- ===== src/RateLimiter.antt =====
-- src/hermes_a2a/rate_limiter.py: a token bucket for each client address. Amounts of tokens are
-- whole, with 60000 units to a token: a rate of n requests per minute gives n units in a millisecond.
-- Readings of `time.monotonic()` are arguments, in milliseconds. The proofs are in the children.
pub mod Bounds
pub mod Isolation
pub mod Limit
use hermes_a2a_v.Prelude.{
  ◌≡◌, refl, ◌≡◌, ℕ, ◌+◌, ◌-◌, ◌*◌, String, Bool, true, false, Option, none, some, List, [], ◌∷◌,
  leb, truthy, min, if◌then◌else◌,
}
use hermes_a2a_v.Dict.{Dict, get, put, string_eq}
use hermes_a2a_v.Text.{first_field, strip}

-- `_TokenBucket`, less its lock
pub record TokenBucket : Type 0 where
  pub tokens : ℕ
  pub max_tokens : ℕ
  pub refill_rate : ℕ
  pub last_refill : ℕ

-- One token, in units
abbrev pub one_token : ℕ
one_token = 60000

unfoldable pub new_bucket : ℕ → ℕ → ℕ → TokenBucket
new_bucket max_tokens refill_rate now = record {
  tokens = max_tokens;
  max_tokens = max_tokens;
  refill_rate = refill_rate;
  last_refill = now;
}

-- What the bucket holds after its refill at time `now`, which is not before the last one
abbrev pub refilled : ℕ → TokenBucket → ℕ
refilled now b = min b.max_tokens (b.tokens + (now - b.last_refill) * b.refill_rate)

unfoldable pub consume : ℕ → TokenBucket → TokenBucket × Bool
consume now b =
    if leb one_token (refilled now b)
    then (record b { tokens = refilled now b - one_token; last_refill = now }, true)
    else (record b { tokens = refilled now b; last_refill = now }, false)

-- `TokenBucketRateLimiter`, with its rate in units per millisecond
pub record RateLimiter : Type 0 where
  pub refill_rate : ℕ
  pub burst_size : ℕ
  pub buckets : Dict String TokenBucket

unfoldable pub init : ℕ → ℕ → RateLimiter
init requests_per_minute burst_size = record {
  refill_rate = requests_per_minute;
  burst_size = burst_size;
  buckets = [];
}

bucket_or_new : ℕ → RateLimiter → Option TokenBucket → TokenBucket
unfolding new_bucket
bucket_or_new now l none = new_bucket (l.burst_size * one_token) l.refill_rate now
bucket_or_new now l (some bucket) = bucket

-- `_get_bucket`: the bucket of an address, which a first request makes at time `now`
unfoldable pub get_bucket : String → ℕ → RateLimiter → TokenBucket
unfolding bucket_or_new
get_bucket client_ip now l = bucket_or_new now l (get client_ip l.buckets)

-- A request, by its `x-forwarded-for` header and the host of its connection
pub record Request : Type 0 where
  pub forwarded : Option String
  pub client : Option String

host_or_unknown : Option String → String
host_or_unknown none = "unknown"
host_or_unknown (some host) = host

forwarded_or_host : Option String → Option String → String
unfolding first_field strip host_or_unknown
forwarded_or_host none client = host_or_unknown client
forwarded_or_host (some forwarded) client =
    if truthy forwarded then strip (first_field b',' forwarded) else host_or_unknown client

unfoldable pub extract_client_ip : Request → String
unfolding forwarded_or_host
extract_client_ip request = forwarded_or_host request.forwarded request.client

-- What the middleware does with a request: it goes on, or is answered with 429.
pub data Verdict : Type 0 where
  passed rejected : Verdict

-- `dispatch`: `made` is the clock when a missing bucket is made, `now` when it is asked. The bucket
-- is an object of the dict, so what `consume` does to it is seen there.
unfoldable pub dispatch : Request → ℕ → ℕ → RateLimiter → RateLimiter × Verdict
dispatch request made now l =
    let client_ip = extract_client_ip request in
    let (bucket, allowed) = consume now (get_bucket client_ip made l) in
    (record l { buckets = put client_ip bucket l.buckets }, if allowed then passed else rejected)

extract_client_ip_test :
    extract_client_ip (record { forwarded = some " 10.1.1.1 , 10.2.2.2"; client = some "::1" })
    ≡ "10.1.1.1"
unfolding extract_client_ip
extract_client_ip_test = refl
