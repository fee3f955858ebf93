-- ===== src/RateLimiter/Bounds.antt =====
-- How many requests one bucket admits.
use native.Mathlib.Nat.{add-mul}
use hermes_a2a_v.Prelude.{
  ap, ◌∙◌, length, subst, sym, ℕ, ◌+◌, ◌-◌, ◌*◌, ◌≤◌, ◌≡◌, refl, Bool, true, false, List, [], ◌∷◌,
  arith, leb, if◌then◌else◌,
}
use hermes_a2a_v.RateLimiter.{TokenBucket, consume, one_token, refilled}

-- The bucket and the answers after requests at the given times.
unfoldable pub consume_all : List ℕ → TokenBucket → TokenBucket × List Bool
consume_all [] b = (b, [])
consume_all (t ∷ ts) b =
    let (b', allowed) = consume t b in let (b'', more) = consume_all ts b' in (b'', allowed ∷ more)

unfoldable pub admitted : List Bool → ℕ
admitted [] = 0
admitted (true ∷ bs) = admitted bs + 1
admitted (false ∷ bs) = admitted bs

-- The clock does not run backwards: from time `t` on.
abbrev pub IsClock : ℕ → List ℕ → Type 0
IsClock t [] = Unit
IsClock t (u ∷ us) = (t ≤ u) × IsClock u us

-- The last of the times, or `t` if there is none.
abbrev pub last_of : ℕ → List ℕ → ℕ
last_of t [] = t
last_of t (u ∷ us) = last_of u us

last_of-le : (t : ℕ) (ts : List ℕ) → IsClock t ts → t ≤ last_of t ts
last_of-le t [] c = omega arith
last_of-le t (u ∷ us) c = omega (arith, c.0, last_of-le u us c.1)

spend :
    (t : ℕ) (b : TokenBucket)
    → b.tokens ≤ b.max_tokens
    → let (b', allowed) = consume t b in
      (b'.tokens ≤ b'.max_tokens)
      × (b'.max_tokens ≡ b.max_tokens)
      × (b'.refill_rate ≡ b.refill_rate)
      × (b'.last_refill ≡ t)
      × (b'.tokens + (if allowed then one_token else 0)
          ≤ b.tokens + (t - b.last_refill) * b.refill_rate)
unfolding consume
spend t b h = ground arith

admitted-cons :
    (a : Bool) (bs : List Bool)
    → admitted (a ∷ bs) * one_token ≡ admitted bs * one_token + (if a then one_token else 0)
unfolding admitted
admitted-cons true bs = omega arith
admitted-cons false bs = omega arith

module _ (rate : ℕ) where
  -- The refills of two spans of time that meet make that of the whole span.
  spans : (a b c : ℕ) → a ≤ b → b ≤ c → (b - a) * rate + (c - b) * rate ≡ (c - a) * rate
  spans a b c l m =
      let whole : b - a + (c - b) ≡ c - a = omega arith in
      sym (add-mul (b - a) (c - b) rate) ∙ ap (λ n. n * rate) whole

-- From a bucket that is not over its capacity, under a clock that does not run backwards: what is
-- left and what was admitted together are at most what there was and what the time since then
-- refilled. So a bucket never admits more than its tokens and its rate allow.
pub consume_all-le :
    (ts : List ℕ) (b : TokenBucket)
    → b.tokens ≤ b.max_tokens
    → IsClock b.last_refill ts
    → let (b', answers) = consume_all ts b in
      (b'.tokens ≤ b'.max_tokens)
      × (b'.tokens + admitted answers * one_token
          ≤ b.tokens + (last_of b.last_refill ts - b.last_refill) * b.refill_rate)
unfolding consume_all admitted
consume_all-le [] b h c = (h, omega arith)
consume_all-le (t ∷ ts) b h (l, c) =
    let (cap, max, rate, at, spent) = spend t b h in
    let b' = (consume t b).0 in
    let (cap', rest) = consume_all-le ts b' cap (subst (λ x. IsClock x ts) (sym at) c) in
    let rest' : (consume_all ts b').0.tokens + admitted (consume_all ts b').1 * one_token
        ≤ b'.tokens + (last_of t ts - t) * b.refill_rate =
      rw (at, rate) at rest in
    let e = spans b.refill_rate b.last_refill t (last_of t ts) l (last_of-le t ts c) in
    (cap', omega (arith, rest', e, spent, admitted-cons (consume t b).1 (consume_all ts b').1))

-- A bucket that holds at least as many tokens as there are requests admits them all.
pub burst_admitted :
    (ts : List ℕ) (b : TokenBucket)
    → length ts * one_token ≤ b.tokens
    → b.tokens ≤ b.max_tokens
    → admitted (consume_all ts b).1 ≡ length ts
unfolding consume_all admitted consume
burst_admitted [] b h c = refl
burst_admitted (t ∷ ts) b h c =
    let enough : leb one_token (refilled t b) ≡ true = ground (arith, h, c) in
    let room : length ts * one_token ≤ refilled t b - one_token = ground (arith, h, c) in
    let within : refilled t b - one_token ≤ b.max_tokens = ground arith in
    let rest =
      burst_admitted ts (record b { tokens = refilled t b - one_token; last_refill = t }) room
        within in
    rw enough (omega (arith, rest))
