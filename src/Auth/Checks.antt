-- ===== src/Auth/Checks.antt =====
-- Which tokens are accepted, and which requests the middleware lets through.
use hermes_a2a_v.Prelude.{
  ap, subst, ◌∙◌, ℕ, ◌≡◌, refl, String, Bool, true, false, Option, none, some, List, [], ◌∷◌, arith,
  Result, ok, raise, eq_iff,
}
use hermes_a2a_v.Text.{◌⧺◌, drop_chars, starts_with}
use hermes_a2a_v.Auth.{
  Libraries, JwtAuth, Payload, hs256, rs256, b64url_encode, verify, sign, authentic, split_payload,
  b64url_decode, read_token, validate_token, refresh_token, is_past,
}
use hermes_a2a_v.Auth.Middleware.{passed, header_or_empty, checked, dispatch, is_public_path}
use hermes_a2a_v.Auth.Encoding.{split_dots, three_parts, compare_digest}

module _ (lib : Libraries) (auth : JwtAuth) where
  -- A token with a signature of the server's own secret: three fields, the last of which is the
  -- encoded HMAC of the first two.
  pub record IsSigned (token : String) : Type 0 where
    pub header : String
    pub payload : String
    pub fields :
        split_dots token
        ≡ header
          ∷ payload
          ∷ b64url_encode lib (lib.hmac_sha256 auth.secret (header ⧺ "." ⧺ payload))
          ∷ []

  verify-signature :
      (message signature : String)
      → auth.algorithm ≡ hs256
      → verify lib auth message signature ≡ ok true
      → signature ≡ b64url_encode lib (lib.hmac_sha256 auth.secret message)
  unfolding verify sign compare_digest
  verify-signature message signature h e =
      let expected = b64url_encode lib (lib.hmac_sha256 auth.secret message) in
      ground (arith, h, e, eq_iff expected signature)

  authentic-verified :
      (invalid : String) (wrap : String → String) (v : Result String Bool)
      (bytes : Result String String) (payload : Payload)
      → authentic lib invalid wrap v bytes ≡ ok payload
      → v ≡ ok true
  unfolding authentic
  authentic-verified invalid wrap (raise exc) bytes payload e = absurd (ground (arith, e))
  authentic-verified invalid wrap (ok false) bytes payload e = absurd (ground (arith, e))
  authentic-verified invalid wrap (ok true) bytes payload e = refl

  -- What is accepted has three fields, and its signature was verified.
  split-verified :
      (invalid : String) (wrap : String → String) (parts : List String) (payload : Payload)
      → split_payload lib invalid wrap auth (three_parts parts) ≡ ok payload
      → (header body signature : String) × (parts ≡ header ∷ body ∷ signature ∷ [])
        × (verify lib auth (header ⧺ "." ⧺ body) signature ≡ ok true)
  unfolding split_payload three_parts
  split-verified invalid wrap [] payload e = absurd (ground (arith, e))
  split-verified invalid wrap (a ∷ []) payload e = absurd (ground (arith, e))
  split-verified invalid wrap (a ∷ b ∷ []) payload e = absurd (ground (arith, e))
  split-verified invalid wrap (a ∷ b ∷ c ∷ []) payload e = (
    a,
    b,
    c,
    refl,
    authentic-verified invalid wrap (verify lib auth (a ⧺ "." ⧺ b) c) (b64url_decode lib b) payload
        e,
  )
  split-verified invalid wrap (a ∷ b ∷ c ∷ d ∷ more) payload e = absurd (ground (arith, e))

  read_token-IsSigned :
      (invalid : String) (wrap : String → String) (token : String) (payload : Payload)
      → auth.algorithm ≡ hs256
      → read_token lib invalid wrap auth token ≡ ok payload
      → IsSigned token
  unfolding read_token
  read_token-IsSigned invalid wrap token payload h e =
      let (header, body, signature, fields, verified) =
        split-verified invalid wrap (split_dots token) payload e in
      let own = verify-signature (header ⧺ "." ⧺ body) signature h verified in
      record {
        header = header;
        payload = body;
        fields = fields ∙ ap (λ s. header ∷ body ∷ s ∷ []) own;
      }

  -- With HS256, a token that is validated carries a signature made with the server's secret, and has
  -- not expired.
  pub validate_token-IsSigned :
      (token : String) (payload : Payload) (now : ℕ)
      → auth.algorithm ≡ hs256
      → validate_token lib auth token now ≡ ok payload
      → IsSigned token × (is_past payload.exp 0 now ≡ false)
  unfolding validate_token
  validate_token-IsSigned token payload now h e =
      go (read_token lib "Invalid signature" (λ x. "Token validation error: " ⧺ x) auth token) refl
    where
      go :
          (r : Result String Payload)
          → read_token lib "Invalid signature" (λ x. "Token validation error: " ⧺ x) auth token ≡ r
          → IsSigned token × (is_past payload.exp 0 now ≡ false)
      go (raise exc) q = absurd (ground (arith, e, q))
      go (ok p) q =
          let past : is_past p.exp 0 now ≡ false = ground (arith, e, q) in
          let same : p ≡ payload = ground (arith, e, q) in
          (
            read_token-IsSigned "Invalid signature" (λ x. "Token validation error: " ⧺ x) token p h
                q,
            subst (λ (x : Payload). is_past x.exp 0 now ≡ false) same past,
          )

  -- With HS256, only a token that carries a signature made with the server's secret is refreshed.
  pub refresh_token-IsSigned :
      (token new : String) (now later : ℕ)
      → auth.algorithm ≡ hs256
      → refresh_token lib auth token now later ≡ ok new
      → IsSigned token
  unfolding refresh_token
  refresh_token-IsSigned token new now later h e =
      go
        (read_token lib "Invalid signature — cannot refresh" (λ x. "Token refresh error: " ⧺ x) auth
          token)
        refl
    where
      go :
          (r : Result String Payload)
          → read_token lib "Invalid signature — cannot refresh"
              (λ x. "Token refresh error: " ⧺ x)
              auth
              token
            ≡ r
          → IsSigned token
      go (raise exc) q = absurd (ground (arith, e, q))
      go (ok p) q =
          read_token-IsSigned "Invalid signature — cannot refresh"
            (λ x. "Token refresh error: " ⧺ x) token p h q

  -- With RS256, the verdict on a signature does not depend on the message: openssl is not given it.
  pub rs256_ignores_message :
      (message other signature : String)
      → auth.algorithm ≡ rs256
      → verify lib auth message signature ≡ verify lib auth other signature
  unfolding verify
  rs256_ignores_message message other signature h = ground (arith, h)

-- A request on a path that is not public gets through with HS256 only with a bearer token that
-- validates: it carries a signature made with the server's secret, and its payload has not expired.
pub dispatch-guards :
    (lib : Libraries) (auth : JwtAuth) (now : ℕ) (path : String) (authorization : Option String)
    → auth.algorithm ≡ hs256
    → is_public_path path ≡ false
    → dispatch lib auth now path authorization ≡ passed
    → (header : String) × (payload : Payload) × (authorization ≡ some header)
      × (starts_with header "Bearer " ≡ true)
      × (validate_token lib auth (drop_chars 7 header) now ≡ ok payload)
      × IsSigned lib auth (drop_chars 7 header)
      × (is_past payload.exp 0 now ≡ false)
unfolding dispatch checked header_or_empty starts_with
dispatch-guards lib auth now path none h closed e = absurd (ground (arith, e, closed))
dispatch-guards lib auth now path (some header) h closed e =
    go (validate_token lib auth (drop_chars 7 header) now) refl
  where
    go :
        (r : Result String Payload)
        → validate_token lib auth (drop_chars 7 header) now ≡ r
        → (x : String) × (payload : Payload) × (some header ≡ some x)
          × (starts_with x "Bearer " ≡ true)
          × (validate_token lib auth (drop_chars 7 x) now ≡ ok payload)
          × IsSigned lib auth (drop_chars 7 x)
          × (is_past payload.exp 0 now ≡ false)
    go (raise exc) q = absurd (ground (arith, e, closed, q))
    go (ok payload) q =
        let (signed, fresh) =
          validate_token-IsSigned lib auth (drop_chars 7 header) payload now h q in
        (header, payload, refl, ground (arith, e, closed), q, signed, fresh)
