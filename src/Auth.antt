-- ===== src/Auth.antt =====
-- src/hermes_a2a/auth.py: tokens and the middleware that asks for them. Bytes are texts, one character
-- for a byte. hmac, base64, json and openssl are the fields of `Libraries`. Readings of `time.time()`
-- are arguments, in milliseconds; `exp` and the other times of a token are in seconds. Keys,
-- Encoding and Middleware hold parts of it; the proofs are in the other children.
pub mod Encoding
pub mod Keys
pub mod Middleware
pub mod Checks
pub mod Tokens
pub mod Roundtrip
use Prim.Native.Char.{Char, code}
use hermes_a2a_v.Prelude.{
  ℕ, zero, suc, ◌+◌, ◌-◌, ◌*◌, ◌/◌, ◌%◌, String, Bool, true, false, not, ◌&&◌, ◌||◌, Option, none,
  some, List, [], ◌∷◌, ltb, ◌==◌, str_eq, if◌then◌else◌, is_empty, Result, ok, raise,
}
use hermes_a2a_v.Auth.Encoding.{rstrip_padding, pad, split_dots, compare_digest, three_parts}
use hermes_a2a_v.Text.{◌⧺◌, str_len, drop_chars, starts_with}

-- The payload dict of a token, by the keys that the code reads and writes.
pub record Payload : Type 0 where
  pub sub : Option String
  pub iat : Option ℕ
  pub exp : Option ℕ
  pub scopes : Option (List String)

-- The library functions that the code calls. `openssl` gives, for its arguments and input, whether
-- the return code is 0, and the output. `read_payload` is `json.loads` with the reads that follow.
pub record Libraries : Type 0 where
  pub hmac_sha256 : String → String → String
  pub urlsafe_b64encode : String → String
  pub urlsafe_b64decode : String → Result String String
  pub dump_header : String → String
  pub dump_payload : Payload → String
  pub read_payload : String → Result String Payload
  pub openssl : List String → String → Bool × String

pub data Algorithm : Type 0 where
  hs256 rs256 : Algorithm

pub record JwtAuth : Type 0 where
  pub secret : String
  pub algorithm : Algorithm
  pub expiry_seconds : ℕ
  pub grace_seconds : ℕ
  pub private_key_pem : Option String
  pub public_key_pem : Option String

unfoldable pub algorithm_name : Algorithm → String
algorithm_name hs256 = "HS256"
algorithm_name rs256 = "RS256"

-- `exp is not None and time.time() > exp + grace`
unfoldable pub is_past : Option ℕ → ℕ → ℕ → Bool
is_past none grace now = false
is_past (some exp) grace now = ltb ((exp + grace) * 1000) now

module _ (lib : Libraries) where
  unfoldable pub b64url_encode : String → String
  unfolding rstrip_padding
  b64url_encode bytes = rstrip_padding (lib.urlsafe_b64encode bytes)

  unfoldable pub b64url_decode : String → Result String String
  unfolding pad
  b64url_decode s = lib.urlsafe_b64decode (pad s)

  rs_signature : Bool × String → Result String String
  unfolding b64url_encode
  rs_signature (true, stdout) = ok (b64url_encode stdout)
  rs_signature (false, stdout) = raise "RS256 signing failed"

  rs_sign : JwtAuth → String → Option String → Result String String
  unfolding rs_signature
  rs_sign auth message none = raise "RS256 requires a private key file"
  rs_sign auth message (some key) =
      rs_signature
        (lib.openssl ("dgst" ∷ "-binary" ∷ "-sha256" ∷ "-sign" ∷ auth.secret ∷ []) message)

  -- `_sign`: the signature, or the text of the `AuthenticationError`
  unfoldable pub sign : JwtAuth → String → Result String String
  unfolding b64url_encode rs_sign
  sign auth message = elim auth.algorithm [
    | hs256 ↦ ok (b64url_encode (lib.hmac_sha256 auth.secret message))
    | rs256 ↦ rs_sign auth message auth.private_key_pem
  ]

  -- The public key: the one that was loaded, or the one that openssl makes of the private key
  public_key : JwtAuth → Option String → Bool × String
  public_key auth (some pem) = (true, pem)
  public_key auth none = lib.openssl ("rsa" ∷ "-in" ∷ auth.secret ∷ "-pubout" ∷ []) ""

  rs_verify : Bool × String → Result String String → Result String Bool
  rs_verify (found, key) (raise exc) = raise exc
  rs_verify (false, key) (ok sig_bytes) = ok false
  rs_verify (true, key) (ok sig_bytes) =
      ok
        (lib.openssl
          ("dgst" ∷ "-sha256" ∷ "-verify" ∷ "/dev/stdin" ∷ "-signature" ∷ "/dev/stdin" ∷ [])
          (key ⧺ sig_bytes)).0

  -- `compare_digest(expected, signature_b64)`
  compared : Result String String → String → Result String Bool
  unfolding compare_digest
  compared (raise exc) signature_b64 = raise exc
  compared (ok expected) signature_b64 = compare_digest expected signature_b64

  -- `_verify`; a raised text is that of any exception
  unfoldable pub verify : JwtAuth → String → String → Result String Bool
  unfolding compared sign rs_verify public_key b64url_decode
  verify auth message signature_b64 = elim auth.algorithm [
    | hs256 ↦ compared (sign auth message) signature_b64
    | rs256 ↦ rs_verify (public_key auth auth.public_key_pem) (b64url_decode signature_b64)
  ]

  new_scopes : Option (List String) → Option (List String)
  new_scopes none = none
  new_scopes (some scopes) = if is_empty scopes then none else some scopes

  unfoldable pub payload_at : JwtAuth → String → Option (List String) → ℕ → Payload
  unfolding new_scopes
  payload_at auth subject scopes now = record {
    sub = some subject;
    iat = some (now / 1000);
    exp = some (now / 1000 + auth.expiry_seconds);
    scopes = new_scopes scopes;
  }

  unfoldable pub message_of : JwtAuth → Payload → String
  unfolding b64url_encode algorithm_name
  message_of auth payload =
      b64url_encode (lib.dump_header (algorithm_name auth.algorithm))
      ⧺ "."
      ⧺ b64url_encode (lib.dump_payload payload)

  signed : String → Result String String → Result String String
  signed message (raise exc) = raise exc
  signed message (ok signature) = ok (message ⧺ "." ⧺ signature)

  unfoldable pub generate_token : JwtAuth → String → Option (List String) → ℕ → Result String String
  unfolding signed payload_at message_of sign
  generate_token auth subject scopes now =
      let message = message_of auth (payload_at auth subject scopes now) in
      signed message (sign auth message)

  decoded : (String → String) → Result String String → Result String Payload
  decoded wrap (raise exc) = raise (wrap exc)
  decoded wrap (ok payload_bytes) = elim (lib.read_payload payload_bytes) [
    | raise exc ↦ raise (wrap exc)
    | ok payload ↦ ok payload
  ]

  authentic :
      String → (String → String) → Result String Bool → Result String String → Result String Payload
  unfolding decoded
  authentic invalid wrap (raise exc) payload_bytes = raise (wrap exc)
  authentic invalid wrap (ok false) payload_bytes = raise invalid
  authentic invalid wrap (ok true) payload_bytes = decoded wrap payload_bytes

  split_payload :
      String
      → (String → String)
      → JwtAuth
      → Option (String × String × String)
      → Result String Payload
  unfolding authentic verify b64url_decode
  split_payload invalid wrap auth none = raise "Invalid token format"
  split_payload invalid wrap auth (some (header_b64, payload_b64, signature_b64)) =
      authentic invalid wrap (verify auth (header_b64 ⧺ "." ⧺ payload_b64) signature_b64)
        (b64url_decode payload_b64)

  -- What `validate_token` and `refresh_token` both do first: split, verify, decode. The texts are that
  -- for a wrong signature and that for an exception which is no `AuthenticationError`.
  unfoldable pub read_token : String → (String → String) → JwtAuth → String → Result String Payload
  unfolding split_dots three_parts split_payload
  read_token invalid wrap auth token =
      split_payload invalid wrap auth (three_parts (split_dots token))

  unfoldable pub validate_token : JwtAuth → String → ℕ → Result String Payload
  unfolding read_token is_past
  validate_token auth token now =
      elim (read_token "Invalid signature" (λ e. "Token validation error: " ⧺ e) auth token) [
        | raise exc ↦ raise exc
        | ok payload ↦ if is_past payload.exp 0 now then raise "Token has expired" else ok payload
      ]

  subject_of : Option String → String
  subject_of none = ""
  subject_of (some subject) = subject

  -- `now` is the clock at the check, and `later` that of the new token.
  unfoldable pub refresh_token : JwtAuth → String → ℕ → ℕ → Result String String
  unfolding read_token is_past generate_token subject_of
  refresh_token auth token now later =
      elim (read_token "Invalid signature — cannot refresh" (λ e. "Token refresh error: " ⧺ e) auth
        token) [
          | raise exc ↦ raise exc
          | ok payload ↦
              if is_past payload.exp auth.grace_seconds now
              then raise "Token is beyond refresh grace period"
              else generate_token auth (subject_of payload.sub) payload.scopes later
        ]
