-- ===== src/Auth/Roundtrip.antt =====
-- A token that the server makes is read back by it.
use hermes_a2a_v.Prelude.{
  ℕ, ◌+◌, ◌/◌, ◌%◌, ◌≤◌, ◌≡◌, refl, ◌∙◌, ap, sym, String, true, Option, some, List, [], ◌∷◌, ok,
  raise, eq_refl, if◌then◌else◌,
}
use hermes_a2a_v.Text.{◌⧺◌, str_len}
use hermes_a2a_v.Auth.{
  Libraries, JwtAuth, Payload, hs256, b64url_encode, b64url_decode, verify, sign, read_token,
  validate_token, refresh_token, generate_token, payload_at, message_of, is_past, split_payload,
  authentic, decoded, signed, subject_of, algorithm_name,
}
use hermes_a2a_v.Auth.Encoding.{split_dots, compare_digest, padding, three_parts, pad}
use hermes_a2a_v.Auth.Tokens.{three_fields, is_plain, rstrip-plain, pad-restores, is_ascii-plain}

-- What the code relies on in base64 for one text: the encoded text is a body without `=` and `.`, with
-- at most two `=` that fill it up to groups of four, and decoding gives the text back.
pub record IsEncoded (lib : Libraries) (x : String) : Type 0 where
  pub body : String
  pub pads : ℕ
  pub encoded : lib.urlsafe_b64encode x ≡ body ⧺ padding pads
  pub plain : is_plain body ≡ true
  pub few : pads ≤ 2
  pub aligned : (str_len body + pads) % 4 ≡ 0
  pub decodes : lib.urlsafe_b64decode (lib.urlsafe_b64encode x) ≡ ok x

-- What it relies on for one token: base64 for the header, the payload and the HMAC, and json, which
-- reads the payload back from its text.
pub record IsReadable (lib : Libraries) (auth : JwtAuth) (payload : Payload) : Type 0 where
  pub head : IsEncoded lib (lib.dump_header (algorithm_name auth.algorithm))
  pub claims : IsEncoded lib (lib.dump_payload payload)
  pub mac : IsEncoded lib (lib.hmac_sha256 auth.secret (message_of lib auth payload))
  pub loads : lib.read_payload (lib.dump_payload payload) ≡ ok payload

module _ (lib : Libraries) (x : String) (e : IsEncoded lib x) where
  encode-body : b64url_encode lib x ≡ e.body
  unfolding b64url_encode
  encode-body = rw e.encoded (rstrip-plain e.body e.pads e.plain)

  encode-plain : is_plain (b64url_encode lib x) ≡ true
  encode-plain = rw encode-body e.plain

  decode-encode : b64url_decode lib (b64url_encode lib x) ≡ ok x
  unfolding b64url_decode
  decode-encode =
      let padded = pad-restores e.body e.pads e.few e.aligned in
      ap lib.urlsafe_b64decode (ap pad encode-body ∙ padded ∙ sym e.encoded) ∙ e.decodes

module _ (lib : Libraries) (auth : JwtAuth) (symmetric : auth.algorithm ≡ hs256) where
  signature : String → String
  signature message = b64url_encode lib (lib.hmac_sha256 auth.secret message)

  verify-own :
      (message : String)
      → IsEncoded lib (lib.hmac_sha256 auth.secret message)
      → verify lib auth message (signature message) ≡ ok true
  unfolding verify sign compare_digest signature
  verify-own message e =
      let x = lib.hmac_sha256 auth.secret message in
      let ascii = is_ascii-plain (b64url_encode lib x) (encode-plain lib x e) in
      rw symmetric (rw ascii (rw (eq_refl (b64url_encode lib x)) refl))

  verify-message :
      (payload : Payload)
      → IsReadable lib auth payload
      → verify lib auth
          (b64url_encode lib (lib.dump_header (algorithm_name auth.algorithm))
            ⧺ "."
            ⧺ b64url_encode lib (lib.dump_payload payload))
          (signature (message_of lib auth payload))
        ≡ ok true
  unfolding message_of
  verify-message payload r = verify-own (message_of lib auth payload) r.mac

  token_of : Payload → String
  token_of payload = message_of lib auth payload ⧺ "." ⧺ signature (message_of lib auth payload)

  generates :
      (subject : String) (scopes : Option (List String)) (now : ℕ)
      → generate_token lib auth subject scopes now
        ≡ ok (token_of (payload_at lib auth subject scopes now))
  unfolding generate_token sign token_of signature signed
  generates subject scopes now = rw symmetric refl

  fields :
      (payload : Payload)
      → IsReadable lib auth payload
      → let header = b64url_encode lib (lib.dump_header (algorithm_name auth.algorithm)) in
        split_dots (token_of payload)
        ≡ header
          ∷ b64url_encode lib (lib.dump_payload payload)
          ∷ signature (message_of lib auth payload)
          ∷ []
  unfolding token_of message_of
  fields payload r =
      three_fields (b64url_encode lib (lib.dump_header (algorithm_name auth.algorithm)))
        (b64url_encode lib (lib.dump_payload payload)) (signature (message_of lib auth payload))
        (encode-plain lib (lib.dump_header (algorithm_name auth.algorithm)) r.head)
        (encode-plain lib (lib.dump_payload payload) r.claims)
        (unfold signature in
          encode-plain lib (lib.hmac_sha256 auth.secret (message_of lib auth payload)) r.mac)

  read-own :
      (invalid : String) (wrap : String → String) (payload : Payload)
      → IsReadable lib auth payload
      → read_token lib invalid wrap auth (token_of payload) ≡ ok payload
  unfolding read_token split_payload three_parts authentic decoded
  read-own invalid wrap payload r = rw (fields payload r) (
      rw (verify-message payload r)
        (rw (decode-encode lib (lib.dump_payload payload) r.claims) (rw (decoded, r.loads) refl)))

  -- With HS256, and base64 and json that give back what they encoded of this token, a token is generated
  -- for any subject and scopes, and the server reads it back: it validates to its payload until it expires, and is refused as expired afterwards;
  -- and it is refreshed, for the same subject and scopes, until the grace period after that is over.
  pub generate-validate :
      (subject : String) (scopes : Option (List String)) (now then_now later : ℕ)
      → IsReadable lib auth (payload_at lib auth subject scopes now)
      → let payload = payload_at lib auth subject scopes now in
        let expiry = some (now / 1000 + auth.expiry_seconds) in
        (token : String) × (generate_token lib auth subject scopes now ≡ ok token)
        × (validate_token lib auth token then_now
            ≡ (if is_past expiry 0 then_now then raise "Token has expired" else ok payload))
        × (refresh_token lib auth token then_now later ≡ (
            if is_past expiry auth.grace_seconds then_now
            then raise "Token is beyond refresh grace period"
            else generate_token lib auth subject payload.scopes later))
  unfolding validate_token refresh_token payload_at subject_of
  generate-validate subject scopes now then_now later r =
      let payload = payload_at lib auth subject scopes now in
      (
        token_of payload,
        generates subject scopes now,
        rw
            (
              validate_token,
              read-own "Invalid signature" (λ e. "Token validation error: " ⧺ e) payload r,
            )
            refl,
        rw
            (
              refresh_token,
              read-own "Invalid signature — cannot refresh" (λ e. "Token refresh error: " ⧺ e)
                  payload r,
            )
            refl,
      )
