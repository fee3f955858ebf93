-- ===== src/Scenarios/Access.antt =====
-- Runs of the token checks, over small stand-ins for the libraries.
use hermes_a2a_v.Prelude.{
  arith, ◌≡◌, refl, String, true, false, none, some, str_eq, if◌then◌else◌, ok, raise,
}
use hermes_a2a_v.Text.{drop_chars, starts_with}
use hermes_a2a_v.Auth.{
  Libraries, JwtAuth, Payload, hs256, rs256, verify, validate_token, refresh_token, generate_token,
  payload_at, is_past, message_of,
}
use hermes_a2a_v.Auth.Middleware.{dispatch}
use hermes_a2a_v.Auth.Encoding.{padding}
use hermes_a2a_v.Auth.Checks.{IsSigned, rs256_ignores_message, dispatch-guards}
use hermes_a2a_v.Auth.Tokens.{is_plain}
use hermes_a2a_v.Auth.Roundtrip.{IsReadable, generate-validate}

abbrev claims : Payload
claims = record { sub = some "ann"; iat = some 1; exp = some 3601; scopes = none }

-- Texts of four letters stand for themselves; the HMAC "mac" needs padding.
abbrev small : Libraries
small = record {
  hmac_sha256 = λ key message. "mac";
  urlsafe_b64encode = λ x. if str_eq x "mac" then "bWE=" else x;
  urlsafe_b64decode = λ x. if str_eq x "bWE=" then ok "mac" else ok x;
  dump_header = λ name. "head";
  dump_payload = λ p. "load";
  read_payload = λ t. ok claims;
  openssl = λ args input. (true, "");
}

abbrev server : JwtAuth
server = record {
  secret = "key";
  algorithm = hs256;
  expiry_seconds = 3600;
  grace_seconds = 300;
  private_key_pem = none;
  public_key_pem = none;
}

abbrev token : String
token = "head.load.bWE"

readable : IsReadable small server claims
unfolding is_plain padding message_of
readable = record {
  head = record {
    body = "head";
    pads = 0;
    encoded = refl;
    plain = refl;
    few = omega arith;
    aligned = refl;
    decodes = refl;
  };
  claims = record {
    body = "load";
    pads = 0;
    encoded = refl;
    plain = refl;
    few = omega arith;
    aligned = refl;
    decodes = refl;
  };
  mac = record {
    body = "bWE";
    pads = 1;
    encoded = refl;
    plain = refl;
    few = omega arith;
    aligned = refl;
    decodes = refl;
  };
  loads = refl;
}

generate-validate_example :
    (t : String) × (generate_token small server "ann" none 1500 ≡ ok t)
    × (validate_token small server t 9000
        ≡ (if is_past (some 3601) 0 9000 then raise "Token has expired" else ok claims))
    × (refresh_token small server t 9000 9500 ≡ (
        if is_past (some 3601) 300 9000
        then raise "Token is beyond refresh grace period"
        else generate_token small server "ann" none 9500))
unfolding payload_at
generate-validate_example = generate-validate small server refl "ann" none 1500 9000 9500 readable

dispatch-guards_example :
    (header : String) × (payload : Payload) × (some "Bearer head.load.bWE" ≡ some header)
    × (starts_with header "Bearer " ≡ true)
    × (validate_token small server (drop_chars 7 header) 9000 ≡ ok payload)
    × IsSigned small server (drop_chars 7 header)
    × (is_past payload.exp 0 9000 ≡ false)
unfolding dispatch
dispatch-guards_example =
    dispatch-guards small server 9000 "/rpc" (some "Bearer head.load.bWE") refl refl refl

rs256_ignores_message_example :
    verify small (record server { algorithm = rs256 }) "head.load" "sig"
    ≡ verify small (record server { algorithm = rs256 }) "head.evil" "sig"
rs256_ignores_message_example =
    rs256_ignores_message small (record server { algorithm = rs256 }) "head.load" "head.evil" "sig"
      refl
