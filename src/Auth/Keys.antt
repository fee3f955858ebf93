-- ===== src/Auth/Keys.antt =====
-- `JWTAuth.__init__` of src/hermes_a2a/auth.py: the algorithm and the key files. Paths are texts, and
-- pathlib is an argument; `read_bytes` gives the bytes of a path that exists.
use hermes_a2a_v.Prelude.{
  ℕ, ◌≡◌, refl, String, Option, none, some, Result, ok, raise, str_eq, if◌then◌else◌, is_some,
  subst, arith,
}
use hermes_a2a_v.Text.{◌⧺◌}
use hermes_a2a_v.Auth.{Libraries, Algorithm, hs256, rs256, JwtAuth, sign, rs_sign}

-- What the code calls of pathlib
pub record PathLib : Type 0 where
  pub with_suffix : String → String → String
  pub with_name : String → String → String
  pub stem : String → String
  pub suffix : String → String

module _ (lib : PathLib) (read_bytes : String → Option String) where
  -- The public key beside a private key
  unfoldable pub public_beside : String → Option String
  public_beside key_path =
      let pub_path = lib.with_suffix key_path ".pub.pem" in
      let other_path =
        lib.with_name key_path (lib.stem key_path ⧺ "-public" ⧺ lib.suffix key_path) in
      if is_some (read_bytes pub_path) then read_bytes pub_path else read_bytes other_path

  public_of : String → Option String → Option String
  unfolding public_beside
  public_of key_path none = none
  public_of key_path (some key) = public_beside key_path

  made : Algorithm → String → ℕ → ℕ → Option String → Option String → JwtAuth
  made algorithm secret expiry_seconds grace_seconds private_key public_key = record {
    secret = secret;
    algorithm = algorithm;
    expiry_seconds = expiry_seconds;
    grace_seconds = grace_seconds;
    private_key_pem = private_key;
    public_key_pem = public_key;
  }

  -- `JWTAuth(secret, algorithm, ...)`, or the text of the ValueError
  unfoldable pub init : String → String → ℕ → ℕ → Result String JwtAuth
  unfolding made public_of
  init secret algorithm expiry_seconds grace_seconds =
      if str_eq algorithm "HS256"
      then ok (made hs256 secret expiry_seconds grace_seconds none none)
      else if str_eq algorithm "RS256"
      then ok (
          made rs256 secret expiry_seconds grace_seconds (read_bytes secret)
            (public_of secret (read_bytes secret)))
      else raise ("Unsupported algorithm: " ⧺ algorithm)

  -- With RS256 and no file under the path, every signature is refused, for want of the key.
  pub init-unsigned :
      (libraries : Libraries) (secret : String) (expiry_seconds grace_seconds : ℕ) (auth : JwtAuth)
      (message : String)
      → read_bytes secret ≡ none
      → init secret "RS256" expiry_seconds grace_seconds ≡ ok auth
      → (sign libraries auth message ≡ raise "RS256 requires a private key file")
        × (auth.public_key_pem ≡ none)
  unfolding init sign rs_sign
  init-unsigned libraries secret expiry_seconds grace_seconds auth message no_file h =
      let same : made rs256 secret expiry_seconds grace_seconds none none ≡ auth =
        ground (arith, h, no_file) in
      subst
        (λ a.
          (sign libraries a message ≡ raise "RS256 requires a private key file")
          × (a.public_key_pem ≡ none))
        same (refl, refl)
