-- ===== src/TlsConfig.antt =====
-- src/hermes_a2a/tls_config.py: the TLS context and the check of a certificate. The ssl module, the
-- file system, openssl's answer and the two parsers of dates are arguments; times are in seconds. The
-- proofs are in the child.
pub mod Dates
use Prim.Native.Char.{Char, code}
use hermes_a2a_v.Prelude.{
  ℕ, String, Bool, true, false, ◌&&◌, ◌||◌, Option, none, some, List, [], ◌∷◌, ◌++◌, truthy,
  if◌then◌else◌, ltb, ◌==◌, Result, ok, raise,
}
use hermes_a2a_v.Text.{◌⧺◌, strip, starts_with, drop_chars, str_nat}

pub record TlsConfig : Type 0 where
  pub cert_path : String
  pub key_path : String
  pub ca_path : Option String
  pub verify_peer : Bool

-- `Path(ca_path) if ca_path else None`
ca_or_none : Option String → Option String
ca_or_none none = none
ca_or_none (some p) = if truthy p then some p else none

unfoldable pub init : String → String → Option String → Bool → TlsConfig
unfolding ca_or_none
init cert_path key_path ca_path verify_peer = record {
  cert_path = cert_path;
  key_path = key_path;
  ca_path = ca_or_none ca_path;
  verify_peer = verify_peer;
}

pub data VerifyMode : Type 0 where
  cert_none cert_optional cert_required : VerifyMode

-- Where the authorities come from
pub data Authorities : Type 0 where
  no_authorities system_defaults : Authorities
  bundle : String → Authorities

-- The server-side context: TLS 1.2 or later, with its certificate loaded
pub record SslContext : Type 0 where
  pub certfile : String
  pub keyfile : String
  pub authorities : Authorities
  pub verify_mode : VerifyMode

without_ca : TlsConfig → SslContext
without_ca cfg =
    if cfg.verify_peer
    then record {
      certfile = cfg.cert_path;
      keyfile = cfg.key_path;
      authorities = system_defaults;
      verify_mode = cert_required;
    }
    else record {
      certfile = cfg.cert_path;
      keyfile = cfg.key_path;
      authorities = no_authorities;
      verify_mode = cert_none;
    }

with_ca : TlsConfig → Bool → Option String → SslContext
unfolding without_ca
with_ca cfg exists none = without_ca cfg
with_ca cfg exists (some ca) =
    if exists
    then record {
      certfile = cfg.cert_path;
      keyfile = cfg.key_path;
      authorities = bundle ca;
      verify_mode = if cfg.verify_peer then cert_required else cert_optional;
    }
    else without_ca cfg

-- `get_ssl_context`: `exists` is whether the bundle's file is there, `loads` whether the certificate
-- and key load.
unfoldable pub get_ssl_context :
    TlsConfig → Bool → Result String (Unit {0}) → Result String SslContext
unfolding with_ca
get_ssl_context cfg exists (raise exc) = raise exc
get_ssl_context cfg exists (ok tt) = ok (with_ca cfg exists cfg.ca_path)

-- What running openssl comes to: its return code and output, or one of the exceptions that are caught
pub data Openssl : Type 0 where
  finished : ℕ → String → Openssl
  not_run : Openssl

-- `"T" in s`, and so for other characters
unfoldable pub has_char : ℕ → String → Bool
has_char n String.[] = false
has_char n (String.◌∷◌ c s) = code c == n || has_char n s

-- `s[4] == "-"`; `none` is an IndexError
fifth_is_dash : String → Option Bool
fifth_is_dash s = elim (drop_chars 4 s) [
  | String.[] ↦ none
  | String.◌∷◌ c t ↦ some (code c == b'-')
]

-- `s.rstrip("GMT")`: without the letters G, M and T at its end
unfoldable pub rstrip_gmt : String → String
rstrip_gmt String.[] = String.[]
rstrip_gmt (String.◌∷◌ c s) = keep (rstrip_gmt s)
  where
    keep : String → String
    keep String.[] =
        if code c == b'G' || code c == b'M' || code c == b'T'
        then String.[]
        else String.◌∷◌ c String.[]
    keep (String.◌∷◌ d r) = String.◌∷◌ c (String.◌∷◌ d r)

-- What leaves `verify_certificate` as an exception
pub data TlsError : Type 0 where
  index_error : TlsError

-- A parser of dates gives a time in seconds, taken as UTC where it has no zone, or a ValueError or
-- TypeError as `none`.
module _ (fromisoformat parsedate : String → Option ℕ) (now : ℕ) where
  -- An expiry that was parsed is compared; without one the certificate passes.
  not_expired : Option ℕ → Bool
  not_expired none = true
  not_expired (some expiry) = ltb now expiry

  in_iso_branch : String → Option Bool
  unfolding fifth_is_dash has_char
  in_iso_branch date_str = if has_char b'T' date_str then some true else fifth_is_dash date_str

  by_branch : String → Option Bool → Result TlsError Bool
  unfolding not_expired rstrip_gmt strip
  by_branch date_str none = raise index_error
  by_branch date_str (some true) = ok (not_expired (fromisoformat (strip (rstrip_gmt date_str))))
  by_branch date_str (some false) = ok (not_expired (parsedate date_str))

  -- The date after `notAfter=`
  unfoldable pub check_date : String → Result TlsError Bool
  unfolding by_branch in_iso_branch
  check_date date_str = by_branch date_str (in_iso_branch date_str)

  check_output : ℕ → String → Result TlsError Bool
  unfolding check_date strip starts_with
  check_output returncode output =
      let checked = check_date (drop_chars 9 (strip output)) in
      if returncode == 0
      then if starts_with (strip output) "notAfter=" then checked else ok false
      else ok false

  ran : Openssl → Result TlsError Bool
  unfolding check_output
  ran not_run = ok false
  ran (finished returncode stdout) = check_output returncode stdout

  -- `verify_certificate`, of a file that is there or not, and openssl's answer
  unfoldable pub verify_certificate : Bool → Openssl → Result TlsError Bool
  unfolding ran
  verify_certificate exists openssl = if exists then ran openssl else ok false

-- The command of `generate_self_signed`, for the paths of its two files
unfoldable pub self_signed_command : String → String → String → ℕ → List String
self_signed_command cert_file key_file common_name days =
    "openssl"
    ∷ "req"
    ∷ "-x509"
    ∷ "-newkey"
    ∷ "rsa:2048"
    ∷ "-keyout"
    ∷ key_file
    ∷ "-out"
    ∷ cert_file
    ∷ "-days"
    ∷ str_nat days
    ∷ "-nodes"
    ∷ "-subj"
    ∷ ("/CN=" ⧺ common_name)
    ∷ []
