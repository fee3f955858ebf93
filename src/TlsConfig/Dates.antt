-- ===== src/TlsConfig/Dates.antt =====
-- Which certificates pass, and which contexts ask the client for one.
use text.Mathlib.TextLemmas.{nil-append, cons-append}
use hermes_a2a_v.Prelude.{◌≢◌, ℕ, ◌≡◌, refl, String, Bool, true, Option, none, some, arith, ok}
use hermes_a2a_v.Text.{str_len, ◌⧺◌, strip, drop_chars}
use hermes_a2a_v.Text.Prefix.{starts_with-append}
use hermes_a2a_v.TlsConfig.{
  without_ca, with_ca, no_authorities, ran, TlsConfig, SslContext, get_ssl_context, cert_required,
  has_char, rstrip_gmt, check_date, by_branch, in_iso_branch, not_expired, finished,
  verify_certificate, check_output,
}

has_char-append : (n : ℕ) (a b : String) → has_char n b ≡ true → has_char n (a ⧺ b) ≡ true
unfolding has_char
has_char-append n String.[] b h = rw (nil-append b) h
has_char-append n (String.◌∷◌ c a) b h =
    rw (cons-append c a b, has_char-append n a b h) (ground arith)

drop_chars-append : (a s : String) → drop_chars (str_len a) (a ⧺ s) ≡ s
drop_chars-append String.[] s = nil-append s
drop_chars-append (String.◌∷◌ c a) s = rw (cons-append c a s) (drop_chars-append a s)

-- Where openssl prints the expiry in its usual form, a date that ends in "GMT", the certificate of a
-- file that is there passes at every time, if `fromisoformat` does not read that date without its
-- last letters: an expired certificate passes too.
pub gmt_never_expires :
    (fromisoformat parsedate : String → Option ℕ) (now : ℕ) (date output : String)
    → strip output ≡ "notAfter=" ⧺ date ⧺ "GMT"
    → fromisoformat (strip (rstrip_gmt (date ⧺ "GMT"))) ≡ none
    → verify_certificate fromisoformat parsedate now true (finished 0 output) ≡ ok true
unfolding verify_certificate ran check_output check_date in_iso_branch by_branch not_expired
gmt_never_expires fromisoformat parsedate now date output printed unread =
    rw
      (
        printed,
        starts_with-append "notAfter=" (date ⧺ "GMT"),
        drop_chars-append "notAfter=" (date ⧺ "GMT"),
        has_char-append b'T' date "GMT" refl,
        unread,
      )
      refl

-- A context that is to verify its peers requires a certificate of them and has authorities to check it
-- with, whether or not a CA bundle is configured and its file is there.
pub verified_peers :
    (cfg : TlsConfig) (exists : Bool)
    → cfg.verify_peer ≡ true
    → (ctx : SslContext) × (get_ssl_context cfg exists (ok tt) ≡ ok ctx)
      × (ctx.verify_mode ≡ cert_required)
      × (ctx.authorities ≢ no_authorities)
unfolding get_ssl_context with_ca without_ca
verified_peers cfg exists verify =
    (with_ca cfg exists cfg.ca_path, refl, required cfg.ca_path exists, trusted cfg.ca_path exists)
  where
    required :
        (ca : Option String) (there : Bool) → (with_ca cfg there ca).verify_mode ≡ cert_required
    required none there = ground arith
    required (some ca) there = ground arith

    trusted :
        (ca : Option String) (there : Bool) → (with_ca cfg there ca).authorities ≢ no_authorities
    trusted none there = ground arith
    trusted (some ca) there = ground arith
