-- ===== src/Auth/Middleware.antt =====
-- `AuthMiddleware` of auth.py.
use hermes_a2a_v.Prelude.{
  ℕ, String, Bool, ◌||◌, Option, none, some, str_eq, if◌then◌else◌, ok, raise,
}
use hermes_a2a_v.Text.{starts_with, drop_chars}
use hermes_a2a_v.Auth.{Libraries, JwtAuth, validate_token}

-- `_is_public_path`
unfoldable pub is_public_path : String → Bool
unfolding starts_with
is_public_path path =
    str_eq path "/health"
    || starts_with path "/.well-known/"
    || starts_with path "/admin/dashboard/"

-- What the middleware does with a request: it goes on, or is answered with 401 and an error.
pub data Verdict : Type 0 where
  passed : Verdict
  unauthorized : String → Verdict

unfoldable pub header_or_empty : Option String → String
header_or_empty none = ""
header_or_empty (some header) = header

unfoldable pub checked : Libraries → JwtAuth → ℕ → String → Verdict
unfolding starts_with validate_token
checked lib auth now auth_header =
    if starts_with auth_header "Bearer "
    then elim (validate_token lib auth (drop_chars 7 auth_header) now) [
      | ok payload ↦ passed
      | raise exc ↦ unauthorized exc
    ]
    else unauthorized "Missing or invalid Authorization header"

-- `AuthMiddleware.dispatch`, of the path and the Authorization header
unfoldable pub dispatch : Libraries → JwtAuth → ℕ → String → Option String → Verdict
unfolding checked header_or_empty is_public_path
dispatch lib auth now path authorization =
    if is_public_path path then passed else checked lib auth now (header_or_empty authorization)
