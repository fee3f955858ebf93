-- ===== src/Server/Access.antt =====
-- The bearer-token middleware of src/hermes_a2a/server.py, and the stack of middleware that
-- `create_app` builds. How Starlette stacks middleware, and which requests its CORS middleware answers
-- by itself, are arguments.
use hermes_a2a_v.Prelude.{
  ℕ, String, Bool, ◌&&◌, ◌||◌, Option, none, some, List, [], ◌∷◌, str_eq, str_or, truthy,
  if◌then◌else◌,
}
use hermes_a2a_v.Text.{◌⧺◌, starts_with}
use hermes_a2a_v.RateLimiter
use hermes_a2a_v.RateLimiter.{RateLimiter, Request}
use hermes_a2a_v.Config.{GatewayConfig}

-- A request, by what the middleware reads of it
pub record HttpRequest : Type 0 where
  pub path : String
  pub authorization : Option String
  pub source : Request

-- `request.headers.get("authorization", "")`
unfoldable pub header_or_empty : Option String → String
header_or_empty none = ""
header_or_empty (some h) = h

-- The paths that need no token
unfoldable pub is_open_path : String → Bool
is_open_path path =
    str_eq path "/.well-known/agent-card.json" || str_eq path "/health" || str_eq path "/metrics"

-- The token that a path asks for
unfoldable pub token_for : String → String → String → String
unfolding starts_with
token_for token admin_token path =
    if starts_with path "/admin" then str_or admin_token token else token

-- `_make_auth_middleware`: whether the request is handed on; else it is answered with 401.
unfoldable pub auth_middleware : String → String → HttpRequest → Bool
unfolding is_open_path token_for header_or_empty
auth_middleware token admin_token request =
    is_open_path request.path
    || str_eq (header_or_empty request.authorization)
        ("Bearer " ⧺ token_for token admin_token request.path)

pub data Middleware : Type 0 where
  cors : List String → Middleware
  rate_limit : ℕ → ℕ → Middleware
  bearer : String → String → Middleware

-- The `app.add_middleware` calls of `create_app`, in their order
unfoldable pub middleware_stack :
    (Middleware → List Middleware → List Middleware) → GatewayConfig → List Middleware
middleware_stack add_middleware cfg =
    let with_cors = add_middleware (cors cfg.cors.origins) [] in
    let with_limit =
      if cfg.rate_limit.enabled
      then add_middleware (rate_limit cfg.rate_limit.requests_per_minute cfg.rate_limit.burst_size)
          with_cors
      else with_cors in
    if cfg.auth.enabled && truthy cfg.auth.token
    then add_middleware (bearer cfg.auth.token cfg.auth.admin_token) with_limit
    else with_limit

-- Who answers a request
pub data Answer : Type 0 where
  routed preflight too_many unauthorized : Answer

-- What follows is Starlette's, by its documentation: `call_next` of a middleware hands the request to
-- the next one of the stack, and the last one to the routes.
module _ (answers_preflight : List String → HttpRequest → Bool) where
  -- A request on its way from the outermost middleware to the routes. `made` and `now` are the clock of
  -- the rate limiter.
  unfoldable pub serve : List Middleware → HttpRequest → ℕ → ℕ → RateLimiter → RateLimiter × Answer
  unfolding auth_middleware
  serve [] request made now l = (l, routed)
  serve (cors origins ∷ rest) request made now l =
      let inner = serve rest request made now l in
      if answers_preflight origins request then (l, preflight) else inner
  serve (rate_limit rpm burst ∷ rest) request made now l =
      let (l', verdict) = RateLimiter.dispatch request.source made now l in
      let inner = serve rest request made now l' in
      elim verdict [ RateLimiter.passed ↦ inner | RateLimiter.rejected ↦ (l', too_many) ]
  serve (bearer token admin_token ∷ rest) request made now l =
      let inner = serve rest request made now l in
      if auth_middleware token admin_token request then inner else (l, unauthorized)

  -- Requests one after the other, each with its readings of the clock
  unfoldable pub serve_all :
      List Middleware → List (HttpRequest × ℕ × ℕ) → RateLimiter → RateLimiter × List Answer
  unfolding serve
  serve_all stack [] l = (l, [])
  serve_all stack ((request, made, now) ∷ more) l =
      let (l', answer) = serve stack request made now l in
      let (l'', answers) = serve_all stack more l' in (l'', answer ∷ answers)
