-- ===== src/Server/Order.antt =====
-- In which order the middleware sees a request. That Starlette puts the middleware that is added last
-- outermost is the hypothesis `outermost`.
use hermes_a2a_v.Prelude.{
  inl, inr, sym, ◌∙◌, false≢true, Bool-cases, ℕ, ◌≡◌, ◌↔◌, refl, String, Bool, true, false, ◌&&◌,
  List, [], ◌∷◌, truthy, arith,
}
use hermes_a2a_v.RateLimiter
use hermes_a2a_v.RateLimiter.{RateLimiter}
use hermes_a2a_v.Config.{GatewayConfig}
use hermes_a2a_v.Server.Authorized.{IsAuthorized, auth_middleware_iff}
use hermes_a2a_v.Server.Access.{
  HttpRequest, Middleware, cors, rate_limit, bearer, middleware_stack, auth_middleware, routed,
  unauthorized, serve,
}

module _ (add_middleware : Middleware → List Middleware → List Middleware)
    (answers_preflight : List String → HttpRequest → Bool) (cfg : GatewayConfig)
    (outermost : (m : Middleware) (stack : List Middleware) → add_middleware m stack ≡ m ∷ stack)
    (auth_on : (cfg.auth.enabled && truthy cfg.auth.token) ≡ true) where
  -- The request carries the token that its path asks for, or its path asks for none.
  abbrev pub is_allowed : HttpRequest → Bool
  is_allowed = auth_middleware cfg.auth.token cfg.auth.admin_token

  stack-limited :
      cfg.rate_limit.enabled ≡ true
      → middleware_stack add_middleware cfg
        ≡ bearer cfg.auth.token cfg.auth.admin_token
          ∷ rate_limit cfg.rate_limit.requests_per_minute cfg.rate_limit.burst_size
          ∷ cors cfg.cors.origins
          ∷ []
  unfolding middleware_stack
  stack-limited limited = rw (auth_on, limited, outermost, outermost, outermost) refl

  -- With a token and a rate limit configured, a request gets to the routes exactly when it carries the
  -- token that its path asks for, the rate limiter passes it, and the CORS middleware does not answer
  -- it by itself.
  routed_iff :
      (request : HttpRequest) (made now : ℕ) (l : RateLimiter)
      → cfg.rate_limit.enabled ≡ true
      → ((serve answers_preflight (middleware_stack add_middleware cfg) request made now l).1
          ≡ routed)
        ↔ ((is_allowed request ≡ true)
            × ((RateLimiter.dispatch request.source made now l).1 ≡ RateLimiter.passed)
            × (answers_preflight cfg.cors.origins request ≡ false))
  unfolding serve
  routed_iff request made now l limited = rw (stack-limited limited) (ground arith)

  stack-unlimited :
      cfg.rate_limit.enabled ≡ false
      → middleware_stack add_middleware cfg
        ≡ bearer cfg.auth.token cfg.auth.admin_token ∷ cors cfg.cors.origins ∷ []
  unfolding middleware_stack
  stack-unlimited unlimited = rw (auth_on, unlimited, outermost, outermost) refl

  -- Only the bearer middleware answers with 401.
  serve-refused :
      (request : HttpRequest) (made now : ℕ) (l : RateLimiter)
      → ((serve answers_preflight (middleware_stack add_middleware cfg) request made now l).1
          ≡ unauthorized)
        ↔ (is_allowed request ≡ false)
  unfolding serve
  serve-refused request made now l = elim (Bool-cases cfg.rate_limit.enabled) [
    | inl e ↦ rw (stack-limited e) (ground arith)
    | inr e ↦ rw (stack-unlimited e) (ground arith)
  ]

  -- With a token configured, with or without a rate limit, a request is answered with 401 exactly when
  -- its path is none of the three open ones and it has no header with the token that its path asks
  -- for: below /admin the admin token, if one is configured, and else the token.
  pub unauthorized_iff :
      (request : HttpRequest) (made now : ℕ) (l : RateLimiter)
      → ((serve answers_preflight (middleware_stack add_middleware cfg) request made now l).1
          ≡ unauthorized)
        ↔ ¬ IsAuthorized cfg.auth.token cfg.auth.admin_token request
  unauthorized_iff request made now l =
      let decided = auth_middleware_iff cfg.auth.token cfg.auth.admin_token request in
      let refused = serve-refused request made now l in
      (
        (λ h a. false≢true (sym (refused.0 h) ∙ decided.1 a)),
        λ n. elim (Bool-cases (is_allowed request)) [
          | inl e ↦ absurd (n (decided.0 e))
          | inr e ↦ refused.1 e
        ],
      )
