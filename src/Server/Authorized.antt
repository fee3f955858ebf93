-- ===== src/Server/Authorized.antt =====
-- Which requests carry the token that they need, stated without the middleware, and that the
-- middleware decides it.
use hermes_a2a_v.Prelude.{
  ◌≡◌, ◌≢◌, ◌↔◌, ◌⊎◌, inl, inr, refl, sym, ap, ◌∙◌, String, true, Option, none, some, arith, str_eq,
  str_or, eq_iff, Bool-cases, false≢true, truthy,
}
use hermes_a2a_v.Text.{◌⧺◌, starts_with}
use hermes_a2a_v.Text.Prefix.{HasPrefix, starts_with_iff, starts_with-append}
use hermes_a2a_v.Server.Access.{
  HttpRequest, is_open_path, token_for, header_or_empty, auth_middleware,
}

-- The token that a path asks for: below /admin the admin token, if there is one, and else the token
abbrev pub IsAskedFor : String → String → String → String → Type 0
IsAskedFor token admin_token path t =
    (HasPrefix "/admin" path × (admin_token ≢ "") × (t ≡ admin_token))
    ⊎ ((HasPrefix "/admin" path → admin_token ≡ "") × (t ≡ token))

-- The path is open, or the request has the header with the token that the path asks for.
abbrev pub IsAuthorized : String → String → HttpRequest → Type 0
IsAuthorized token admin_token request =
    (request.path ≡ "/.well-known/agent-card.json")
    ⊎ (request.path ≡ "/health")
    ⊎ (request.path ≡ "/metrics")
    ⊎ ((t : String) × IsAskedFor token admin_token request.path t
        × (request.authorization ≡ some ("Bearer " ⧺ t)))

nonempty : (s : String) → truthy s ≡ true → s ≢ ""
nonempty s h e = false≢true (ap truthy (sym e) ∙ h)

-- `token_for` is the token that is asked for.
token_for-IsAskedFor :
    (token admin_token path : String)
    → IsAskedFor token admin_token path (token_for token admin_token path)
unfolding token_for
token_for-IsAskedFor token admin_token path = elim (Bool-cases (starts_with path "/admin")) [
  | inl e ↦ rw e (go admin_token ((starts_with_iff path "/admin").0 e))
  | inr e ↦
      rw e (inr ((λ h. absurd (false≢true (sym e ∙ (starts_with_iff path "/admin").1 h))), refl))
]
  where
    go : (a : String) → HasPrefix "/admin" path → IsAskedFor token a path (str_or a token)
    go String.[] h = inr ((λ _. refl), refl)
    go (String.◌∷◌ c s) h = inl (h, nonempty (String.◌∷◌ c s) refl, refl)

IsAskedFor-unique :
    (token admin_token path s t : String)
    → IsAskedFor token admin_token path s
    → IsAskedFor token admin_token path t
    → s ≡ t
IsAskedFor-unique token admin_token path s t (inl (p, ne, e)) (inl (q, ne', e')) = e ∙ sym e'
IsAskedFor-unique token admin_token path s t (inl (p, ne, e)) (inr (q, e')) = absurd (ne (q p))
IsAskedFor-unique token admin_token path s t (inr (p, e)) (inl (q, ne, e')) = absurd (ne (p q))
IsAskedFor-unique token admin_token path s t (inr (p, e)) (inr (q, e')) = e ∙ sym e'

header_lem :
    (h : Option String) (t : String)
    → (str_eq (header_or_empty h) ("Bearer " ⧺ t) ≡ true) ↔ (h ≡ some ("Bearer " ⧺ t))
unfolding header_or_empty starts_with
header_lem none t = (
  λ e. absurd (
      false≢true (
        ap (λ s. starts_with s "Bearer ") ((eq_iff "" ("Bearer " ⧺ t)).0 e)
        ∙ starts_with-append "Bearer " t)),
  λ e. absurd (ground arith),
)
header_lem (some v) t = (
  λ e. ap some ((eq_iff v ("Bearer " ⧺ t)).0 e),
  λ e. (eq_iff v ("Bearer " ⧺ t)).1 (ap header_or_empty e),
)

-- The middleware hands a request on exactly when it is authorized.
pub auth_middleware_iff :
    (token admin_token : String) (request : HttpRequest)
    → (auth_middleware token admin_token request ≡ true) ↔ IsAuthorized token admin_token request
unfolding auth_middleware is_open_path
auth_middleware_iff token admin_token request = (onto, back)
  where
    asked : String
    asked = token_for token admin_token request.path

    onto : auth_middleware token admin_token request ≡ true → IsAuthorized token admin_token request
    onto h = elim (Bool-cases (str_eq request.path "/.well-known/agent-card.json")) [
      | inl e ↦ inl ((eq_iff _ _).0 e)
      | inr card ↦ elim (Bool-cases (str_eq request.path "/health")) [
        | inl e ↦ inr (inl ((eq_iff _ _).0 e))
        | inr health ↦ elim (Bool-cases (str_eq request.path "/metrics")) [
          | inl e ↦ inr (inr (inl ((eq_iff _ _).0 e)))
          | inr metrics ↦ inr (
              inr (
                inr (
                  asked,
                  token_for-IsAskedFor token admin_token request.path,
                  (header_lem request.authorization asked).0
                      (ground (arith, h, card, health, metrics)),
                )))
        ]
      ]
    ]

    back : IsAuthorized token admin_token request → auth_middleware token admin_token request ≡ true
    back (inl e) = rw ((eq_iff request.path "/.well-known/agent-card.json").1 e) refl
    back (inr (inl e)) = ground (arith, (eq_iff request.path "/health").1 e)
    back (inr (inr (inl e))) = ground (arith, (eq_iff request.path "/metrics").1 e)
    back (inr (inr (inr (t, needs, e)))) =
        let same =
          IsAskedFor-unique token admin_token request.path t asked needs
            (token_for-IsAskedFor token admin_token request.path) in
        let header =
          (header_lem request.authorization asked).1 (e ∙ ap (λ u. some ("Bearer " ⧺ u)) same) in
        ground (arith, header)
