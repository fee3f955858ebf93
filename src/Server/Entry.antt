-- ===== src/Server/Entry.antt =====
-- How src/hermes_a2a/server.py finds its configuration: `main`, and the path that `create_app` takes.
use hermes_a2a_v.Prelude.{
  ℕ, ◌≡◌, refl, inl, inr, String, Bool, true, Option, none, some, Result, ok, raise, truthy,
  if◌then◌else◌, Bool-cases, arith, ap, sym, ◌∙◌,
}
use hermes_a2a_v.Dict.{Dict, get, put, get-put, string_eq}
use hermes_a2a_v.Config.{GatewayConfig}

-- The arguments of `uvicorn.run`
pub record UvicornRun : Type 0 where
  pub app : String
  pub factory : Bool
  pub host : String
  pub port : ℕ
  pub log_level : String

-- The path that `create_app` gives to `load_config`
unfoldable pub config_path_of : Option String → Dict String String → Option String
config_path_of none environ = get "HERMES_A2A_CONFIG" environ
config_path_of (some config_path) environ = some config_path

-- `if config_path: os.environ["HERMES_A2A_CONFIG"] = config_path`
exported : Option String → Dict String String → Dict String String
exported none environ = environ
exported (some config_path) environ =
    if truthy config_path then put "HERMES_A2A_CONFIG" config_path environ else environ

module _ {E : Type 0} (lower : String → String)
    (load_config : Option String → Result E GatewayConfig) where
  run_of : GatewayConfig → UvicornRun
  run_of cfg = record {
    app = "hermes_a2a.server:create_app";
    factory = true;
    host = cfg.server.host;
    port = cfg.server.port;
    log_level = lower cfg.logging_level;
  }

  started : Dict String String → Result E GatewayConfig → Result E (UvicornRun × Dict String String)
  unfolding run_of exported
  started environ (raise e) = raise e
  started environ (ok cfg) = ok (run_of cfg, exported (get "HERMES_A2A_CONFIG" environ) environ)

  -- `main`: what it gives to uvicorn, and the environment that the app is made in
  unfoldable pub main : Dict String String → Result E (UvicornRun × Dict String String)
  unfolding started
  main environ = started environ (load_config (get "HERMES_A2A_CONFIG" environ))

  exported-path :
      (environ : Dict String String)
      → get "HERMES_A2A_CONFIG" (exported (get "HERMES_A2A_CONFIG" environ) environ)
        ≡ get "HERMES_A2A_CONFIG" environ
  unfolding exported
  exported-path environ = go (get "HERMES_A2A_CONFIG" environ) refl
    where
      go :
          (o : Option String)
          → get "HERMES_A2A_CONFIG" environ ≡ o
          → get "HERMES_A2A_CONFIG" (exported o environ) ≡ o
      go none e = e
      go (some path) e = elim (Bool-cases (truthy path)) [
        | inl t ↦ rw t (get-put "HERMES_A2A_CONFIG" "HERMES_A2A_CONFIG" path environ)
        | inr f ↦ rw f e
      ]

  -- The app that uvicorn makes loads the configuration by which `main` chose the host and the port.
  pub main-same_config :
      (environ environ' : Dict String String) (run : UvicornRun)
      → main environ ≡ ok (run, environ')
      → (cfg : GatewayConfig) × (load_config (config_path_of none environ') ≡ ok cfg)
        × (run.host ≡ cfg.server.host)
        × (run.port ≡ cfg.server.port)
  unfolding main config_path_of run_of
  main-same_config environ environ' run h = go (load_config (get "HERMES_A2A_CONFIG" environ)) refl
    where
      go :
          (r : Result E GatewayConfig)
          → load_config (get "HERMES_A2A_CONFIG" environ) ≡ r
          → (cfg : GatewayConfig) × (load_config (config_path_of none environ') ≡ ok cfg)
            × (run.host ≡ cfg.server.host)
            × (run.port ≡ cfg.server.port)
      go (raise e) eq = absurd (ground (arith, h, eq))
      go (ok cfg) eq =
          let same : (run_of cfg, exported (get "HERMES_A2A_CONFIG" environ) environ)
              ≡ (run, environ') =
            ground (arith, h, eq) in
          let path : get "HERMES_A2A_CONFIG" environ' ≡ get "HERMES_A2A_CONFIG" environ =
            ap (λ (p : UvicornRun × Dict String String). config_path_of none p.1) (sym same)
            ∙ exported-path environ in
          (
            cfg,
            ap load_config path ∙ eq,
            ap (λ p. p.0.host) (sym same),
            ap (λ p. p.0.port) (sym same),
          )
