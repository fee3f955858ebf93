-- ===== src/Config.antt =====
-- src/hermes_a2a/models.py and config.py: the configuration of the gateway, its defaults, and what
-- `load_config` does before the model validates. Reading a file, PyYAML and pydantic are arguments.
pub mod Loading
use hermes_a2a_v.Prelude.{ℕ, String, Bool, true, List, [], ◌∷◌}
use hermes_a2a_v.PeerManager.{PeerConfig}

pub record ServerConfig : Type 0 where
  pub host : String
  pub port : ℕ

pub record HermesConfig : Type 0 where
  pub api_url : String
  pub api_key : String
  pub timeout : ℕ

pub record AgentSkillConfig : Type 0 where
  pub id : String
  pub name : String
  pub description : String

pub record AgentProviderConfig : Type 0 where
  pub organization : String
  pub url : String

pub record AgentConfig : Type 0 where
  pub name : String
  pub description : String
  pub url : String
  pub documentation_url : String
  pub provider : AgentProviderConfig
  pub skills : List AgentSkillConfig

pub record AuthConfig : Type 0 where
  pub enabled : Bool
  pub token : String
  pub admin_token : String

pub record RateLimitConfig : Type 0 where
  pub enabled : Bool
  pub requests_per_minute : ℕ
  pub burst_size : ℕ

pub record CorsConfig : Type 0 where
  pub origins : List String

pub record TaskStoreConfig : Type 0 where
  pub store_type : String
  pub path : String

pub record GatewayConfig : Type 0 where
  pub server : ServerConfig
  pub hermes : HermesConfig
  pub agent : AgentConfig
  pub auth : AuthConfig
  pub task_store : TaskStoreConfig
  pub rate_limit : RateLimitConfig
  pub cors : CorsConfig
  pub logging_level : String
  pub peers : List PeerConfig

abbrev pub default_server : ServerConfig
default_server = record { host = "0.0.0.0"; port = 18800 }

abbrev pub default_hermes : HermesConfig
default_hermes = record { api_url = "http://localhost:8642"; api_key = ""; timeout = 300 }

abbrev pub default_provider : AgentProviderConfig
default_provider = record {
  organization = "Hermes";
  url = "https://github.com/Etoile04/hermes-a2a-v1";
}

abbrev pub default_agent : AgentConfig
default_agent = record {
  name = "Hermes Agent";
  description = "AI Agent powered by Hermes via A2A v1.0";
  url = "http://localhost:18800";
  documentation_url = "https://github.com/Etoile04/hermes-a2a-v1/blob/main/README.md";
  provider = default_provider;
  skills = [];
}

abbrev pub default_auth : AuthConfig
default_auth = record { enabled = true; token = ""; admin_token = "" }

abbrev pub default_rate_limit : RateLimitConfig
default_rate_limit = record { enabled = true; requests_per_minute = 60; burst_size = 10 }

abbrev pub default_cors : CorsConfig
default_cors = record { origins = "*" ∷ [] }

abbrev pub default_task_store : TaskStoreConfig
default_task_store = record { store_type = "sqlite"; path = "~/.hermes/a2a-gateway/tasks.db" }

-- `GatewayConfig()`
abbrev pub default_config : GatewayConfig
default_config = record {
  server = default_server;
  hermes = default_hermes;
  agent = default_agent;
  auth = default_auth;
  task_store = default_task_store;
  rate_limit = default_rate_limit;
  cors = default_cors;
  logging_level = "INFO";
  peers = [];
}
