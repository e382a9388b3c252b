-- ===== src/Config.antt =====
-- internal/config/config.go: the configuration. What an error of Validate leaves of the object is not
-- modelled, since Load, Save and the manager discard it.
pub mod Validate
pub mod Usable
pub mod Accepted
pub mod Again
pub mod Fixpoint
pub mod Idempotent
pub mod Env
pub mod Files
pub mod Kept
pub mod Secrets
pub mod Form
pub mod Plain
pub mod Samples
mod Tests
use all2api.Prelude.{ℕ, Bool, List, ℤ}
use all2api.Text.{Bytes, bytes}

pub record ServerConfig : Type 0 where
  pub host : Bytes
  pub port : ℤ

pub record WorkspaceConfig : Type 0 where
  pub base_url : Bytes
  pub timeout_seconds : ℤ

pub record AuthConfig : Type 0 where
  pub header : Bytes
  pub prefix : Bytes

pub record RateLimitConfig : Type 0 where
  pub daily_limit_header : Bytes
  pub daily_remaining_header : Bytes
  pub minute_limit_header : Bytes
  pub minute_remaining_header : Bytes

pub record PlatformConfig : Type 0 where
  pub typ : Bytes
  pub base_url : Bytes
  pub timeout_seconds : ℤ
  pub credential_pool : Bytes
  pub auth : AuthConfig
  pub rate_limit : RateLimitConfig

pub record KeyConfig : Type 0 where
  pub label : Bytes
  pub key : Bytes

pub record CredentialPoolConfig : Type 0 where
  pub keys : List KeyConfig

pub record SchedulerConfig : Type 0 where
  pub switch_threshold : ℤ
  pub rate_limit_cooldown_seconds : ℤ
  pub error_cooldown_seconds : ℤ
  pub max_error_count : ℤ
  pub max_retries : ℤ

pub record ClientAuthConfig : Type 0 where
  pub enabled : Bool
  pub tokens : List Bytes

pub record ManagementConfig : Type 0 where
  pub admin_key : Bytes
  pub log_file : Bytes
  pub log_read_limit : ℤ

pub record LoggingConfig : Type 0 where
  pub level : Bytes

pub record Config : Type 0 where
  pub server : ServerConfig
  pub platforms : List (Bytes × PlatformConfig)
  pub credential_pools : List (Bytes × CredentialPoolConfig)
  pub scheduler : SchedulerConfig
  pub management : ManagementConfig
  pub client_auth : ClientAuthConfig
  pub logging : LoggingConfig
  pub workspaces : List (Bytes × WorkspaceConfig)
  pub keys : List KeyConfig

-- The errors of Validate, with the values that their texts name.
pub data ConfigError : Type 0 where
  port_out_of_range : ℤ → ConfigError
  no_platform no_credential_pool empty_pool_name empty_platform_name : ConfigError
  slash_in_pool_name pool_without_keys : Bytes → ConfigError
  empty_key_value : Bytes → Bytes → ConfigError
  slash_in_platform_name empty_type empty_base_url requires_auth_header : Bytes → ConfigError
  unknown_type unknown_credential_pool : Bytes → Bytes → ConfigError

abbrev pub default_credential_pool : Bytes
default_credential_pool = bytes "default"

abbrev pub provider_api_sports : Bytes
provider_api_sports = bytes "api_sports"

abbrev pub provider_generic_http : Bytes
provider_generic_http = bytes "generic_http"
