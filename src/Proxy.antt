-- ===== src/Proxy.antt =====
-- internal/proxy: the forwarding of requests. This file has the types and the constructor of
-- handler.go; Proxy/Transport.antt is transport.go and Proxy/Serve.antt is ServeHTTP.
pub mod Transport
pub mod Exchange
pub mod Serve
pub mod Path
pub mod Rule
pub mod ServeRule
pub mod Pools
pub mod Answer
pub mod Copy
pub mod Sent
pub mod Retries
pub mod Failover
pub mod Switch
pub mod Steady
pub mod Rescue
pub mod Samples
mod Tests
mod RescueTests
use all2api.Prelude.{
  ℕ, Bool, false, Option, none, some, List, [], ◌∷◌, ◌==◌, if◌then◌else◌, is_empty, ℤ, pos, ltb_ℤ,
  pos_part, get_or,
}
use all2api.Text.{Bytes, bytes, text_eq, cut_before, trim_right_byte}
use all2api.Table.{map_values}
use all2api.Auth.{Authenticator}
use all2api.Provider.{Provider, credential_header}
use all2api.Provider.Quota.{api_sports_provider}

-- strings.TrimPrefix(path, "/")
abbrev pub trim_slash : Bytes → Bytes
trim_slash [] = []
trim_slash (b ∷ s) = if b == b'/' then s else b ∷ s

-- The two ways out of the search for a slash.
abbrev pub split_at : Bytes → Option Bytes × Bytes → Bytes × Bytes
split_at trimmed (none, rest) = (trimmed, bytes "/")
split_at trimmed (some before, rest) = (before, rest)

-- splitPlatform: the namespace and the rest of the path, which begins with a slash.
unfoldable pub split_platform : Bytes → Bytes × Bytes
unfolding cut_before
split_platform path =
    let trimmed = trim_slash path in
    if is_empty trimmed then ([], bytes "/") else split_at trimmed (cut_before b'/' trimmed)

-- A pool is shared by all the platforms that refer to it, so a platform has a reference; `none` is
-- the nil pointer. The time limit of the HTTP client is part of what the network does.
pub record WorkspaceUpstream : Type 0 where
  pub base_url : Bytes

pub record PlatformUpstream : Type 0 where
  pub base_url : Bytes
  pub provider : Option Provider
  pub pool : Option ℕ
  pub pool_name : Bytes
  pub client_auth_header : Bytes

pub record Config : Type 0 where
  pub platforms : List (Bytes × PlatformUpstream)
  pub workspaces : List (Bytes × WorkspaceUpstream)
  pub max_retries : ℤ

-- transport of transport.go
pub record Upstream : Type 0 where
  pub base_url : Bytes
  pub provider : Provider

pub record PlatformRuntime : Type 0 where
  pub transport : Upstream
  pub pool : Option ℕ
  pub pool_name : Bytes
  pub client_auth_header : Bytes

-- `event_sink` says whether a sink is there.
pub record Handler : Type 0 where
  pub auth : Option Authenticator
  pub platforms : List (Bytes × PlatformRuntime)
  pub max_retries : ℕ
  pub event_sink : Bool

-- newTransport; mustAPISportsProvider is the provider that New makes for API-Sports.
unfoldable pub new_transport : Bytes → Option Provider → Upstream
unfolding trim_right_byte
new_transport base_url p = record {
  base_url = trim_right_byte b'/' base_url;
  provider = get_or p api_sports_provider;
}

abbrev or_default : Bytes → Bytes → Bytes
or_default s d = if is_empty s then d else s

-- A platform of the configuration with its defaults.
unfoldable pub normalize_platform : Option ℕ → PlatformUpstream → PlatformUpstream
unfolding credential_header
normalize_platform default_pool u =
    let provider = get_or u.provider api_sports_provider in
    record {
      base_url = u.base_url;
      provider = some provider;
      pool = elim u.pool [ none ↦ default_pool | some p ↦ some p ];
      pool_name = or_default u.pool_name (bytes "default");
      client_auth_header = or_default u.client_auth_header (credential_header provider);
    }

-- A platform of the legacy configuration.
workspace_platform : Option ℕ → WorkspaceUpstream → PlatformUpstream
unfolding credential_header
workspace_platform default_pool ws = record {
  base_url = ws.base_url;
  provider = some api_sports_provider;
  pool = default_pool;
  pool_name = bytes "default";
  client_auth_header = credential_header api_sports_provider;
}

-- normalizePlatforms
unfoldable pub normalize_platforms : Config → Option ℕ → List (Bytes × PlatformUpstream)
unfolding map_values normalize_platform workspace_platform
normalize_platforms cfg default_pool =
    if is_empty cfg.platforms
    then map_values (workspace_platform default_pool) cfg.workspaces
    else map_values (normalize_platform default_pool) cfg.platforms

unfoldable pub new_runtime : PlatformUpstream → PlatformRuntime
unfolding new_transport
new_runtime u = record {
  transport = new_transport u.base_url u.provider;
  pool = u.pool;
  pool_name = u.pool_name;
  client_auth_header = u.client_auth_header;
}

-- NewHandler; a limit below one is raised to one. WithEventSink sets the sink afterwards.
unfoldable pub new_handler : Config → Option ℕ → Option Authenticator → Handler
unfolding normalize_platforms new_runtime
new_handler cfg default_pool a = record {
  auth = a;
  platforms = map_values new_runtime (normalize_platforms cfg default_pool);
  max_retries = if ltb_ℤ cfg.max_retries (pos 1) then 1 else pos_part cfg.max_retries;
  event_sink = false;
}

-- WithEventSink
unfoldable pub with_event_sink : Bool → Handler → Handler
with_event_sink sink h = record h { event_sink = sink }
