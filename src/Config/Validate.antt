-- ===== src/Config/Validate.antt =====
-- internal/config/config.go: Validate, which tests a configuration and fills in the defaults.
use all2api.Prelude.{
  ℕ, suc, Bool, false, not, ◌&&◌, ◌||◌, List, [], ◌∷◌, ◌++◌, ◌==◌, if◌then◌else◌, is_empty, is_some,
  ℤ, pos, leb_ℤ, ltb_ℤ, Result, ok, err,
}
use all2api.Text.{Bytes, bytes, text_eq, itoa, trim_space}
use all2api.Table.{map_values, lookup}
use all2api.Config.{
  WorkspaceConfig, PlatformConfig, KeyConfig, CredentialPoolConfig, Config, ConfigError,
  port_out_of_range, no_platform, no_credential_pool, empty_pool_name, empty_platform_name,
  slash_in_pool_name, pool_without_keys, empty_key_value, slash_in_platform_name, empty_type,
  empty_base_url, requires_auth_header, unknown_type, unknown_credential_pool,
  default_credential_pool, provider_api_sports, provider_generic_http,
}

-- strings.Contains(s, "/")
unfoldable pub has_slash : Bytes → Bool
has_slash [] = false
has_slash (b ∷ s) = b == b'/' || has_slash s

abbrev pub or_text : Bytes → Bytes → Bytes
or_text s d = if is_empty s then d else s

-- A number that is not positive is replaced.
abbrev pub or_positive : ℤ → ℤ → ℤ
or_positive n d = if leb_ℤ n (pos 0) then d else n

-- The label, or one made from the index, which counts from 0.
unfoldable pub or_numbered : ℕ → Bytes → Bytes
unfolding itoa
or_numbered i label = or_text label (bytes "key-" ++ itoa (pos (suc i)))

-- The loop of normalizeLegacyConfig over the keys, from an index on.
unfoldable pub label_keys : ℕ → List KeyConfig → List KeyConfig
unfolding or_numbered
label_keys i [] = []
label_keys i (k ∷ ks) = record k { label = or_numbered i k.label } ∷ label_keys (suc i) ks

-- The platform of a workspace of the legacy form.
legacy_platform : WorkspaceConfig → PlatformConfig
legacy_platform ws = record {
  typ = provider_api_sports;
  base_url = ws.base_url;
  timeout_seconds = ws.timeout_seconds;
  credential_pool = default_credential_pool;
  auth = record { header = []; prefix = [] };
  rate_limit = record {
    daily_limit_header = [];
    daily_remaining_header = [];
    minute_limit_header = [];
    minute_remaining_header = [];
  };
}

-- normalizeLegacyConfig
unfoldable pub normalize_legacy_config : Config → Config
unfolding label_keys map_values legacy_platform
normalize_legacy_config c =
    let keys = label_keys 0 c.keys in
    record c {
      keys = keys;
      credential_pools =
          if is_empty c.credential_pools && not (is_empty keys)
          then (default_credential_pool, record { keys = keys }) ∷ []
          else c.credential_pools;
      platforms =
          if is_empty c.platforms && not (is_empty c.workspaces)
          then map_values legacy_platform c.workspaces
          else c.platforms;
    }

-- The loop over the keys of a pool, from an index on.
unfoldable pub validate_keys : Bytes → ℕ → List KeyConfig → Result ConfigError (List KeyConfig)
unfolding or_numbered
validate_keys pool i [] = ok []
validate_keys pool i (k ∷ ks) =
    let labelled = record k { label = or_numbered i k.label } in
    let rest = validate_keys pool (suc i) ks in
    if is_empty k.key
    then err (empty_key_value pool labelled.label)
    else elim rest [ ok ls ↦ ok (labelled ∷ ls) | err e ↦ err e ]

-- The tests of one pool.
unfoldable pub validate_pool :
    Bytes → CredentialPoolConfig → Result ConfigError CredentialPoolConfig
unfolding has_slash validate_keys
validate_pool name p =
    if is_empty name
    then err empty_pool_name
    else if has_slash name
    then err (slash_in_pool_name name)
    else if is_empty p.keys
    then err (pool_without_keys name)
    else elim (validate_keys name 0 p.keys) [ ok ks ↦ ok (record { keys = ks }) | err e ↦ err e ]

-- validateCredentialPools: the pools, and the keys of the legacy form, which follow the default pool.
unfoldable pub validate_credential_pools :
    List KeyConfig
    → List (Bytes × CredentialPoolConfig)
    → Result ConfigError (List (Bytes × CredentialPoolConfig) × List KeyConfig)
unfolding validate_pool text_eq
validate_credential_pools keys [] = ok ([], keys)
validate_credential_pools keys ((name, p) ∷ ps) = elim (validate_pool name p) [
  | err e ↦ err e
  | ok p' ↦
      elim (validate_credential_pools
        (if text_eq name default_credential_pool then p'.keys else keys) ps) [
          | ok (ps', keys') ↦ ok ((name, p') ∷ ps', keys')
          | err e ↦ err e
        ]
]

-- The tests of one platform and its defaults, with the pools of the configuration.
unfoldable pub validate_platform :
    List (Bytes × CredentialPoolConfig) → Bytes → PlatformConfig → Result ConfigError PlatformConfig
unfolding has_slash lookup text_eq trim_space
validate_platform pools name p =
    let filled = record p {
      timeout_seconds = or_positive p.timeout_seconds (pos 30);
      credential_pool = or_text p.credential_pool default_credential_pool;
    } in
    if is_empty name
    then err empty_platform_name
    else if has_slash name
    then err (slash_in_platform_name name)
    else if is_empty p.typ
    then err (empty_type name)
    else if not (text_eq p.typ provider_api_sports || text_eq p.typ provider_generic_http)
    then err (unknown_type name p.typ)
    else if is_empty p.base_url
    then err (empty_base_url name)
    else if not (is_some (lookup filled.credential_pool pools))
    then err (unknown_credential_pool name filled.credential_pool)
    else if text_eq p.typ provider_generic_http && is_empty (trim_space p.auth.header)
    then err (requires_auth_header name)
    else ok filled

-- The workspace of a platform's name takes its time limit over, if it has none.
unfoldable pub fill_workspace :
    Bytes → ℤ → List (Bytes × WorkspaceConfig) → List (Bytes × WorkspaceConfig)
unfolding text_eq
fill_workspace name timeout [] = []
fill_workspace name timeout ((n, ws) ∷ m) =
    let filled = record ws { timeout_seconds = or_positive ws.timeout_seconds timeout } in
    if text_eq n name then (n, filled) ∷ m else (n, ws) ∷ fill_workspace name timeout m

-- validatePlatforms: the platforms and the workspaces.
unfoldable pub validate_platforms :
    List (Bytes × CredentialPoolConfig)
    → List (Bytes × WorkspaceConfig)
    → List (Bytes × PlatformConfig)
    → Result ConfigError (List (Bytes × PlatformConfig) × List (Bytes × WorkspaceConfig))
unfolding validate_platform fill_workspace
validate_platforms pools workspaces [] = ok ([], workspaces)
validate_platforms pools workspaces ((name, p) ∷ ps) = elim (validate_platform pools name p) [
  | err e ↦ err e
  | ok p' ↦ elim (validate_platforms pools (fill_workspace name p'.timeout_seconds workspaces) ps) [
    | ok (ps', ws') ↦ ok ((name, p') ∷ ps', ws')
    | err e ↦ err e
  ]
]

-- The defaults at the end of Validate.
unfoldable pub fill_defaults : Config → Config
fill_defaults c = record c {
  scheduler = record {
    switch_threshold =
        if ltb_ℤ c.scheduler.switch_threshold (pos 0) then pos 1 else c.scheduler.switch_threshold;
    rate_limit_cooldown_seconds = or_positive c.scheduler.rate_limit_cooldown_seconds (pos 60);
    error_cooldown_seconds = or_positive c.scheduler.error_cooldown_seconds (pos 30);
    max_error_count = or_positive c.scheduler.max_error_count (pos 3);
    max_retries = or_positive c.scheduler.max_retries (pos 3);
  };
  management = record c.management {
    log_file = or_text c.management.log_file (bytes "logs/gateway.jsonl");
    log_read_limit = or_positive c.management.log_read_limit (pos 500);
  };
  logging = record { level = or_text c.logging.level (bytes "info") };
}

-- The part of Validate behind the tests for platforms and pools.
unfoldable pub validate_parts : Config → Result ConfigError Config
unfolding validate_credential_pools validate_platforms fill_defaults
validate_parts c = elim (validate_credential_pools c.keys c.credential_pools) [
  | err e ↦ err e
  | ok (pools, keys) ↦ elim (validate_platforms pools c.workspaces c.platforms) [
    | err e ↦ err e
    | ok (platforms, workspaces) ↦ ok (
        fill_defaults (record c {
          keys = keys;
          credential_pools = pools;
          platforms = platforms;
          workspaces = workspaces;
        }))
  ]
]

-- Validate
unfoldable pub validate : Config → Result ConfigError Config
unfolding normalize_legacy_config validate_parts
validate c =
    let hosted = record c {
      server = record c.server { host = or_text c.server.host (bytes "0.0.0.0") };
    } in
    let normal = normalize_legacy_config hosted in
    if leb_ℤ c.server.port (pos 0) || ltb_ℤ (pos 65535) c.server.port
    then err (port_out_of_range c.server.port)
    else if is_empty normal.platforms
    then err no_platform
    else if is_empty normal.credential_pools
    then err no_credential_pool
    else validate_parts normal
