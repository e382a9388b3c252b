-- ===== src/Config/Accepted.antt =====
-- Validate: what a configuration that passes it has.
use all2api.Prelude.{
  not_empty, ◌≡◌, refl, ◌∙◌, inl, inr, false, List, is_empty, arith, pos, ◌≤ℤ◌, ok, Result-cases,
}
use all2api.Text.{Bytes, bytes}
use all2api.Config.{WorkspaceConfig, PlatformConfig, KeyConfig, CredentialPoolConfig, Config}
use all2api.Config.Validate.{
  or_text, normalize_legacy_config, validate_credential_pools, validate_platforms, fill_defaults,
  validate_parts, validate,
}
use all2api.Config.Usable.{
  IsUsable, validate_credential_pools-All, validate_platforms-All, fill_defaults-IsUsableScheduler,
}

-- What validate_parts makes of the two lists.
pub validate_parts_lem :
    (c c' : Config)
    → validate_parts c ≡ ok c'
    → (pools : List (Bytes × CredentialPoolConfig) × List KeyConfig) × (platforms : List
          (Bytes × PlatformConfig)
        × List (Bytes × WorkspaceConfig))
      × (validate_credential_pools c.keys c.credential_pools ≡ ok pools)
      × (validate_platforms pools.0 c.workspaces c.platforms ≡ ok platforms)
      × (c'
          ≡ fill_defaults (record c {
            keys = pools.1;
            credential_pools = pools.0;
            platforms = platforms.0;
            workspaces = platforms.1;
          }))
unfolding validate_parts
validate_parts_lem c c' h =
    elim (Result-cases (validate_credential_pools c.keys c.credential_pools)) [
      | inr (x, e) ↦ absurd (ground arith)
      | inl (pools, e) ↦ elim (Result-cases (validate_platforms pools.0 c.workspaces c.platforms)) [
        | inr (x, f) ↦ absurd (ground arith)
        | inl (platforms, f) ↦ (pools, platforms, e, f, ground arith)
      ]
    ]

-- The configuration that Validate hands to its last part.
abbrev pub prepared : Config → Config
prepared c =
    normalize_legacy_config
      (record c { server = record c.server { host = or_text c.server.host (bytes "0.0.0.0") } })

pub validate_lem :
    (c c' : Config)
    → validate c ≡ ok c'
    → (pos 1 ≤ℤ c.server.port)
      × (c.server.port ≤ℤ pos 65535)
      × (is_empty (prepared c).platforms ≡ false)
      × (is_empty (prepared c).credential_pools ≡ false)
      × (validate_parts (prepared c) ≡ ok c')
unfolding validate
validate_lem c c' h = ground arith

prepared-port : (c : Config) → (prepared c).server.port ≡ c.server.port
unfolding normalize_legacy_config
prepared-port c = refl

fill_defaults-same :
    (c : Config)
    → ((fill_defaults c).platforms ≡ c.platforms)
      × ((fill_defaults c).credential_pools ≡ c.credential_pools)
      × ((fill_defaults c).server ≡ c.server)
unfolding fill_defaults
fill_defaults-same c = (refl, refl, refl)

-- A configuration that passes Validate has a port from 1 to 65535, a pool and a platform at least.
-- The name of each pool and platform is not empty and has no slash, so a path can have it; each pool
-- has a key, and each key a label and a value; each platform has a known type, with a header for the
-- credential if it is the generic one, a base URL, a positive time limit and a pool that is there;
-- the numbers of the scheduler are positive, but for the threshold, which is not negative.
pub validate-IsUsable : (c c' : Config) → validate c ≡ ok c' → IsUsable c'
unfolding fill_defaults
validate-IsUsable c c' h =
    let (low, high, some_platform, some_pool, parts) = validate_lem c c' h in
    let (pools, platforms, made_pools, made_platforms, same) =
      validate_parts_lem (prepared c) c' parts in
    let (pools_usable, pools_empty) =
      validate_credential_pools-All (prepared c).keys (prepared c).credential_pools pools
        made_pools in
    let (platforms_usable, platforms_empty) =
      validate_platforms-All pools.0 (prepared c).workspaces (prepared c).platforms platforms
        made_platforms in
    let filled = record (prepared c) {
      keys = pools.1;
      credential_pools = pools.0;
      platforms = platforms.0;
      workspaces = platforms.1;
    } in
    rw same (record {
      port_ge = rw (prepared-port c) low;
      port_le = rw (prepared-port c) high;
      has_pools = not_empty pools.0 (pools_empty ∙ some_pool);
      has_platforms = not_empty platforms.0 (platforms_empty ∙ some_platform);
      pools = pools_usable;
      platforms = platforms_usable;
      scheduler = fill_defaults-IsUsableScheduler filled;
    })
