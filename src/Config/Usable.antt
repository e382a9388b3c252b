-- ===== src/Config/Usable.antt =====
-- The parts of Validate: what the pools and the platforms that pass it have.
use all2api.Prelude.{
  not_empty, ℕ, suc, ◌≡◌, ◌≢◌, ◌⊎◌, inl, inr, true, false, none, List, [], ◌∷◌, if◌then◌else◌,
  is_empty, is_some, arith, All, pos, ◌≤ℤ◌, ok, Result-cases,
}
use all2api.Text.{Bytes, text_eq, trim_space}
use all2api.Text.Equality.{text_eq_iff}
use all2api.Text.Cut.{Lacks}
use all2api.Table.{lookup}
use all2api.Proxy.Path.{IsNamespace}
use all2api.Config.{
  WorkspaceConfig, PlatformConfig, KeyConfig, CredentialPoolConfig, Config, SchedulerConfig,
  default_credential_pool, provider_api_sports, provider_generic_http,
}
use all2api.Config.Validate.{
  has_slash, or_numbered, validate_keys, validate_pool, validate_credential_pools,
  validate_platform, validate_platforms, fill_defaults, fill_workspace,
}

abbrev pub IsUsableKey : KeyConfig → Type 0
IsUsableKey k = (k.label ≢ []) × (k.key ≢ [])

abbrev pub IsUsablePool : Bytes × CredentialPoolConfig → Type 0
IsUsablePool (name, p) = IsNamespace name × (p.keys ≢ []) × All IsUsableKey p.keys

-- A platform whose name a path can have, of a known type, with its pool among the pools.
abbrev pub IsUsablePlatform : List (Bytes × CredentialPoolConfig) → Bytes × PlatformConfig → Type 0
IsUsablePlatform pools (name, p) =
    IsNamespace name
    × ((p.typ ≡ provider_api_sports)
        ⊎ ((p.typ ≡ provider_generic_http) × (trim_space p.auth.header ≢ [])))
    × (p.base_url ≢ [])
    × (pos 1 ≤ℤ p.timeout_seconds)
    × (lookup p.credential_pool pools ≢ none)

abbrev pub IsUsableScheduler : SchedulerConfig → Type 0
IsUsableScheduler s =
    (pos 0 ≤ℤ s.switch_threshold)
    × (pos 1 ≤ℤ s.rate_limit_cooldown_seconds)
    × (pos 1 ≤ℤ s.error_cooldown_seconds)
    × (pos 1 ≤ℤ s.max_error_count)
    × (pos 1 ≤ℤ s.max_retries)

pub record IsUsable (c : Config) : Type 0 where
  pub port_ge : pos 1 ≤ℤ c.server.port
  pub port_le : c.server.port ≤ℤ pos 65535
  pub has_pools : c.credential_pools ≢ []
  pub has_platforms : c.platforms ≢ []
  pub pools : All IsUsablePool c.credential_pools
  pub platforms : All (IsUsablePlatform c.credential_pools) c.platforms
  pub scheduler : IsUsableScheduler c.scheduler

pub or_numbered-ne : (i : ℕ) (label : Bytes) → or_numbered i label ≢ []
unfolding or_numbered
or_numbered-ne i [] e = cc
or_numbered-ne i (b ∷ label) e = cc

has_slash-Lacks : (s : Bytes) → has_slash s ≡ false → Lacks b'/' s
unfolding has_slash
has_slash-Lacks [] h = tt
has_slash-Lacks (b ∷ s) h = ground (arith, has_slash-Lacks s)

validate_keys-All :
    (pool : Bytes) (i : ℕ) (ks ls : List KeyConfig)
    → validate_keys pool i ks ≡ ok ls
    → All IsUsableKey ls × (is_empty ls ≡ is_empty ks)
unfolding validate_keys
validate_keys-All pool i [] ls h = ground arith
validate_keys-All pool i (k ∷ ks) ls h = elim (Result-cases (validate_keys pool (suc i) ks)) [
  | inl (rest, e) ↦
      let (usable, _) = validate_keys-All pool (suc i) ks rest e in
      ground (arith, or_numbered-ne i k.label, not_empty k.key)
  | inr (x, e) ↦ absurd (ground arith)
]

validate_pool-IsUsablePool :
    (name : Bytes) (p p' : CredentialPoolConfig)
    → validate_pool name p ≡ ok p'
    → IsUsablePool (name, p')
unfolding validate_pool
validate_pool-IsUsablePool name p p' h = elim (Result-cases (validate_keys name 0 p.keys)) [
  | inl (ks, e) ↦
      let (usable, same) = validate_keys-All name 0 p.keys ks e in
      ground (arith, has_slash-Lacks name, not_empty name, not_empty ks)
  | inr (x, e) ↦ absurd (ground arith)
]

lookup-some :
    (name : Bytes) (pools : List (Bytes × CredentialPoolConfig))
    → is_some (lookup name pools) ≡ true
    → lookup name pools ≢ none
lookup-some name pools h e = ground arith

validate_platform-IsUsablePlatform :
    (pools : List (Bytes × CredentialPoolConfig)) (name : Bytes) (p p' : PlatformConfig)
    → validate_platform pools name p ≡ ok p'
    → IsUsablePlatform pools (name, p')
unfolding validate_platform
validate_platform-IsUsablePlatform pools name p p' h = ground (
  arith,
  has_slash-Lacks name,
  not_empty name,
  not_empty p.base_url,
  not_empty (trim_space p.auth.header),
  text_eq_iff p.typ provider_api_sports,
  text_eq_iff p.typ provider_generic_http,
)

pub fill_defaults-IsUsableScheduler : (c : Config) → IsUsableScheduler (fill_defaults c).scheduler
unfolding fill_defaults
fill_defaults-IsUsableScheduler c = ground arith

-- The pools are usable, and there are some if there were any.
pub validate_credential_pools-All :
    (keys : List KeyConfig) (ps : List (Bytes × CredentialPoolConfig))
    (r : List (Bytes × CredentialPoolConfig) × List KeyConfig)
    → validate_credential_pools keys ps ≡ ok r
    → All IsUsablePool r.0 × (is_empty r.0 ≡ is_empty ps)
unfolding validate_credential_pools
validate_credential_pools-All keys [] r h = ground arith
validate_credential_pools-All keys ((name, p) ∷ ps) r h =
    elim (Result-cases (validate_pool name p)) [
      | inr (x, e) ↦ absurd (ground arith)
      | inl (p', e) ↦
          let usable = validate_pool-IsUsablePool name p p' e in
          let keys' = if text_eq name default_credential_pool then p'.keys else keys in
          elim (Result-cases (validate_credential_pools keys' ps)) [
            | inr (x, f) ↦ absurd (ground arith)
            | inl (rest, f) ↦
                let (all, _) = validate_credential_pools-All keys' ps rest f in ground arith
          ]
    ]

pub validate_platforms-All :
    (pools : List (Bytes × CredentialPoolConfig)) (workspaces : List (Bytes × WorkspaceConfig))
    (ps : List (Bytes × PlatformConfig))
    (r : List (Bytes × PlatformConfig) × List (Bytes × WorkspaceConfig))
    → validate_platforms pools workspaces ps ≡ ok r
    → All (IsUsablePlatform pools) r.0 × (is_empty r.0 ≡ is_empty ps)
unfolding validate_platforms
validate_platforms-All pools workspaces [] r h = ground arith
validate_platforms-All pools workspaces ((name, p) ∷ ps) r h =
    elim (Result-cases (validate_platform pools name p)) [
      | inr (x, e) ↦ absurd (ground arith)
      | inl (p', e) ↦
          let usable = validate_platform-IsUsablePlatform pools name p p' e in
          let workspaces' = fill_workspace name p'.timeout_seconds workspaces in
          elim (Result-cases (validate_platforms pools workspaces' ps)) [
            | inr (x, f) ↦ absurd (ground arith)
            | inl (rest, f) ↦
                let (all, _) = validate_platforms-All pools workspaces' ps rest f in ground arith
          ]
    ]
