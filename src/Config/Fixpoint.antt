-- ===== src/Config/Fixpoint.antt =====
-- The loops of Validate on lists that are usable.
use all2api.Prelude.{
  is_empty-of_ne, ◌≡◌, ◌≢◌, refl, ap, ◌⊎◌, inl, inr, false, not, ◌&&◌, ◌||◌, none, List, [], ◌∷◌,
  if◌then◌else◌, is_empty, is_some, arith, All, Option-cases, pos, ◌≤ℤ◌, ok, Result-cases,
}
use all2api.Text.{Bytes, text_eq, trim_space}
use all2api.Text.Equality.{text_eq_iff}
use all2api.Table.{lookup}
use all2api.Config.{
  WorkspaceConfig, PlatformConfig, KeyConfig, CredentialPoolConfig, default_credential_pool,
  provider_api_sports, provider_generic_http,
}
use all2api.Config.Validate.{
  or_text, or_positive, validate_pool, validate_credential_pools, validate_platform,
  validate_platforms, fill_workspace,
}
use all2api.Config.Usable.{IsUsablePool, IsUsablePlatform}
use all2api.Config.Again.{validate_keys-same, Lacks-has_slash, last_keys, fill_all}

or_text-same : (s d : Bytes) → s ≢ [] → or_text s d ≡ s
or_text-same [] d n = absurd (n refl)
or_text-same (b ∷ s) d n = refl

validate_pool-same :
    (name : Bytes) (p : CredentialPoolConfig) → IsUsablePool (name, p) → validate_pool name p ≡ ok p
unfolding validate_pool
validate_pool-same name p ((n, l), k, v) = rw (is_empty-of_ne name n) (
    rw (Lacks-has_slash name l)
      (rw (is_empty-of_ne p.keys k) (rw (validate_keys-same name 0 p.keys v))))

pub validate_credential_pools-same :
    (keys : List KeyConfig) (ps : List (Bytes × CredentialPoolConfig))
    → All IsUsablePool ps
    → validate_credential_pools keys ps ≡ ok (ps, last_keys keys ps)
unfolding validate_credential_pools
validate_credential_pools-same keys [] h = refl
validate_credential_pools-same keys ((name, p) ∷ ps) (u, h) =
    rw (validate_pool-same name p u, validate_credential_pools)
      (rw (
        validate_credential_pools-same
          (if text_eq name default_credential_pool then p.keys else keys) ps h))

pub validate_credential_pools-keys :
    (keys : List KeyConfig) (ps : List (Bytes × CredentialPoolConfig))
    (r : List (Bytes × CredentialPoolConfig) × List KeyConfig)
    → validate_credential_pools keys ps ≡ ok r
    → r.1 ≡ last_keys keys r.0
unfolding validate_credential_pools
validate_credential_pools-keys keys [] r h = ground arith
validate_credential_pools-keys keys ((name, p) ∷ ps) r h =
    elim (Result-cases (validate_pool name p)) [
      | inr (x, e) ↦ absurd (ground arith)
      | inl (p', e) ↦
          let keys' = if text_eq name default_credential_pool then p'.keys else keys in
          elim (Result-cases (validate_credential_pools keys' ps)) [
            | inr (x, f) ↦ absurd (ground arith)
            | inl (rest, f) ↦
                let same = validate_credential_pools-keys keys' ps rest f in
                let made : r ≡ ((name, p') ∷ rest.0, rest.1) = ground arith in rw made same
          ]
    ]

-- No pool has the empty name.
lookup-empty :
    (ps : List (Bytes × CredentialPoolConfig)) → All IsUsablePool ps → lookup [] ps ≡ none
unfolding lookup
lookup-empty [] h = refl
lookup-empty ((name, p) ∷ ps) (((n, l), k, v), h) =
    ground (arith, text_eq_iff name [], lookup-empty ps h)

module _ (pools : List (Bytes × CredentialPoolConfig)) (usable : All IsUsablePool pools) where
  pool_name-ne : (name : Bytes) → lookup name pools ≢ none → name ≢ []
  pool_name-ne name h e = h (rw e (lookup-empty pools usable))

  filled-same :
      (p : PlatformConfig)
      → pos 1 ≤ℤ p.timeout_seconds
      → p.credential_pool ≢ []
      → record p {
        timeout_seconds = or_positive p.timeout_seconds (pos 30);
        credential_pool = or_text p.credential_pool default_credential_pool;
      }
        ≡ p
  filled-same p t n =
      let time : or_positive p.timeout_seconds (pos 30) ≡ p.timeout_seconds = ground arith in
      rw (time, or_text-same p.credential_pool default_credential_pool n)

  typ_lem :
      (p : PlatformConfig)
      → (p.typ ≡ provider_api_sports)
        ⊎ ((p.typ ≡ provider_generic_http) × (trim_space p.auth.header ≢ []))
      → (is_empty p.typ ≡ false)
        × (not (text_eq p.typ provider_api_sports || text_eq p.typ provider_generic_http) ≡ false)
        × ((text_eq p.typ provider_generic_http && is_empty (trim_space p.auth.header)) ≡ false)
  unfolding text_eq
  typ_lem p (inl api) = (rw api, rw api, rw api)
  typ_lem p (inr (generic, header)) =
      (rw generic, rw generic, rw (generic, is_empty-of_ne (trim_space p.auth.header) header))

  found_lem :
      (p : PlatformConfig)
      → lookup p.credential_pool pools ≢ none
      → not (is_some (lookup (or_text p.credential_pool default_credential_pool) pools)) ≡ false
  found_lem p found =
      rw
        (or_text-same p.credential_pool default_credential_pool
          (pool_name-ne p.credential_pool found))
        (elim (Option-cases (lookup p.credential_pool pools)) [
          | inl e ↦ absurd (found e)
          | inr (q, e) ↦ rw e
        ])

  validate_platform-same :
      (name : Bytes) (p : PlatformConfig)
      → IsUsablePlatform pools (name, p)
      → validate_platform pools name p ≡ ok p
  unfolding validate_platform
  validate_platform-same name p ((n, l), kind, b, t, found) =
      let (some_type, known, header) = typ_lem p kind in
      rw (is_empty-of_ne name n) (
        rw (Lacks-has_slash name l) (
          rw some_type (
            rw known (
              rw (is_empty-of_ne p.base_url b) (
                rw (found_lem p found)
                  (rw header (ap ok (filled-same p t (pool_name-ne p.credential_pool found)))))))))

  pub validate_platforms-same :
      (m : List (Bytes × WorkspaceConfig)) (ps : List (Bytes × PlatformConfig))
      → All (IsUsablePlatform pools) ps
      → validate_platforms pools m ps ≡ ok (ps, fill_all m ps)
  unfolding validate_platforms
  validate_platforms-same m [] h = refl
  validate_platforms-same m ((name, p) ∷ ps) (u, h) =
      rw (validate_platform-same name p u, validate_platforms)
        (rw (validate_platforms-same (fill_workspace name p.timeout_seconds m) ps h))

pub validate_platforms-workspaces :
    (pools : List (Bytes × CredentialPoolConfig)) (m : List (Bytes × WorkspaceConfig))
    (ps : List (Bytes × PlatformConfig))
    (r : List (Bytes × PlatformConfig) × List (Bytes × WorkspaceConfig))
    → validate_platforms pools m ps ≡ ok r
    → r.1 ≡ fill_all m r.0
unfolding validate_platforms
validate_platforms-workspaces pools m [] r h = ground arith
validate_platforms-workspaces pools m ((name, p) ∷ ps) r h =
    elim (Result-cases (validate_platform pools name p)) [
      | inr (x, e) ↦ absurd (ground arith)
      | inl (p', e) ↦
          let m' = fill_workspace name p'.timeout_seconds m in
          elim (Result-cases (validate_platforms pools m' ps)) [
            | inr (x, f) ↦ absurd (ground arith)
            | inl (rest, f) ↦
                let same = validate_platforms-workspaces pools m' ps rest f in
                let made : r ≡ ((name, p') ∷ rest.0, rest.1) = ground arith in rw made same
          ]
    ]
