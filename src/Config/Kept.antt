-- ===== src/Config/Kept.antt =====
-- Validate leaves the secrets of all keys of the pools as they are.
use all2api.Prelude.{
  ℕ, suc, ◌≡◌, ◌≢◌, ap, ◌∙◌, inl, inr, List, [], ◌∷◌, map, if◌then◌else◌, is_empty-of_ne, arith, ok,
  Result-cases,
}
use all2api.Text.{Bytes, text_eq}
use all2api.Config.{Config, KeyConfig, CredentialPoolConfig, default_credential_pool}
use all2api.Config.Validate.{
  validate_keys, validate_pool, validate_credential_pools, fill_defaults, validate,
  normalize_legacy_config,
}
use all2api.Config.Accepted.{validate_parts_lem, validate_lem, prepared}

-- The secrets of a pool.
abbrev pub secrets : CredentialPoolConfig → List Bytes
secrets p = map (λ (k : KeyConfig). k.key) p.keys

validate_keys-secrets :
    (pool : Bytes) (i : ℕ) (ks ls : List KeyConfig)
    → validate_keys pool i ks ≡ ok ls
    → map (λ (k : KeyConfig). k.key) ls ≡ map (λ (k : KeyConfig). k.key) ks
unfolding validate_keys
validate_keys-secrets pool i [] ls h = ground arith
validate_keys-secrets pool i (k ∷ ks) ls h = elim (Result-cases (validate_keys pool (suc i) ks)) [
  | inl (rest, e) ↦ ground (arith, validate_keys-secrets pool (suc i) ks rest e)
  | inr (x, e) ↦ absurd (ground arith)
]

validate_pool-secrets :
    (name : Bytes) (p q : CredentialPoolConfig)
    → validate_pool name p ≡ ok q
    → secrets q ≡ secrets p
unfolding validate_pool
validate_pool-secrets name p q h = elim (Result-cases (validate_keys name 0 p.keys)) [
  | inl (ls, e) ↦ ground (arith, validate_keys-secrets name 0 p.keys ls e)
  | inr (x, e) ↦ absurd (ground arith)
]

-- The names of the pools with their secrets.
abbrev pub all_secrets : List (Bytes × CredentialPoolConfig) → List (Bytes × List Bytes)
all_secrets ps = map (λ (e : Bytes × CredentialPoolConfig). (e.0, secrets e.1)) ps

validate_credential_pools-secrets :
    (keys : List KeyConfig) (ps : List (Bytes × CredentialPoolConfig))
    (r : List (Bytes × CredentialPoolConfig) × List KeyConfig)
    → validate_credential_pools keys ps ≡ ok r
    → all_secrets r.0 ≡ all_secrets ps
unfolding validate_credential_pools
validate_credential_pools-secrets keys [] r h = ground arith
validate_credential_pools-secrets keys ((name, p) ∷ ps) r h =
    elim (Result-cases (validate_pool name p)) [
      | inr (x, e) ↦ absurd (ground arith)
      | inl (p', e) ↦
          let same = validate_pool-secrets name p p' e in
          let keys' = if text_eq name default_credential_pool then p'.keys else keys in
          elim (Result-cases (validate_credential_pools keys' ps)) [
            | inr (x, f) ↦ absurd (ground arith)
            | inl (rest, f) ↦
                let later = validate_credential_pools-secrets keys' ps rest f in ground arith
          ]
    ]

prepared-credential_pools :
    (c : Config) → c.credential_pools ≢ [] → (prepared c).credential_pools ≡ c.credential_pools
unfolding normalize_legacy_config
prepared-credential_pools c h = rw (is_empty-of_ne c.credential_pools h)

-- Validate changes neither the names of the pools nor the secrets of their keys.
pub validate-secrets :
    (c c' : Config)
    → c.credential_pools ≢ []
    → validate c ≡ ok c'
    → all_secrets c'.credential_pools ≡ all_secrets c.credential_pools
unfolding fill_defaults
validate-secrets c c' some_pool h =
    let (_, _, _, _, parts) = validate_lem c c' h in
    let (pools, platforms, made, _, same) = validate_parts_lem (prepared c) c' parts in
    rw same (
      validate_credential_pools-secrets (prepared c).keys (prepared c).credential_pools pools made
      ∙ ap all_secrets (prepared-credential_pools c some_pool))
