-- ===== src/Config/Secrets.antt =====
-- Load: where the secret of each key of a pool comes from.
use all2api.Prelude.{
  ℕ, ◌≡◌, ◌≢◌, refl, ap, ◌∙◌, ◌⊎◌, inl, inr, List, [], ◌∷◌, map, arith, Bool-cases, Result, ok,
  Result-cases,
}
use all2api.Text.{Bytes, text_eq}
use all2api.Text.Equality.{text_eq_iff, text_eq-false}
use all2api.Table.{map_entries}
use all2api.Config.{Config, KeyConfig, CredentialPoolConfig, default_credential_pool}
use all2api.Config.Validate.{validate}
use all2api.Config.Env.{
  env_name, legacy_env_name, override_pool_key, override_pool, apply_env_overrides, override_port,
}
use all2api.Config.Files.{load}
use all2api.Config.Kept.{secrets, all_secrets, validate-secrets}

Bytes-cases : (s : Bytes) → (s ≡ []) ⊎ ((b : ℕ) × (t : Bytes) × (s ≡ b ∷ t))
Bytes-cases [] = inl refl
Bytes-cases (b ∷ t) = inr (b, t, refl)

-- Both lists have the same length, and the elements at each place are related.
abbrev pub AllPairs : {A B : Type 0} → (A → B → Type 0) → List A → List B → Type 0
AllPairs R [] [] = Unit
AllPairs R [] (b ∷ ys) = ⊥
AllPairs R (a ∷ xs) [] = ⊥
AllPairs R (a ∷ xs) (b ∷ ys) = R a b × AllPairs R xs ys

module _ (env : Bytes → Bytes) where
  abbrev own : Bytes → KeyConfig → Bytes
  own pool k = env (env_name pool k.label)

  abbrev legacy : KeyConfig → Bytes
  legacy k = env (legacy_env_name k.label)

  -- The secret that a key of the file gets: the value of its variable; if that is not set, in the
  -- pool `default`, the value of the variable of its label; if neither is set, that of the file.
  abbrev pub IsSecretOf : Bytes → KeyConfig → Bytes → Type 0
  IsSecretOf pool k secret =
      ((own pool k ≢ []) × (secret ≡ own pool k))
      ⊎ ((own pool k ≡ [])
          × (pool ≡ default_credential_pool)
          × (legacy k ≢ [])
          × (secret ≡ legacy k))
      ⊎ ((own pool k ≡ [])
          × ((pool ≢ default_credential_pool) ⊎ (legacy k ≡ []))
          × (secret ≡ k.key))

  override_pool_key-IsSecretOf :
      (pool : Bytes) (k : KeyConfig) → IsSecretOf pool k (override_pool_key env pool k).key
  unfolding override_pool_key
  override_pool_key-IsSecretOf pool k = elim (Bytes-cases (own pool k)) [
    | inr (b, s, set) ↦ inl (λ e. cc, rw set)
    | inl unset ↦ elim (Bool-cases (text_eq pool default_credential_pool)) [
      | inr other ↦
          inr
            (inr (unset, inl (text_eq-false pool default_credential_pool other), rw (unset, other)))
      | inl hit ↦ elim (Bytes-cases (legacy k)) [
        | inr (b, s, set) ↦ inr (
            inl (
              unset,
              (text_eq_iff pool default_credential_pool).0 hit,
              (λ e. cc),
              rw (unset, hit, set),
            ))
        | inl none_set ↦ inr (inr (unset, inr none_set, rw (unset, hit, none_set)))
      ]
    ]
  ]

  keys-AreSecrets :
      (pool : Bytes) (ks ls : List KeyConfig)
      → map (λ (k : KeyConfig). k.key) ls
        ≡ map (λ (k : KeyConfig). k.key) (map (override_pool_key env pool) ks)
      → AllPairs (λ k l. IsSecretOf pool k l.key) ks ls
  keys-AreSecrets pool [] [] e = tt
  keys-AreSecrets pool [] (l ∷ ls) e = cc
  keys-AreSecrets pool (k ∷ ks) [] e = cc
  keys-AreSecrets pool (k ∷ ks) (l ∷ ls) e =
      let head : l.key ≡ (override_pool_key env pool k).key = cc in
      let rest : map (λ (j : KeyConfig). j.key) ls
          ≡ map (λ (j : KeyConfig). j.key) (map (override_pool_key env pool) ks) =
        cc in
      (rw head (override_pool_key-IsSecretOf pool k), keys-AreSecrets pool ks ls rest)

  -- The pool has the name of the file's, and as many keys, whose secrets come from there.
  abbrev pub HasSecretsOf : Bytes × CredentialPoolConfig → Bytes × CredentialPoolConfig → Type 0
  HasSecretsOf (name, p) (name', p') =
      (name' ≡ name) × AllPairs (λ k l. IsSecretOf name k l.key) p.keys p'.keys

  pools-HasSecretsOf :
      (ps qs : List (Bytes × CredentialPoolConfig))
      → all_secrets qs ≡ all_secrets (map_entries (override_pool env) ps)
      → AllPairs HasSecretsOf ps qs
  unfolding map_entries override_pool
  pools-HasSecretsOf [] [] e = tt
  pools-HasSecretsOf [] (q ∷ qs) e = cc
  pools-HasSecretsOf ((name, p) ∷ ps) [] e = cc
  pools-HasSecretsOf ((name, p) ∷ ps) ((name', q) ∷ qs) e =
      let head : ◌≡◌ {A = Bytes × List Bytes} (name', secrets q)
          (name, secrets (override_pool env name p)) =
        cc in
      let rest : all_secrets qs ≡ all_secrets (map_entries (override_pool env) ps) = cc in
      (
        (
          ap (λ (x : Bytes × List Bytes). x.0) head,
          keys-AreSecrets name p.keys q.keys (ap (λ (x : Bytes × List Bytes). x.1) head),
        ),
        pools-HasSecretsOf ps qs rest,
      )

  apply_env_overrides-pools :
      (c c' : Config)
      → apply_env_overrides env c ≡ ok c'
      → c'.credential_pools ≡ map_entries (override_pool env) c.credential_pools
  unfolding apply_env_overrides
  apply_env_overrides-pools c c' h = elim (Result-cases (override_port env c.server.port)) [
    | inl (port, e) ↦ ground arith
    | inr (x, e) ↦ absurd (ground arith)
  ]

  map_entries-ne :
      (ps : List (Bytes × CredentialPoolConfig)) → ps ≢ [] → map_entries (override_pool env) ps ≢ []
  unfolding map_entries
  map_entries-ne [] h = h
  map_entries-ne (p ∷ ps) h = λ e. cc

  module _ (decode : Bytes → Result Bytes Config) where
    -- The steps of a successful Load.
    pub load_lem :
        (file : Bytes) (c : Config)
        → load decode env (ok file) ≡ ok c
        → (raw : Config) × (overridden : Config) × (decode file ≡ ok raw)
          × (apply_env_overrides env raw ≡ ok overridden)
          × (validate overridden ≡ ok c)
    unfolding load
    load_lem file c h = elim (Result-cases (decode file)) [
      | inr (x, e) ↦ absurd (ground arith)
      | inl (raw, e) ↦ elim (Result-cases (apply_env_overrides env raw)) [
        | inr (x, f) ↦ absurd (ground arith)
        | inl (overridden, f) ↦ elim (Result-cases (validate overridden)) [
          | inr (x, g) ↦ absurd (ground arith)
          | inl (c', g) ↦ (raw, overridden, e, f, ground arith)
        ]
      ]
    ]

    -- The pools of a configuration that Load returns have the names and the keys of the file, if that
    -- has pools, in their order; each key has the secret of its variable, or, if that is not set and
    -- the pool is `default`, of the variable of its label, or, if neither is set, of the file.
    pub load-HasSecretsOf :
        (file : Bytes) (raw c : Config)
        → decode file ≡ ok raw
        → raw.credential_pools ≢ []
        → load decode env (ok file) ≡ ok c
        → AllPairs HasSecretsOf raw.credential_pools c.credential_pools
    load-HasSecretsOf file raw c read some_pool h =
        let (raw', overridden, e, f, g) = load_lem file c h in
        let one : raw' ≡ raw = cc in
        let pools = apply_env_overrides-pools raw overridden (rw one at f) in
        pools-HasSecretsOf raw.credential_pools c.credential_pools (
          validate-secrets overridden c (rw pools (map_entries-ne raw.credential_pools some_pool)) g
          ∙ ap all_secrets pools)
