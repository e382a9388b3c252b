-- ===== src/Gateway/Restart.antt =====
-- ReplaceConfig and Load: a configuration that was put into use survives a restart.
use all2api.Prelude.{◌≡◌, refl, inl, inr, none, List, [], ◌∷◌, map, Bool-cases, ok, ℤ}
use all2api.Text.{Bytes, bytes, text_eq}
use all2api.Table.{map_entries}
use all2api.Config.{Config, KeyConfig, CredentialPoolConfig, default_credential_pool}
use all2api.Config.Validate.{validate}
use all2api.Config.Idempotent.{validate-validate}
use all2api.Config.Env.{
  env_name, legacy_env_name, override_port, override_key, override_pool_key, override_pool,
  apply_env_overrides,
}
use all2api.Config.Files.{Yaml, FileWrite, load, clone_lem}
use all2api.Gateway.{Manager, build_proxy, new_manager, replace_config}
use all2api.Gateway.Replace.{replace_config-IsReplaced}

-- An environment without the variables leaves a configuration as it is.
module _ (env : Bytes → Bytes) (unset : (name : Bytes) → env name ≡ []) where
  override_key-unset : (k : KeyConfig) → override_key env k ≡ k
  unfolding override_key
  override_key-unset k = rw (unset (legacy_env_name k.label))

  override_pool_key-unset : (pool : Bytes) (k : KeyConfig) → override_pool_key env pool k ≡ k
  unfolding override_pool_key
  override_pool_key-unset pool k = elim (Bool-cases (text_eq pool default_credential_pool)) [
    | inl default ↦ rw (unset (env_name pool k.label), unset (legacy_env_name k.label), default)
    | inr other ↦ rw (unset (env_name pool k.label), other)
  ]

  map-same {ℓ} : {A : Type ℓ} (f : A → A) → ((a : A) → f a ≡ a) → (xs : List A) → map f xs ≡ xs
  map-same f h [] = refl
  map-same f h (a ∷ xs) = rw (h a, map-same f h xs)

  override_pools-unset :
      (ps : List (Bytes × CredentialPoolConfig)) → map_entries (override_pool env) ps ≡ ps
  unfolding map_entries override_pool
  override_pools-unset [] = refl
  override_pools-unset ((name, p) ∷ ps) = rw (
    map-same (override_pool_key env name) (override_pool_key-unset name) p.keys,
    override_pools-unset ps,
  )

  override_port-unset : (port : ℤ) → override_port env port ≡ ok port
  unfolding override_port
  override_port-unset port = rw (unset (bytes "GW_SERVER_PORT"))

  apply_env_overrides-unset : (c : Config) → apply_env_overrides env c ≡ ok c
  unfolding apply_env_overrides
  apply_env_overrides-unset c =
      rw (override_port-unset c.server.port, apply_env_overrides)
        (rw (
          unset (bytes "GW_ADMIN_KEY"),
          unset (bytes "GW_LOG_FILE"),
          map-same (override_key env) override_key-unset c.keys,
          override_pools-unset c.credential_pools,
        ))

  load_again :
      (yaml : Yaml) (c : Config)
      → validate c ≡ ok c
      → load yaml.decode env (ok (yaml.encode c)) ≡ ok c
  unfolding load
  load_again yaml c valid =
      rw (yaml.decode-encode c, load) (rw (apply_env_overrides-unset c, load) (rw valid))

new_manager_lem :
    (yaml : Yaml) (m : Manager) → build_proxy m.cfg ≡ ok m.built → new_manager yaml m.cfg ≡ ok m
unfolding new_manager
new_manager_lem yaml m h = rw (h, new_manager) (rw (clone_lem yaml m.cfg))

-- If ReplaceConfig succeeds, Load reads from the file that it leaves the configuration that is in use,
-- and the manager that New makes from this is the one that runs: if no variable of the environment is
-- set.
pub replace_config-restart :
    (yaml : Yaml) (write : FileWrite) (env : Bytes → Bytes) (next : Config) (m m' : Manager)
    (file file' : Bytes)
    → ((name : Bytes) → env name ≡ [])
    → replace_config yaml write next m file ≡ (m', file', none)
    → (load yaml.decode env (ok file') ≡ ok m'.cfg) × (new_manager yaml m'.cfg ≡ ok m')
replace_config-restart yaml write env next m m' file file' unset replaced =
    elim (rw replaced at (replace_config-IsReplaced yaml write next m file)) [
      | inl (_, written, valid, built, _) ↦ (
        rw written (load_again env unset yaml m'.cfg (validate-validate next m'.cfg valid)),
        new_manager_lem yaml m' built,
      )
      | inr (_, inl (x, _, _, e)) ↦ cc
      | inr (_, inr (x, _, _, e)) ↦ cc
    ]
