-- ===== src/Gateway/Replace.antt =====
-- ReplaceConfig: the gateway always runs a configuration that passed Validate.
use all2api.Prelude.{
  ◌≡◌, refl, ◌⊎◌, inl, inr, Option, none, some, Option-cases, ok, err, Result-cases,
}
use all2api.Text.{Bytes}
use all2api.Config.{Config, ConfigError}
use all2api.Config.Validate.{validate}
use all2api.Config.Files.{Yaml, FileWrite, SaveError, unwritten, save, clone_lem}
use all2api.Config.Idempotent.{validate-validate}
use all2api.Gateway.{Built, build_proxy, Manager, ManagerError, invalid, not_saved, replace_config}
use all2api.Gateway.Route.{IsGateway, build_proxy-IsGateway}

-- The new configuration is in use, or there is an error and the manager is as it was.
abbrev pub IsReplaced :
    Yaml → FileWrite → Config → Manager → Bytes → Manager × Bytes × Option ManagerError → Type 0
IsReplaced yaml write cfg m file (m', file', e) =
    ((e ≡ none)
      × (file' ≡ yaml.encode m'.cfg)
      × (validate cfg ≡ ok m'.cfg)
      × (build_proxy m'.cfg ≡ ok m'.built)
      × IsGateway m'.cfg m'.built)
    ⊎ ((m' ≡ m)
        × (((x : ConfigError) × (validate cfg ≡ err x) × (file' ≡ file) × (e ≡ some (invalid x)))
            ⊎ ((x : Bytes) × (write.failure ≡ some x)
                × (file' ≡ write.torn)
                × (e ≡ some (not_saved (unwritten x))))))

module _ (yaml : Yaml) (write : FileWrite) (file : Bytes) where
  save_unwritten :
      (c next : Config) (x : Bytes)
      → validate c ≡ ok next
      → write.failure ≡ some x
      → save yaml write c file ≡ (write.torn, some (unwritten x))
  unfolding save
  save_unwritten c next x h e = rw (clone_lem yaml c, save) (rw (h, save) (rw e))

  save_written :
      (c next : Config)
      → validate c ≡ ok next
      → write.failure ≡ none
      → save yaml write c file ≡ (yaml.encode next, none)
  unfolding save
  save_written c next h e = rw (clone_lem yaml c, save) (rw (h, save) (rw e))

  module _ (cfg : Config) (m : Manager) where
    replace_config_invalid :
        (x : ConfigError)
        → validate cfg ≡ err x
        → replace_config yaml write cfg m file ≡ (m, file, some (invalid x))
    unfolding replace_config
    replace_config_invalid x h = rw (clone_lem yaml cfg, replace_config) (rw (h, replace_config))

    module _ (next : Config) (b : Built) (valid : validate cfg ≡ ok next)
        (built : build_proxy next ≡ ok b) where
      replace_config_unsaved :
          (x : SaveError)
          → save yaml write next file ≡ (write.torn, some x)
          → replace_config yaml write cfg m file ≡ (m, write.torn, some (not_saved x))
      unfolding replace_config
      replace_config_unsaved x e =
          rw (clone_lem yaml cfg, replace_config)
            (rw (valid, replace_config)
              (rw (built, replace_config) (rw (e, replace_config) (rw e))))

      replace_config_saved :
          save yaml write next file ≡ (yaml.encode next, none)
          → replace_config yaml write cfg m file
            ≡ (record { cfg = next; built = b }, yaml.encode next, none)
      unfolding replace_config
      replace_config_saved e =
          rw (clone_lem yaml cfg, replace_config)
            (rw (valid, replace_config)
              (rw (built, replace_config)
                (rw (e, replace_config) (rw (clone_lem yaml next) (rw e)))))

-- ReplaceConfig either puts the validated form of the new configuration into use, together with a
-- proxy that is built from it, and leaves its YAML form in the file, or fails and leaves the manager as
-- it was; it fails only with the error of Validate for that configuration, and then leaves the file as
-- well, or with the error of the file that is written, and never because the proxy cannot be built or
-- the second validation fails.
pub replace_config-IsReplaced :
    (yaml : Yaml) (write : FileWrite) (cfg : Config) (m : Manager) (file : Bytes)
    → IsReplaced yaml write cfg m file (replace_config yaml write cfg m file)
replace_config-IsReplaced yaml write cfg m file = elim (Result-cases (validate cfg)) [
  | inr (x, h) ↦
      rw (replace_config_invalid yaml write file cfg m x h) (inr (refl, inl (x, h, refl, refl)))
  | inl (next, valid) ↦
      let (b, built, gateway) = build_proxy-IsGateway cfg next valid in
      let again = validate-validate cfg next valid in
      elim (Option-cases write.failure) [
        | inl e ↦
            rw
              (replace_config_saved yaml write file cfg m next b valid built
                (save_written yaml write file next next again e))
              (inl (refl, refl, valid, built, gateway))
        | inr (x, e) ↦
            rw
              (replace_config_unsaved yaml write file cfg m next b valid built (unwritten x)
                (save_unwritten yaml write file next next x again e))
              (inr (refl, inr (x, e, refl, refl)))
      ]
]
