-- ===== src/Config/Files.antt =====
-- internal/config/config.go: Load, Save and Clone. The YAML form of a configuration and the errors of
-- the file system are parameters.
use all2api.Prelude.{◌≡◌, Option, none, some, Result, ok, err}
use all2api.Text.{Bytes}
use all2api.Config.{Config, ConfigError}
use all2api.Config.Validate.{validate}
use all2api.Config.Env.{EnvError, apply_env_overrides}

-- The YAML form: yaml.Marshal, which has no error for a configuration, and yaml.Unmarshal into an empty
-- one, with its error. What Marshal writes of a configuration, Unmarshal reads back.
pub record Yaml : Type 0 where
  pub encode : Config → Bytes
  pub decode : Bytes → Result Bytes Config
  pub decode-encode : (c : Config) → decode (encode c) ≡ ok c

pub data LoadError : Type 0 where
  unread unparsed : Bytes → LoadError
  overridden : EnvError → LoadError
  rejected : ConfigError → LoadError

pub data SaveError : Type 0 where
  refused : ConfigError → SaveError
  unwritten : Bytes → SaveError

-- Load: what os.ReadFile comes to, then the YAML form, the environment and Validate.
unfoldable pub load :
    (Bytes → Result Bytes Config) → (Bytes → Bytes) → Result Bytes Bytes → Result LoadError Config
unfolding apply_env_overrides validate
load decode env (err e) = err (unread e)
load decode env (ok file) = elim (decode file) [
  | err e ↦ err (unparsed e)
  | ok raw ↦ elim (apply_env_overrides env raw) [
    | err e ↦ err (overridden e)
    | ok c ↦ elim (validate c) [ err e ↦ err (rejected e) | ok c' ↦ ok c' ]
  ]
]

-- Clone: through the YAML form and back. Its panics, for an error of that form, cannot happen by the law
-- of the form; this branch stands for them.
unfoldable pub clone : Yaml → Config → Config
clone yaml c = elim (yaml.decode (yaml.encode c)) [ err e ↦ c | ok c' ↦ c' ]

-- What os.WriteFile comes to: its error, if there is one, and then the content of the file, which is
-- truncated before it is written.
pub record FileWrite : Type 0 where
  pub failure : Option Bytes
  pub torn : Bytes

-- Save: the content of the file behind the call, and the error.
unfoldable pub save : Yaml → FileWrite → Config → Bytes → Bytes × Option SaveError
unfolding validate clone
save yaml write c file = elim (validate (clone yaml c)) [
  | err e ↦ (file, some (refused e))
  | ok next ↦ elim write.failure [
    | some e ↦ (write.torn, some (unwritten e))
    | none ↦ (yaml.encode next, none)
  ]
]

pub clone_lem : (yaml : Yaml) (c : Config) → clone yaml c ≡ c
unfolding clone
clone_lem yaml c = rw (yaml.decode-encode c, clone)
