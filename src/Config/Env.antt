-- ===== src/Config/Env.antt =====
-- internal/config/config.go: the environment variables that override fields of the file. `env` is
-- os.Getenv, which returns the empty text for a variable that is not set.
use all2api.Prelude.{
  ◌-◌, ℕ, Bool, ◌&&◌, ◌||◌, none, some, [], ◌++◌, map, leb, ◌==◌, if◌then◌else◌, is_empty, ℤ,
  Result, ok, err,
}
use all2api.Text.{Bytes, bytes, text_eq, atoi}
use all2api.Text.Utf8.{runes}
use all2api.Table.{map_entries}
use all2api.Config.{Config, KeyConfig, CredentialPoolConfig, default_credential_pool}
use all2api.Config.Validate.{or_text}

-- The upper case of a rune. Of those outside ASCII only the two below have theirs inside it; any
-- other stays outside, and only that is read of it.
abbrev upper_rune : ℕ → ℕ
upper_rune r =
    if leb b'a' r && leb r b'z'
    then r - 32
    else if r == 0x131
    then b'I'
    else if r == 0x17f
    then b'S'
    else r

abbrev pub is_env_rune : ℕ → Bool
is_env_rune r = leb b'A' r && leb r b'Z' || leb b'0' r && leb r b'9'

abbrev pub env_rune : ℕ → ℕ
env_rune r = let u = upper_rune r in if is_env_rune u then u else b'_'

-- sanitizeEnvLabel
unfoldable pub sanitize_env_label : Bytes → Bytes
unfolding runes
sanitize_env_label label = map env_rune (runes label)

-- The variable of a key of the legacy form.
abbrev pub legacy_env_name : Bytes → Bytes
legacy_env_name label = bytes "GW_KEY_" ++ sanitize_env_label label

-- The variable of a key of a pool.
abbrev pub env_name : Bytes → Bytes → Bytes
env_name pool label =
    bytes "GW_KEY_" ++ (sanitize_env_label pool ++ (bytes "_" ++ sanitize_env_label label))

pub data EnvError : Type 0 where
  invalid_port : Bytes → EnvError

module _ (env : Bytes → Bytes) where
  -- GW_SERVER_PORT
  unfoldable pub override_port : ℤ → Result EnvError ℤ
  unfolding atoi
  override_port port =
      let v = env (bytes "GW_SERVER_PORT") in
      if is_empty v then ok port else elim (atoi v) [ none ↦ err (invalid_port v) | some p ↦ ok p ]

  -- The loop over the keys of the legacy form.
  unfoldable pub override_key : KeyConfig → KeyConfig
  unfolding sanitize_env_label
  override_key k = record k { key = or_text (env (legacy_env_name k.label)) k.key }

  -- The loop over the keys of a pool.
  unfoldable pub override_pool_key : Bytes → KeyConfig → KeyConfig
  unfolding sanitize_env_label text_eq
  override_pool_key pool k =
      let legacy =
        if text_eq pool default_credential_pool then env (legacy_env_name k.label) else [] in
      record k { key = or_text (env (env_name pool k.label)) (or_text legacy k.key) }

  unfoldable pub override_pool : Bytes → CredentialPoolConfig → CredentialPoolConfig
  unfolding override_pool_key
  override_pool name p = record { keys = map (override_pool_key name) p.keys }

  -- applyEnvOverrides
  unfoldable pub apply_env_overrides : Config → Result EnvError Config
  unfolding override_port override_key override_pool map_entries
  apply_env_overrides c = elim (override_port c.server.port) [
    | err e ↦ err e
    | ok port ↦ ok (record c {
      server = record c.server { port = port };
      keys = map override_key c.keys;
      credential_pools = map_entries override_pool c.credential_pools;
      management = record c.management {
        admin_key = or_text (env (bytes "GW_ADMIN_KEY")) c.management.admin_key;
        log_file = or_text (env (bytes "GW_LOG_FILE")) c.management.log_file;
      };
    })
  ]
