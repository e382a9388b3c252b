-- ===== src/Config/Tests.antt =====
-- The configuration in the legacy form passes Validate, and a file whose key comes from a variable.
use all2api.Prelude.{◌≡◌, refl, [], ◌∷◌, if◌then◌else◌, ok}
use all2api.Text.{Bytes, bytes, text_eq}
use all2api.Config.{Config}
use all2api.Config.Env.{env_name, sanitize_env_label}
use all2api.Config.Files.{load}
use all2api.Config.Secrets.{AllPairs, HasSecretsOf, load-HasSecretsOf}
use all2api.Config.Validate.{validate}
use all2api.Config.Idempotent.{validate-validate}
use all2api.Config.Usable.{IsUsable}
use all2api.Config.Accepted.{validate-IsUsable}
use all2api.Config.Samples.{legacy, accepted, validate-legacy}

validate-IsUsable_example : IsUsable accepted
validate-IsUsable_example = validate-IsUsable legacy accepted validate-legacy

validate-validate_example : validate accepted ≡ ok accepted
validate-validate_example = validate-validate legacy accepted validate-legacy

name_test : env_name (bytes "api-sports") (bytes "key-1") ≡ bytes "GW_KEY_API_SPORTS_KEY_1"
unfolding sanitize_env_label
name_test = refl

-- Two keys of different pools share a variable.
shared_test : env_name (bytes "a") (bytes "b-c") ≡ env_name (bytes "a-b") (bytes "c")
unfolding sanitize_env_label
shared_test = refl

abbrev environment : Bytes → Bytes
environment name = if text_eq name (bytes "GW_KEY_DEFAULT_KEY_1") then bytes "secret-env" else []

abbrev loaded : Config
loaded = record accepted {
  credential_pools =
      (
        bytes "default",
        record { keys = record { label = bytes "key-1"; key = bytes "secret-env" } ∷ [] },
      )
      ∷ [];
  keys = record { label = bytes "key-1"; key = bytes "secret-env" } ∷ [];
}

load_test : load (λ file. ok accepted) environment (ok []) ≡ ok loaded
unfolding load text_eq
load_test = refl

load-HasSecretsOf_example :
    AllPairs (HasSecretsOf environment) accepted.credential_pools loaded.credential_pools
load-HasSecretsOf_example =
    load-HasSecretsOf environment (λ file. ok accepted) [] accepted loaded refl (λ e. cc) load_test
