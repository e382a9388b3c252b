-- ===== src/Gateway.antt =====
-- internal/gateway/manager.go: the proxy that is built from a configuration, and its replacement.
pub mod Build
pub mod Route
pub mod Admitted
pub mod Sent
pub mod Replace
pub mod Docs
pub mod Restart
pub mod Sorted
pub mod Overview
mod Tests
use all2api.Prelude.{
  ℕ, zero, suc, ◌+◌, ◌-◌, ◌*◌, ◌%◌, ◌^◌, Bool, true, false, ◌||◌, Option, none, some, List, [], ◌∷◌,
  map, ltb, ◌==◌, if◌then◌else◌, ℤ, pos, negsuc, Result, ok, err,
}
use all2api.Text.{Bytes, text_eq}
use all2api.Clock.{Duration, second}
use all2api.Keypool
use all2api.Keypool.{KeyEntry, Options, Pool}
use all2api.Auth
use all2api.Provider
use all2api.Provider.{Provider, ProviderError, credential_header}
use all2api.Config.{
  Config, PlatformConfig, KeyConfig, CredentialPoolConfig, SchedulerConfig, ConfigError,
}
use all2api.Config.Validate.{validate}
use all2api.Config.Files.{Yaml, FileWrite, SaveError, clone, save}
use all2api.Proxy
use all2api.Proxy.{PlatformUpstream, Handler, new_handler, with_event_sink}
use all2api.Proxy.Exchange.{Store, ClientRequest, World, Served}
use all2api.Proxy.Serve.{serve}

-- The value of an `int64`, which wraps at 64 bits.
abbrev wrap : ℤ → ℤ
wrap (pos n) = let m = n % 2 ^ 64 in if ltb m (2 ^ 63) then pos m else negsuc (2 ^ 64 - m - 1)
wrap (negsuc n) = let m = n % 2 ^ 64 in if ltb m (2 ^ 63) then negsuc m else pos (2 ^ 64 - 1 - m)

-- time.Duration(n) * time.Second
unfoldable pub seconds : ℤ → Duration
seconds (pos n) = wrap (pos (n * second))
seconds (negsuc n) = wrap (negsuc ((n + 1) * second - 1))

unfoldable pub pool_options : SchedulerConfig → Options
unfolding seconds
pool_options s = record {
  switch_threshold = s.switch_threshold;
  rate_limit_cooldown = seconds s.rate_limit_cooldown_seconds;
  error_cooldown = seconds s.error_cooldown_seconds;
  max_error_count = s.max_error_count;
}

abbrev pub key_entry : KeyConfig → KeyEntry
key_entry k = record { label = k.label; key = k.key }

-- The first loop of buildProxy: a pool for each entry, in the order of the entries.
unfoldable pub build_pools : Options → List (Bytes × CredentialPoolConfig) → List (Bytes × Pool)
unfolding Keypool.new
build_pools opts [] = []
build_pools opts ((name, p) ∷ ps) =
    (name, Keypool.new (map key_entry p.keys) opts) ∷ build_pools opts ps

-- The reference of the pool of this name: its place in the list. `none` is the nil pointer.
unfoldable pub reference : Bytes → List (Bytes × Pool) → Option ℕ
unfolding text_eq
reference name [] = none
reference name ((n, p) ∷ ps) =
    if text_eq n name
    then some 0
    else elim (reference name ps) [ none ↦ none | some r ↦ some (suc r) ]

-- The pools behind their references; other references are not given out.
unfoldable pub store_of : List (Bytes × Pool) → Options → Store
store_of [] opts r = record { keys = []; opts = opts }
store_of ((n, p) ∷ ps) opts zero = p
store_of ((n, p) ∷ ps) opts (suc r) = store_of ps opts r

-- s < t for strings.
unfoldable pub text_lt : Bytes → Bytes → Bool
text_lt [] [] = false
text_lt [] (b ∷ t) = true
text_lt (a ∷ s) [] = false
text_lt (a ∷ s) (b ∷ t) = if a == b then text_lt s t else ltb a b

-- The entries in the order of slices.Sort and sort.Strings on their names.
unfoldable pub insert_entry {ℓ} : {A : Type ℓ} → Bytes × A → List (Bytes × A) → List (Bytes × A)
unfolding text_lt
insert_entry e [] = e ∷ []
insert_entry e (f ∷ fs) = if text_lt f.0 e.0 then f ∷ insert_entry e fs else e ∷ f ∷ fs

unfoldable pub sort_entries {ℓ} : {A : Type ℓ} → List (Bytes × A) → List (Bytes × A)
unfolding insert_entry
sort_entries [] = []
sort_entries (e ∷ es) = insert_entry e (sort_entries es)

-- What the provider of a platform is made from.
abbrev pub provider_config : PlatformConfig → Provider.Config
provider_config p = record {
  typ = p.typ;
  auth = record { header = p.auth.header; prefix = p.auth.prefix };
  rate_limit = record {
    daily_limit_header = p.rate_limit.daily_limit_header;
    daily_remaining_header = p.rate_limit.daily_remaining_header;
    minute_limit_header = p.rate_limit.minute_limit_header;
    minute_remaining_header = p.rate_limit.minute_remaining_header;
  };
}

-- The upstream of a platform with its provider. Its time limit is part of what the network does.
unfoldable pub upstream_of : List (Bytes × Pool) → PlatformConfig → Provider → PlatformUpstream
unfolding reference credential_header
upstream_of pools p made = record {
  base_url = p.base_url;
  provider = some made;
  pool = reference p.credential_pool pools;
  pool_name = p.credential_pool;
  client_auth_header = credential_header made;
}

-- The error of buildProxy, with the platform's name.
pub data BuildError : Type 0 where
  provider_error : Bytes → ProviderError → BuildError

-- The second loop of buildProxy.
unfoldable pub build_platforms :
    List (Bytes × Pool)
    → List (Bytes × PlatformConfig)
    → Result BuildError (List (Bytes × PlatformUpstream))
unfolding Provider.new upstream_of
build_platforms pools [] = ok []
build_platforms pools ((name, p) ∷ ps) = elim (Provider.new (provider_config p)) [
  | err e ↦ err (provider_error name e)
  | ok made ↦ elim (build_platforms pools ps) [
    | err e ↦ err e
    | ok us ↦ ok ((name, upstream_of pools p made) ∷ us)
  ]
]

-- The handler with its pools.
pub record Built : Type 0 where
  pub handler : Handler
  pub pools : List (Bytes × Pool)
  pub store : Store

-- buildProxy. The sink is an interface that holds a pointer, so it is never nil.
unfoldable pub build_proxy : Config → Result BuildError Built
unfolding build_pools build_platforms sort_entries store_of pool_options new_handler with_event_sink
    Auth.new
build_proxy cfg =
    let opts = pool_options cfg.scheduler in
    let pools = build_pools opts cfg.credential_pools in
    elim (build_platforms pools (sort_entries cfg.platforms)) [
      | err e ↦ err e
      | ok platforms ↦ ok (record {
        handler = with_event_sink true (
            new_handler
              (record {
                platforms = platforms;
                workspaces = [];
                max_retries = cfg.scheduler.max_retries;
              })
              none (some (Auth.new cfg.client_auth.enabled cfg.client_auth.tokens)));
        pools = pools;
        store = store_of pools opts;
      })
    ]

-- Manager: the configuration in use and what was built from it.
pub record Manager : Type 0 where
  pub cfg : Config
  pub built : Built

pub data ManagerError : Type 0 where
  invalid : ConfigError → ManagerError
  not_built : BuildError → ManagerError
  not_saved : SaveError → ManagerError

-- New
unfoldable pub new_manager : Yaml → Config → Result BuildError Manager
unfolding build_proxy clone
new_manager yaml cfg = elim (build_proxy cfg) [
  | err e ↦ err e
  | ok built ↦ ok (record { cfg = clone yaml cfg; built = built })
]

-- ServeHTTP: through the proxy in use, whose pools are in the state `s`.
abbrev pub serve_http : Manager → World → ClientRequest → Store → Served
serve_http m w req s = serve m.built.handler w req s

-- ReplaceConfig, on the manager and the content of the file at its path.
unfoldable pub replace_config :
    Yaml → FileWrite → Config → Manager → Bytes → Manager × Bytes × Option ManagerError
unfolding validate build_proxy clone save
replace_config yaml write cfg m file = elim (validate (clone yaml cfg)) [
  | err e ↦ (m, file, some (invalid e))
  | ok next ↦ elim (build_proxy next) [
    | err e ↦ (m, file, some (not_built e))
    | ok built ↦
        let (file', saved) = save yaml write next file in
        elim saved [
          | some e ↦ (m, file', some (not_saved e))
          | none ↦ (record { cfg = clone yaml next; built = built }, file', none)
        ]
  ]
]
