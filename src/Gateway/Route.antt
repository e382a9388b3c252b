-- ===== src/Gateway/Route.antt =====
-- A gateway that is built from a valid configuration: it can be built, and it sends to each platform
-- only keys that the configuration gives to that platform.
use all2api.Prelude.{ℕ, ◌≡◌, refl, inl, inr, none, some, List, [], ◌∷◌, All, true, arith, ok}
use all2api.Text.{Bytes, trim_right_byte}
use all2api.Table.{lookup, map_values}
use all2api.Keypool.{Options, Pool}
use all2api.Keypool.Identity.{identity}
use all2api.Auth
use all2api.Provider
use all2api.Provider.{Provider, credential_header}
use all2api.Config.{Config, PlatformConfig, CredentialPoolConfig}
use all2api.Config.Validate.{validate}
use all2api.Config.Usable.{IsUsable, IsUsablePlatform}
use all2api.Config.Accepted.{validate-IsUsable}
use all2api.Proxy.{
  Handler, PlatformUpstream, PlatformRuntime, new_runtime, normalize_platform, normalize_platforms,
  new_handler, with_event_sink, new_transport,
}
use all2api.Proxy.Exchange.{Store}
use all2api.Gateway.{
  Built, build_pools, build_platforms, build_proxy, pool_options, provider_config, sort_entries,
  store_of, upstream_of,
}
use all2api.Gateway.Build.{
  Has, IsBuilt, AllBuilt, credentials, build_pools-Refers, sort_entries-All,
  build_platforms-AllBuilt,
}

-- The runtime of this name is that of a platform of the configuration, with its base URL, with a
-- provider that is made from it and with the keys of the pool that it names.
pub record IsRoute (c : Config) (s : Store) (name : Bytes) (rt : PlatformRuntime) : Type 0 where
  pub platform : PlatformConfig
  pub pool : CredentialPoolConfig
  pub ref : ℕ
  pub has : Has (name, platform) c.platforms
  pub pool_of : lookup platform.credential_pool c.credential_pools ≡ some pool
  pub base_url : rt.transport.base_url ≡ trim_right_byte b'/' platform.base_url
  pub made_by : Provider.new (provider_config platform) ≡ ok rt.transport.provider
  pub reads : rt.client_auth_header ≡ credential_header rt.transport.provider
  pub refers : rt.pool ≡ some ref
  pub holds : identity (s ref) ≡ credentials pool

module _ (c : Config) where
  abbrev pub opts : Options
  opts = pool_options c.scheduler

  abbrev pub pools : List (Bytes × Pool)
  pools = build_pools opts c.credential_pools

  upstream-IsRoute :
      (name : Bytes) (u : PlatformUpstream)
      → IsBuilt c pools opts name u
      → IsRoute c (store_of pools opts) name (new_runtime (normalize_platform none u))
  unfolding new_runtime normalize_platform upstream_of new_transport
  upstream-IsRoute name u b = rw b.upstream (record {
    platform = b.platform;
    pool = b.pool;
    ref = b.ref;
    has = b.has;
    pool_of = b.pool_of;
    base_url = refl;
    made_by = b.made_by;
    reads = ground arith;
    refers = rw b.refers;
    holds = b.holds;
  })

  AllRoutes : List (Bytes × PlatformUpstream) → Type 0
  AllRoutes us =
      All (λ e. IsRoute c (store_of pools opts) e.0 e.1)
        (map_values new_runtime (map_values (normalize_platform none) us))

  AllBuilt-AllRoutes :
      (us : List (Bytes × PlatformUpstream)) → AllBuilt c pools opts us → AllRoutes us
  unfolding map_values AllRoutes
  AllBuilt-AllRoutes [] h = tt
  AllBuilt-AllRoutes ((name, u) ∷ us) (b, h) = (upstream-IsRoute name u b, AllBuilt-AllRoutes us h)

  -- The handler that buildProxy makes from the upstreams.
  abbrev pub handler_of : List (Bytes × PlatformUpstream) → Handler
  handler_of us = with_event_sink true (
      new_handler
        (record { platforms = us; workspaces = []; max_retries = c.scheduler.max_retries }) none
        (some (Auth.new c.client_auth.enabled c.client_auth.tokens)))

  pub platforms-handler_of :
      (us : List (Bytes × PlatformUpstream))
      → (handler_of us).platforms ≡ map_values new_runtime (map_values (normalize_platform none) us)
  unfolding new_handler with_event_sink normalize_platforms map_values
  platforms-handler_of [] = refl
  platforms-handler_of (u ∷ us) = refl

  pub build_proxy_lem :
      (us : List (Bytes × PlatformUpstream))
      → build_platforms pools (sort_entries c.platforms) ≡ ok us
      → build_proxy c
        ≡ ok (record { handler = handler_of us; pools = pools; store = store_of pools opts })
  unfolding build_proxy
  build_proxy_lem us h = rw (h, build_proxy)

  pub All-Has :
      (es fs : List (Bytes × PlatformConfig))
      → ((e : Bytes × PlatformConfig) → Has e es → Has e fs)
      → All (IsUsablePlatform c.credential_pools) es
      → All (λ e. Has e fs × IsUsablePlatform c.credential_pools e) es
  All-Has [] fs inside h = tt
  All-Has (e ∷ es) fs inside (u, h) =
      ((inside e (inl refl), u), All-Has es fs (λ f p. inside f (inr p)) h)

  abbrev pub IsGateway : Built → Type 0
  IsGateway b = All (λ e. IsRoute c b.store e.0 e.1) b.handler.platforms

  IsUsable-build_proxy : IsUsable c → (b : Built) × (build_proxy c ≡ ok b) × IsGateway b
  unfolding AllRoutes
  IsUsable-build_proxy v =
      let (us, made, all, _) =
        build_platforms-AllBuilt c pools opts (build_pools-Refers opts c.credential_pools)
          (sort_entries c.platforms)
          (sort_entries-All c pools opts c.platforms
            (All-Has c.platforms c.platforms (λ e h. h) v.platforms)) in
      (
        record { handler = handler_of us; pools = pools; store = store_of pools opts },
        build_proxy_lem us made,
        rw (platforms-handler_of us) (AllBuilt-AllRoutes us all),
      )

-- From a configuration that passed Validate a proxy can be built, and each of its platforms is one
-- of the configuration's under the same name, with its base URL, with a provider made from it and
-- with a pool, which holds just the keys of the credential pool that it names.
pub build_proxy-IsGateway :
    (c c' : Config) → validate c ≡ ok c' → (b : Built) × (build_proxy c' ≡ ok b) × IsGateway c' b
build_proxy-IsGateway c c' h = IsUsable-build_proxy c' (validate-IsUsable c c' h)
