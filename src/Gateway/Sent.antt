-- ===== src/Gateway/Sent.antt =====
-- The whole gateway: what a request makes it send, in terms of its configuration.
use all2api.Prelude.{
  ℕ, ◌≡◌, sym, ap, ◌∙◌, inl, inr, some, List, [], ◌∷◌, All, All-mono, arith, Bool-cases, ok,
}
use all2api.Text.{Bytes, text_eq, trim_right_byte}
use all2api.Text.Equality.{text_eq_iff}
use all2api.Table.{lookup}
use all2api.Keypool.Identity.{identity}
use all2api.Provider
use all2api.Provider.{Provider, credential_header}
use all2api.Config.{Config, PlatformConfig, CredentialPoolConfig}
use all2api.Config.Validate.{validate}
use all2api.Proxy.{Upstream, PlatformRuntime, split_platform}
use all2api.Proxy.Transport.{UpstreamRequest, upstream_request}
use all2api.Proxy.Exchange.{ClientRequest, Store, World}
use all2api.Proxy.Serve.{serve, forwarded}
use all2api.Proxy.Sent.{IsKeyOf, IsAuthorized, serve-IsAuthorized}
use all2api.Proxy.Pools.{SameKeys}
use all2api.Gateway.{Built, build_proxy, provider_config}
use all2api.Gateway.Build.{Has, credentials}
use all2api.Gateway.Admitted.{IsAdmitted, authorize_request-IsAdmitted}
use all2api.Gateway.Route.{IsRoute, IsGateway, build_proxy-IsGateway}

-- The request goes to a platform of the configuration under the namespace of the path, with a key of
-- the credential pool that the platform names, for a client that the configuration admits there.
abbrev pub IsConfigured : Config → ClientRequest → UpstreamRequest → Type 0
IsConfigured c req out =
    (p : PlatformConfig) × (pool : CredentialPoolConfig) × (made : Provider) × (key : Bytes) × Has
      ((split_platform req.path).0, p) c.platforms
    × (lookup p.credential_pool c.credential_pools ≡ some pool)
    × (Provider.new (provider_config p) ≡ ok made)
    × IsAdmitted c (credential_header made) req.header
    × IsKeyOf key (credentials pool)
    × (out
        ≡ upstream_request (record { base_url = trim_right_byte b'/' p.base_url; provider = made })
            (forwarded req (split_platform req.path).1) key)

lookup-All :
    (P : Bytes → PlatformRuntime → Type 0) (name : Bytes) (m : List (Bytes × PlatformRuntime))
    (rt : PlatformRuntime)
    → lookup name m ≡ some rt
    → All (λ e. P e.0 e.1) m
    → P name rt
unfolding lookup
lookup-All P name [] rt h all = cc
lookup-All P name ((n, a) ∷ m) rt h (p, all) = elim (Bool-cases (text_eq n name)) [
  | inl hit ↦
      let same : n ≡ name = (text_eq_iff n name).0 hit in
      let found : a ≡ rt = ground arith in rw (← same, ← found) p
  | inr miss ↦ lookup-All P name m rt (ground arith) all
]

IsConfigured-of_route :
    (c : Config) (s0 s : Store) (req : ClientRequest) (out : UpstreamRequest) (rt : PlatformRuntime)
    (ref : ℕ) (key : Bytes)
    → IsRoute c s0 (split_platform req.path).0 rt
    → SameKeys s0 s
    → IsAdmitted c rt.client_auth_header req.header
    → rt.pool ≡ some ref
    → IsKeyOf key (identity (s ref))
    → out ≡ upstream_request rt.transport (forwarded req (split_platform req.path).1) key
    → IsConfigured c req out
IsConfigured-of_route c s0 s req out rt ref key route same admitted pool is_key e =
    let at : route.ref ≡ ref = cc in
    let holds : identity (s ref) ≡ credentials route.pool =
      same ref ∙ ap (λ r. identity (s0 r)) (sym at) ∙ route.holds in
    let transport : rt.transport ≡ record {
      base_url = trim_right_byte b'/' route.platform.base_url;
      provider = rt.transport.provider;
    } =
      ap {B = Upstream} (λ u. record { base_url = u; provider = rt.transport.provider })
        route.base_url in
    (
      route.platform,
      route.pool,
      rt.transport.provider,
      key,
      route.has,
      route.pool_of,
      route.made_by,
      rw (← route.reads) admitted,
      rw (← holds) is_key,
      e ∙ ap (λ t. upstream_request t (forwarded req (split_platform req.path).1) key) transport,
    )

-- Whatever a gateway with a configuration that passed Validate sends upstream, in whatever state its
-- keys are: it goes to a platform of the configuration that has the name in the request's path, to
-- its base URL with the rest of the path, and with a key of the credential pool that it names; and the
-- authentication of clients is off, or the client's token, read from the header of the platform's
-- credential, is one of the configuration's.
pub serve-IsConfigured :
    (c c' : Config) (b : Built) (w : World) (req : ClientRequest) (s : Store)
    → validate c ≡ ok c'
    → build_proxy c' ≡ ok b
    → SameKeys b.store s
    → All (IsConfigured c' req) (serve b.handler w req s).sent
serve-IsConfigured c c' b w req s valid built same =
    let (b', built', routes') = build_proxy-IsGateway c c' valid in
    let one : b' ≡ b = cc in
    let routes : IsGateway c' b = rw (← one) routes' in
    All-mono (IsAuthorized b.handler req s) (IsConfigured c' req)
      (λ out (rt, ref, key, found, allowed, pool, is_key, e).
        IsConfigured-of_route c' b.store s req out rt ref key
          (lookup-All (IsRoute c' b.store) (split_platform req.path).0 b.handler.platforms rt found
            routes)
          same (authorize_request-IsAdmitted c' b rt req.header built allowed) pool is_key e)
      (serve b.handler w req s).sent (serve-IsAuthorized b.handler w req s)
