-- ===== src/Gateway/Build.antt =====
-- buildProxy: each platform gets the pool that its configuration names.
use all2api.Prelude.{
  is_empty-of_ne, ℕ, suc, ◌≡◌, refl, ap, ◌∙◌, ◌⊎◌, inl, inr, some, List, [], ◌∷◌, map, All, arith,
  false, Bool-cases, Option-cases, is_empty, ok,
}
use all2api.Text.{Bytes, text_eq, trim_space}
use all2api.Table.{lookup, names}
use all2api.Keypool
use all2api.Keypool.{Options, Pool, new_key}
use all2api.Keypool.Identity.{identity}
use all2api.Provider
use all2api.Provider.{
  Provider, type_api_sports, type_generic_http, new_header_provider, credential_header,
}
use all2api.Provider.Quota.{api_sports_provider, new_api_sports}
use all2api.Config.{Config, PlatformConfig, KeyConfig, CredentialPoolConfig}
use all2api.Config.Usable.{IsUsablePlatform}
use all2api.Proxy.{PlatformUpstream}
use all2api.Gateway.{
  key_entry, build_pools, reference, store_of, insert_entry, sort_entries, provider_config, text_lt,
  upstream_of, build_platforms,
}

-- The labels and the secrets that a pool is configured with.
abbrev pub credentials : CredentialPoolConfig → List (Bytes × Bytes)
credentials p = map (λ (k : KeyConfig). (k.label, k.key)) p.keys

identity-new :
    (ks : List KeyConfig) (opts : Options)
    → identity (Keypool.new (map key_entry ks) opts) ≡ map (λ (k : KeyConfig). (k.label, k.key)) ks
unfolding Keypool.new new_key
identity-new [] opts = refl
identity-new (k ∷ ks) opts = ap (λ l. (k.label, k.key) ∷ l) (identity-new ks opts)

-- The pool behind a reference holds these keys.
abbrev pub Refers : Bytes → List (Bytes × Pool) → Options → CredentialPoolConfig → Type 0
Refers name pools opts p =
    (r : ℕ) × (reference name pools ≡ some r) × (identity (store_of pools opts r) ≡ credentials p)

pub build_pools-Refers :
    (opts : Options) (ps : List (Bytes × CredentialPoolConfig)) (name : Bytes)
    (p : CredentialPoolConfig)
    → lookup name ps ≡ some p
    → Refers name (build_pools opts ps) opts p
unfolding lookup build_pools reference store_of
build_pools-Refers opts [] name p h = cc
build_pools-Refers opts ((n, q) ∷ ps) name p h = elim (Bool-cases (text_eq n name)) [
  | inl hit ↦
      let same : q ≡ p = ground arith in (0, rw hit, identity-new q.keys opts ∙ ap credentials same)
  | inr miss ↦
      let (r, found, keys) = build_pools-Refers opts ps name p (ground arith) in
      (suc r, rw miss (rw (found, reference)), keys)
]

-- The provider of the generic type.
abbrev generic_provider : Provider.Config → Provider
generic_provider cfg = record {
  typ = type_generic_http;
  auth = record cfg.auth { header = trim_space cfg.auth.header };
  rate_limit = cfg.rate_limit;
}

new-generic :
    (cfg : Provider.Config)
    → cfg.typ ≡ type_generic_http
    → is_empty (trim_space cfg.auth.header) ≡ false
    → Provider.new cfg ≡ ok (generic_provider cfg)
unfolding Provider.new new_header_provider text_eq
new-generic cfg e h = rw e (rw h)

-- A platform that passed Validate has a provider.
new-provider_config :
    (pools : List (Bytes × CredentialPoolConfig)) (name : Bytes) (p : PlatformConfig)
    → IsUsablePlatform pools (name, p)
    → (made : Provider) × (Provider.new (provider_config p) ≡ ok made)
new-provider_config pools name p (_, inl api, _, _, _) =
    (api_sports_provider, new_api_sports (provider_config p) api)
new-provider_config pools name p (_, inr (generic, header), _, _, _) = (
  generic_provider (provider_config p),
  new-generic (provider_config p) generic (is_empty-of_ne (trim_space p.auth.header) header),
)

-- The entry is one of the list.
abbrev pub Has : {A : Type 0} → A → List A → Type 0
Has x [] = ⊥
Has x (y ∷ ys) = (y ≡ x) ⊎ Has x ys

build_platforms_nil : (pools : List (Bytes × Pool)) → build_platforms pools [] ≡ ok []
unfolding build_platforms
build_platforms_nil pools = refl

build_platforms_cons :
    (pools : List (Bytes × Pool)) (name : Bytes) (p : PlatformConfig)
    (es : List (Bytes × PlatformConfig)) (made : Provider) (us : List (Bytes × PlatformUpstream))
    → Provider.new (provider_config p) ≡ ok made
    → build_platforms pools es ≡ ok us
    → build_platforms pools ((name, p) ∷ es) ≡ ok ((name, upstream_of pools p made) ∷ us)
unfolding build_platforms
build_platforms_cons pools name p es made us h rest = rw (h, build_platforms) (rw rest)

module _ (c : Config) (pools : List (Bytes × Pool)) (opts : Options) where
  -- The upstream of this name is that of a platform of the configuration, with a provider and with
  -- the pool that the platform names.
  pub record IsBuilt (name : Bytes) (u : PlatformUpstream) : Type 0 where
    pub platform : PlatformConfig
    pub pool : CredentialPoolConfig
    pub made : Provider
    pub ref : ℕ
    pub has : Has (name, platform) c.platforms
    pub pool_of : lookup platform.credential_pool c.credential_pools ≡ some pool
    pub made_by : Provider.new (provider_config platform) ≡ ok made
    pub upstream : u ≡ upstream_of pools platform made
    pub refers : reference platform.credential_pool pools ≡ some ref
    pub holds : identity (store_of pools opts ref) ≡ credentials pool

  abbrev pub AllBuilt : List (Bytes × PlatformUpstream) → Type 0
  AllBuilt = All (λ e. IsBuilt e.0 e.1)

  abbrev pub IsSource : Bytes × PlatformConfig → Type 0
  IsSource e = Has e c.platforms × IsUsablePlatform c.credential_pools e

  insert_entry-All :
      (e : Bytes × PlatformConfig) (es : List (Bytes × PlatformConfig))
      → IsSource e
      → All IsSource es
      → All IsSource (insert_entry e es)
  unfolding insert_entry
  insert_entry-All e [] h hs = (h, tt)
  insert_entry-All e (f ∷ fs) h (g, gs) = elim (Bool-cases (text_lt f.0 e.0)) [
    | inl before ↦ rw before (g, insert_entry-All e fs h gs)
    | inr behind ↦ rw behind (h, (g, gs))
  ]

  pub sort_entries-All :
      (es : List (Bytes × PlatformConfig)) → All IsSource es → All IsSource (sort_entries es)
  unfolding sort_entries
  sort_entries-All [] h = tt
  sort_entries-All (e ∷ es) (h, hs) =
      insert_entry-All e (sort_entries es) h (sort_entries-All es hs)

  module _
      (refers : (name : Bytes) (p : CredentialPoolConfig)
        → lookup name c.credential_pools ≡ some p
        → Refers name pools opts p) where
    pub build_platforms-AllBuilt :
        (es : List (Bytes × PlatformConfig))
        → All IsSource es
        → (us : List (Bytes × PlatformUpstream)) × (build_platforms pools es ≡ ok us)
          × AllBuilt us
          × (names us ≡ names es)
    build_platforms-AllBuilt [] h = ([], build_platforms_nil pools, tt, refl)
    build_platforms-AllBuilt ((name, p) ∷ es) ((has, usable), hs) =
        let (made, made_by) = new-provider_config c.credential_pools name p usable in
        let (us, rest, all, same) = build_platforms-AllBuilt es hs in
        elim (Option-cases (lookup p.credential_pool c.credential_pools)) [
          | inl missing ↦ absurd (usable.4 missing)
          | inr (pool, pool_of) ↦
              let (ref, found, holds) = refers p.credential_pool pool pool_of in
              (
                (name, upstream_of pools p made) ∷ us,
                build_platforms_cons pools name p es made us made_by rest,
                (
                  record {
                    platform = p;
                    pool = pool;
                    made = made;
                    ref = ref;
                    has = has;
                    pool_of = pool_of;
                    made_by = made_by;
                    upstream = refl;
                    refers = found;
                    holds = holds;
                  },
                  all,
                ),
                ap (λ ns. name ∷ ns) same,
              )
        ]
