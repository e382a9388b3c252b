-- ===== src/Gateway/Docs/Routed.antt =====
-- APIDocs: the paths that are documented are those that the proxy routes.
use all2api.Prelude.{
  ◌≡◌, ◌≢◌, refl, sym, ap, ◌∙◌, inl, inr, none, List, [], ◌∷◌, ◌++◌, map, All, All-mono, ok,
  Bool-cases, is_empty-of_ne, arith,
}
use all2api.Text.{Bytes, bytes, text_eq}
use all2api.Text.Equality.{text_eq_refl}
use all2api.Table.{map_values, lookup, names, names-map_values, lookup-of_names}
use all2api.Provider.{type_api_sports}
use all2api.Config.{Config, PlatformConfig}
use all2api.Config.Validate.{validate}
use all2api.Config.Usable.{IsUsable}
use all2api.Config.Accepted.{validate-IsUsable}
use all2api.Proxy.{split_platform, new_runtime, normalize_platform}
use all2api.Proxy.Path.{IsNamespace, split_platform-join}
use all2api.Gateway.{Built, build_proxy, sort_entries}
use all2api.Gateway.Build.{
  Has, IsSource, sort_entries-All, build_platforms-AllBuilt, build_pools-Refers,
}
use all2api.Gateway.Route.{opts, pools, handler_of, platforms-handler_of, build_proxy_lem, All-Has}
use all2api.Gateway.Docs.{platform_doc, doc_endpoints_for_platform, api_docs, contains}
use all2api.Gateway.Docs.Types.{DocEndpoint, PlatformDoc}
use all2api.Gateway.Docs.Football.{football_doc_endpoints}
use all2api.Gateway.Docs.Basketball.{basketball_doc_endpoints}
use all2api.Gateway.Docs.Generic.{generic_doc_endpoints}

-- The endpoint's path is the prefix and a path behind a slash.
abbrev IsUnder : Bytes → DocEndpoint → Type 0
IsUnder prefix e = (r : Bytes) × (e.path ≡ prefix ++ b'/' ∷ r)

football-IsUnder : (prefix : Bytes) → All (IsUnder prefix) (football_doc_endpoints prefix)
unfolding football_doc_endpoints
football-IsUnder prefix = (
  (bytes "status", refl),
  (
    (bytes "countries", refl),
    (
      (bytes "leagues", refl),
      (
        (bytes "teams", refl),
        (
          (bytes "fixtures", refl),
          ((bytes "standings", refl), ((bytes "players", refl), ((bytes "odds", refl), tt))),
        ),
      ),
    ),
  ),
)

basketball-IsUnder : (prefix : Bytes) → All (IsUnder prefix) (basketball_doc_endpoints prefix)
unfolding basketball_doc_endpoints
basketball-IsUnder prefix = (
  (bytes "status", refl),
  (
    (bytes "countries", refl),
    (
      (bytes "leagues", refl),
      (
        (bytes "teams", refl),
        ((bytes "games", refl), ((bytes "standings", refl), ((bytes "players", refl), tt))),
      ),
    ),
  ),
)

generic-IsUnder : (prefix : Bytes) → All (IsUnder prefix) (generic_doc_endpoints prefix)
unfolding generic_doc_endpoints
generic-IsUnder prefix = ((bytes "<path>", refl), ((bytes "<path>", refl), tt))

doc_endpoints-IsUnder :
    (name : Bytes) (p : PlatformConfig)
    → name ≢ []
    → All (IsUnder (bytes "/" ++ name)) (doc_endpoints_for_platform name p)
unfolding doc_endpoints_for_platform
doc_endpoints-IsUnder name p ne =
    rw (is_empty-of_ne name ne) (elim (Bool-cases (text_eq p.typ type_api_sports)) [
      | inr generic ↦ rw generic (generic-IsUnder (bytes "/" ++ name))
      | inl api ↦ rw api (elim (Bool-cases (contains p.base_url (bytes "basketball"))) [
        | inl basketball ↦ rw basketball (basketball-IsUnder (bytes "/" ++ name))
        | inr football ↦ rw football (football-IsUnder (bytes "/" ++ name))
      ])
    ])

lookup-Has :
    (name : Bytes) (p : PlatformConfig) (m : List (Bytes × PlatformConfig))
    → Has (name, p) m
    → lookup name m ≢ none
unfolding lookup
lookup-Has name p [] h e = elim h [ ]
lookup-Has name p ((n, q) ∷ m) (inl same) e =
    let head : n ≡ name = ap (λ (x : Bytes × PlatformConfig). x.0) same in
    cc (rw (head, text_eq_refl name) at e)
lookup-Has name p ((n, q) ∷ m) (inr later) e = elim (Bool-cases (text_eq n name)) [
  | inl hit ↦ cc (rw hit at e)
  | inr miss ↦ lookup-Has name p m later (rw miss at e)
]

module _ (c c' : Config) (b : Built) (valid : validate c ≡ ok c')
    (built : build_proxy c' ≡ ok b) where
  usable : IsUsable c'
  usable = validate-IsUsable c c' valid

  sources : All (IsSource c' (pools c') (opts c')) (sort_entries c'.platforms)
  sources =
      sort_entries-All c' (pools c') (opts c') c'.platforms
        (All-Has c' c'.platforms c'.platforms (λ e h. h) usable.platforms)

  names-platforms : names b.handler.platforms ≡ names (sort_entries c'.platforms)
  names-platforms =
      let (us, made, _, same) =
        build_platforms-AllBuilt c' (pools c') (opts c')
          (build_pools-Refers (opts c') c'.credential_pools) (sort_entries c'.platforms) sources in
      let e = sym (build_proxy_lem c' us made) ∙ built in
      let handler : handler_of c' us ≡ b.handler = ground arith in
      rw (← handler, platforms-handler_of c' us)
        (names-map_values new_runtime (map_values (normalize_platform none) us)
          ∙ names-map_values (normalize_platform none) us
          ∙ same)

  -- The proxy routes the path of the endpoint to the platform, and leaves the rest of it.
  abbrev IsRouted : PlatformDoc → DocEndpoint → Type 0
  IsRouted d e =
      (rest : Bytes) × (e.path ≡ d.gateway_base_path ++ b'/' ∷ rest)
      × (split_platform e.path ≡ (d.name, b'/' ∷ rest))

  -- The platform is one of the proxy's, and all its endpoints are routed to it.
  abbrev pub IsServed : PlatformDoc → Type 0
  IsServed d = (lookup d.name b.handler.platforms ≢ none) × All (IsRouted d) d.endpoints

  IsUnder-IsRouted :
      (quoted : Bytes → Bytes) (name : Bytes) (p : PlatformConfig)
      → IsNamespace name
      → (e : DocEndpoint) → IsUnder (bytes "/" ++ name) e
      → IsRouted (platform_doc quoted (name, p)) e
  unfolding platform_doc
  IsUnder-IsRouted quoted name p namespace e (r, path) =
      (r, path, rw path ((split_platform-join name r namespace).0))

  platform_doc-IsServed :
      (quoted : Bytes → Bytes) (name : Bytes) (p : PlatformConfig)
      → IsNamespace name
      → lookup name b.handler.platforms ≢ none
      → IsServed (platform_doc quoted (name, p))
  unfolding platform_doc
  platform_doc-IsServed quoted name p namespace there = (
    there,
    All-mono _ _ (IsUnder-IsRouted quoted name p namespace) (doc_endpoints_for_platform name p)
        (doc_endpoints-IsUnder name p namespace.0),
  )

  All-with_Has :
      (es fs : List (Bytes × PlatformConfig))
      → ((e : Bytes × PlatformConfig) → Has e es → Has e fs)
      → ((name : Bytes) (p : PlatformConfig)
          → Has (name, p) fs
          → lookup name b.handler.platforms ≢ none)
      → All (IsSource c' (pools c') (opts c')) es
      → All (λ e. IsSource c' (pools c') (opts c') e × (lookup e.0 b.handler.platforms ≢ none)) es
  All-with_Has [] fs inside there h = tt
  All-with_Has ((name, p) ∷ es) fs inside there (u, h) = (
    (u, there name p (inside (name, p) (inl refl))),
    All-with_Has es fs (λ f q. inside f (inr q)) there h,
  )

  docs-IsServed :
      (quoted : Bytes → Bytes) (es : List (Bytes × PlatformConfig))
      → All (λ e. IsSource c' (pools c') (opts c') e × (lookup e.0 b.handler.platforms ≢ none)) es
      → All IsServed (map (platform_doc quoted) es)
  docs-IsServed quoted [] h = tt
  docs-IsServed quoted ((name, p) ∷ es) ((source, there), h) =
      (platform_doc-IsServed quoted name p source.1.0 there, docs-IsServed quoted es h)

  platform-there :
      (name : Bytes) (p : PlatformConfig)
      → Has (name, p) (sort_entries c'.platforms)
      → lookup name b.handler.platforms ≢ none
  platform-there name p h e =
      lookup-Has name p (sort_entries c'.platforms) h (
        lookup-of_names name (sort_entries c'.platforms) b.handler.platforms (sym names-platforms)
          e)

  -- Each platform that APIDocs describes is one of the proxy's, and the path of each of its endpoints
  -- is its base path with a rest behind a slash, which the proxy routes to this platform and
  -- forwards: if the configuration passed Validate, and the proxy is built from it.
  pub api_docs-IsServed : (quoted : Bytes → Bytes) → All IsServed (api_docs quoted c').platforms
  unfolding api_docs
  api_docs-IsServed quoted = docs-IsServed quoted (sort_entries c'.platforms) (
      All-with_Has (sort_entries c'.platforms) (sort_entries c'.platforms) (λ e h. h) platform-there
        sources)
