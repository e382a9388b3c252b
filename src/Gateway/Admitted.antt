-- ===== src/Gateway/Admitted.antt =====
-- Which clients a gateway admits, in terms of its configuration.
use all2api.Prelude.{
  ◌≡◌, ◌≢◌, sym, ◌∙◌, ◌⊎◌, inl, inr, none, some, false, [], arith, ok, Result-cases,
}
use all2api.Text.{Bytes}
use all2api.Header.{Header}
use all2api.Auth
use all2api.Auth.{Authenticator, AuthError, is_enabled, tokens_of, new_with_header, authorize}
use all2api.Auth.Whitelist.{is_empty_cases, Listed, read_token, authorize-eq-none_iff}
use all2api.Auth.Rewrap.{authorize-tokens_of}
use all2api.Config.{Config}
use all2api.Proxy.{Handler, PlatformRuntime, with_event_sink, new_handler}
use all2api.Proxy.Exchange.{authorize_request}
use all2api.Gateway.{Built, build_proxy, build_platforms, build_pools, pool_options, sort_entries}

-- The authentication is off, or the token that is read from the header is one of the configured ones.
abbrev pub IsAdmitted : Config → Bytes → Header → Type 0
IsAdmitted c header h =
    (c.client_auth.enabled ≡ false)
    ⊎ ((read_token c.client_auth.enabled c.client_auth.tokens header h ≢ [])
        × Listed c.client_auth.tokens
            (read_token c.client_auth.enabled c.client_auth.tokens header h))

abbrev configured : Config → Authenticator
configured c = Auth.new c.client_auth.enabled c.client_auth.tokens

pub auth-build_proxy :
    (c : Config) (b : Built) → build_proxy c ≡ ok b → b.handler.auth ≡ some (configured c)
unfolding build_proxy with_event_sink new_handler
auth-build_proxy c b h =
    elim (Result-cases (
      build_platforms (build_pools (pool_options c.scheduler) c.credential_pools)
        (sort_entries c.platforms))) [
          | inl (us, e) ↦ ground arith
          | inr (x, e) ↦ absurd (ground arith)
        ]

-- The authenticator of a platform without a header of its own is the gateway's.
authorize_request-configured :
    (c : Config) (h : Handler) (rt : PlatformRuntime) (header : Header)
    → h.auth ≡ some (configured c)
    → authorize_request h rt header
      ≡ authorize
          (some (new_with_header c.client_auth.enabled c.client_auth.tokens rt.client_auth_header))
          header
unfolding authorize_request Auth.new is_enabled
authorize_request-configured c h rt header e = elim (is_empty_cases rt.client_auth_header) [
  | inl none_there ↦ rw (e, authorize_request) (rw none_there (rw e))
  | inr (some_there, _) ↦
      rw (e, authorize_request)
        (rw some_there (
          rw e (
            authorize-tokens_of c.client_auth.enabled c.client_auth.enabled c.client_auth.tokens
              rt.client_auth_header header)))
]

-- A client that the proxy lets through is admitted by the header that its platform reads.
pub authorize_request-IsAdmitted :
    (c : Config) (b : Built) (rt : PlatformRuntime) (header : Header)
    → build_proxy c ≡ ok b
    → authorize_request b.handler rt header ≡ none
    → IsAdmitted c rt.client_auth_header header
authorize_request-IsAdmitted c b rt header built allowed =
    let same = authorize_request-configured c b.handler rt header (auth-build_proxy c b built) in
    (authorize-eq-none_iff c.client_auth.enabled c.client_auth.tokens rt.client_auth_header
        header).0
      (sym same ∙ allowed)
