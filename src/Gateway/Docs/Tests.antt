-- ===== src/Gateway/Docs/Tests.antt =====
-- The documentation of a gateway with one platform, and a client that follows it.
use all2api.Prelude.{pos, ◌≢◌, ◌≡◌, ◌↔◌, refl, true, [], ◌∷◌, All, some, none, arith}
use all2api.Text.{Bytes, bytes, text_eq, trim_space}
use all2api.Header
use all2api.Header.{Header}
use all2api.Auth.{authorize, new_with_header}
use all2api.Auth.Whitelist.{Listed}
use all2api.Config.{PlatformConfig}
use all2api.Config.Samples.{legacy, accepted, validate-legacy}
use all2api.Gateway.{Built}
use all2api.Gateway.Route.{build_proxy-IsGateway}
use all2api.Gateway.Docs.{api_docs, auth_value_for_platform}
use all2api.Gateway.Docs.Routed.{IsServed, api_docs-IsServed}
use all2api.Gateway.Docs.Credential.{documented_token, authorize-documented}

abbrev running : Built
running = (build_proxy-IsGateway legacy accepted validate-legacy).0

-- The verb %q for a text without quotes and backslashes.
abbrev quoted : Bytes → Bytes
quoted s = b'"' ∷ s

api_docs-IsServed_example :
    All
      (IsServed legacy accepted running validate-legacy
        (build_proxy-IsGateway legacy accepted validate-legacy).1)
      (api_docs quoted accepted).platforms
api_docs-IsServed_example =
    api_docs-IsServed legacy accepted running validate-legacy
      (build_proxy-IsGateway legacy accepted validate-legacy).1 quoted

abbrev weather : PlatformConfig
weather = record {
  typ = bytes "generic_http";
  base_url = bytes "https://weather.example.com";
  timeout_seconds = pos 30;
  credential_pool = bytes "weather";
  auth = record { header = bytes "X-Api-Key"; prefix = bytes "Token" };
  rate_limit = record {
    daily_limit_header = [];
    daily_remaining_header = [];
    minute_limit_header = [];
    minute_remaining_header = [];
  };
}

abbrev sent : Header
sent = (bytes "X-Api-Key", bytes "Token abc" ∷ []) ∷ []

-- The documented value is refused although the key is a token of the whitelist.
refused_test :
    authorize (some (new_with_header true (bytes "abc" ∷ []) (bytes "X-Api-Key"))) sent ≢ none
unfolding authorize new_with_header trim_space text_eq Header.get
refused_test e = cc

authorize-documented_example :
    (authorize (some (new_with_header true (bytes "abc" ∷ []) (bytes "X-Api-Key"))) sent ≡ none)
    ↔ Listed (bytes "abc" ∷ []) (documented_token weather (bytes "X-Api-Key") (bytes "abc"))
unfolding trim_space text_eq Header.get auth_value_for_platform
authorize-documented_example =
    authorize-documented weather (bytes "X-Api-Key") (bytes "abc") (bytes "abc" ∷ []) sent (λ e. cc)
      (λ e. cc) refl (omega arith) (omega arith) refl refl
