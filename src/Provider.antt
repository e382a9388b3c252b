-- ===== src/Provider.antt =====
-- internal/provider/provider.go: what differs between the upstream platforms. The one type that
-- implements the interface Provider is headerProvider, and a model of it stands for both.
pub mod Status
pub mod Inject
pub mod Quota
mod Tests
use all2api.Prelude.{
  ℕ, Bool, false, ◌&&◌, ◌||◌, Option, none, [], ◌∷◌, ◌++◌, leb, ltb, ◌==◌, if◌then◌else◌, ℤ, pos,
  get_or, is_some, is_empty, Result, ok, err,
}
use all2api.Text.{Bytes, bytes, text_eq, trim_space, atoi}
use all2api.Header
use all2api.Header.{Header, canonical}
use all2api.RateLimit.{RateLimitSnapshot}

abbrev pub type_api_sports : Bytes
type_api_sports = bytes "api_sports"

abbrev pub type_generic_http : Bytes
type_generic_http = bytes "generic_http"

pub data Outcome : Type 0 where
  success rate_limited key_invalid server_error client_error : Outcome

pub record HeaderAuthConfig : Type 0 where
  pub header : Bytes
  pub prefix : Bytes

pub record RateLimitConfig : Type 0 where
  pub daily_limit_header : Bytes
  pub daily_remaining_header : Bytes
  pub minute_limit_header : Bytes
  pub minute_remaining_header : Bytes

pub record Config : Type 0 where
  pub typ : Bytes
  pub auth : HeaderAuthConfig
  pub rate_limit : RateLimitConfig

-- headerProvider
pub record Provider : Type 0 where
  pub typ : Bytes
  pub auth : HeaderAuthConfig
  pub rate_limit : RateLimitConfig

-- The errors of New, with the type that they name.
pub data ProviderError : Type 0 where
  unknown_type : Bytes → ProviderError
  requires_auth_header : Bytes → ProviderError

-- newHeaderProvider
unfoldable pub new_header_provider :
    Bytes → HeaderAuthConfig → RateLimitConfig → Result ProviderError Provider
unfolding trim_space
new_header_provider typ auth rate_limit =
    let header = trim_space auth.header in
    if is_empty header
    then err (requires_auth_header typ)
    else ok (record { typ = typ; auth = record auth { header = header }; rate_limit = rate_limit })

abbrev pub api_sports_headers : RateLimitConfig
api_sports_headers = record {
  daily_limit_header = bytes "x-ratelimit-requests-limit";
  daily_remaining_header = bytes "x-ratelimit-requests-remaining";
  minute_limit_header = bytes "X-RateLimit-Limit";
  minute_remaining_header = bytes "X-RateLimit-Remaining";
}

-- New
unfoldable pub new : Config → Result ProviderError Provider
unfolding new_header_provider text_eq
new cfg =
    if text_eq cfg.typ type_api_sports
    then new_header_provider type_api_sports
        (record { header = bytes "x-apisports-key"; prefix = [] }) api_sports_headers
    else if text_eq cfg.typ type_generic_http
    then new_header_provider type_generic_http cfg.auth cfg.rate_limit
    else err (unknown_type cfg.typ)

-- CredentialHeader
unfoldable pub credential_header : Provider → Bytes
unfolding canonical
credential_header p = canonical p.auth.header

-- withPrefix
unfoldable pub with_prefix : Bytes → Bytes → Bytes
unfolding trim_space
with_prefix prefix credential =
    let trimmed = trim_space prefix in
    if is_empty trimmed then credential else trimmed ++ bytes " " ++ credential

-- InjectCredential
unfoldable pub inject_credential : Provider → Header → Bytes → Header
unfolding credential_header with_prefix Header.set
inject_credential p h credential =
    Header.set h (credential_header p) (with_prefix p.auth.prefix credential)

-- ClassifyStatus
unfoldable pub classify_status : ℕ → Outcome
classify_status status =
    if leb 200 status && ltb status 300
    then success
    else if status == 429
    then rate_limited
    else if status == 401 || status == 403
    then key_invalid
    else if leb 500 status
    then server_error
    else client_error

-- atoiConfiguredHeader; `none` is (0, false).
unfoldable pub atoi_configured_header : Header → Bytes → Option ℤ
unfolding trim_space Header.get atoi
atoi_configured_header h name =
    let trimmed = trim_space name in
    if is_empty trimmed
    then none
    else elim (Header.get h trimmed) [ [] ↦ none | b ∷ v ↦ atoi (b ∷ v) ]

-- parseRateLimit, and the method ParseRateLimit, which calls it with the provider's headers.
unfoldable pub parse_rate_limit : Header → RateLimitConfig → RateLimitSnapshot
unfolding atoi_configured_header
parse_rate_limit h cfg =
    let dl = atoi_configured_header h cfg.daily_limit_header in
    let dr = atoi_configured_header h cfg.daily_remaining_header in
    let ml = atoi_configured_header h cfg.minute_limit_header in
    let mr = atoi_configured_header h cfg.minute_remaining_header in
    record {
      daily_limit = get_or dl (pos 0);
      daily_remaining = get_or dr (pos 0);
      minute_limit = get_or ml (pos 0);
      minute_remaining = get_or mr (pos 0);
      has_daily = is_some dl && is_some dr;
      has_minute = is_some ml && is_some mr;
    }
