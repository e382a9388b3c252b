-- ===== src/Provider/Quota.antt =====
-- The provider for API-Sports reads the quota of a response as the older keypool.ParseRateLimit.
use all2api.Prelude.{◌≡◌, refl, ap, ok, [], ◌∙◌, sym}
use all2api.Text.{bytes}
use all2api.Header.{Header}
use all2api.RateLimit
use all2api.Provider
use all2api.Provider.{Config, Provider, type_api_sports, api_sports_headers, parse_rate_limit}

parse_api_sports :
    (h : Header) → parse_rate_limit h api_sports_headers ≡ (RateLimit.parse_rate_limit h).0
unfolding parse_rate_limit RateLimit.parse_rate_limit
parse_api_sports h = refl

-- The provider that New makes for API-Sports, whatever else is configured.
abbrev pub api_sports_provider : Provider
api_sports_provider = record {
  typ = type_api_sports;
  auth = record { header = bytes "x-apisports-key"; prefix = [] };
  rate_limit = api_sports_headers;
}

pub new_api_sports :
    (cfg : Config) → cfg.typ ≡ type_api_sports → Provider.new cfg ≡ ok api_sports_provider
unfolding Provider.new
new_api_sports cfg e = rw e

-- A provider that New makes for the type api_sports reads the same quota from the headers of a
-- response as keypool.ParseRateLimit, whatever else is configured.
pub parse_rate_limit-new :
    (cfg : Config) (p : Provider) (h : Header)
    → cfg.typ ≡ type_api_sports
    → Provider.new cfg ≡ ok p
    → parse_rate_limit h p.rate_limit ≡ (RateLimit.parse_rate_limit h).0
parse_rate_limit-new cfg p h e made =
    let same : api_sports_provider ≡ p = cc (new_api_sports cfg e) in
    ap (λ (q : Provider). parse_rate_limit h q.rate_limit) (sym same) ∙ parse_api_sports h
