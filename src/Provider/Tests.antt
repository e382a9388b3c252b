-- ===== src/Provider/Tests.antt =====
-- The two kinds of providers at work.
use all2api.Prelude.{◌≡◌, refl, [], ◌∷◌}
use all2api.Text.{bytes}
use all2api.Header.{Header}
use all2api.RateLimit
use all2api.Provider.{Config, parse_rate_limit, type_api_sports, api_sports_headers}
use all2api.Provider.Quota.{api_sports_provider, new_api_sports, parse_rate_limit-new}

abbrev api_sports : Config
api_sports = record {
  typ = type_api_sports;
  auth = record { header = []; prefix = [] };
  rate_limit = api_sports_headers;
}

abbrev reply_header : Header
reply_header =
    (bytes "X-Ratelimit-Requests-Limit", bytes "100" ∷ [])
    ∷ (bytes "X-Ratelimit-Requests-Remaining", bytes "7" ∷ [])
    ∷ []

parse_rate_limit-new_example :
    parse_rate_limit reply_header api_sports_headers ≡ (RateLimit.parse_rate_limit reply_header).0
parse_rate_limit-new_example =
    parse_rate_limit-new api_sports api_sports_provider reply_header refl
      (new_api_sports api_sports refl)
