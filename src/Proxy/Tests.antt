-- ===== src/Proxy/Tests.antt =====
-- The theorems on ServeHTTP at a request whose first attempt meets a rate limit.
use all2api.Prelude.{◌≡◌, ◌≤◌, refl, ◌∷◌, [], none, All, length, arith}
use all2api.Text.{bytes, text_eq}
use all2api.Clock.{add_duration}
use all2api.Header.{values, canonical}
use all2api.RateLimit.{empty_snapshot}
use all2api.Keypool.{Handle}
use all2api.Keypool.Identity.{identity}
use all2api.Provider.{success, rate_limited, credential_header}
use all2api.Proxy.{split_platform}
use all2api.Proxy.Transport.{UpstreamResult, upstream_request, mem_name}
use all2api.Proxy.Exchange.{write_upstream_response}
use all2api.Proxy.Serve.{serve, forwarded, react, attempt}
use all2api.Proxy.Failover.{IsQuiet, Avoids}
use all2api.Proxy.Switch.{LimitedUntil, react-rate_limited}
use all2api.Proxy.Path.{IsSplit, split_platform-IsSplit}
use all2api.Proxy.Pools.{identity-serve}
use all2api.Proxy.Answer.{IsHonest, IsLogged, serve-IsHonest, serve-IsLogged}
use all2api.Proxy.Copy.{values-upstream_request, values-write_upstream_response}
use all2api.Proxy.Sent.{IsAuthorized, serve-IsAuthorized}
use all2api.Proxy.Retries.{serve-IsBounded}
use all2api.Proxy.Samples.{
  key_of, store, upstream, runtime, handler, request, world, calm, distinct,
}

-- The second key is used for the second attempt.
sent_test :
    (serve handler world request store).sent
    ≡ upstream_request upstream (forwarded request (bytes "/fixtures")) (bytes "secret-0001")
      ∷ upstream_request upstream (forwarded request (bytes "/fixtures")) (bytes "secret-0002")
      ∷ []
unfolding serve text_eq add_duration
sent_test = refl

serve-IsAuthorized_example :
    All (IsAuthorized handler request store) (serve handler world request store).sent
serve-IsAuthorized_example = serve-IsAuthorized handler world request store

serve-IsHonest_example : IsHonest (serve handler world request store).response
serve-IsHonest_example = serve-IsHonest handler world request store

serve-IsLogged_example : IsLogged request (serve handler world request store)
serve-IsLogged_example = serve-IsLogged handler world request store refl

serve-IsBounded_example : length (serve handler world request store).sent ≤ 3
serve-IsBounded_example = serve-IsBounded handler world request store

identity-serve_example : identity ((serve handler world request store).store 0) ≡ identity (store 0)
identity-serve_example = identity-serve handler world request store 0

values-upstream_request_example :
    values
      (upstream_request upstream
        (forwarded request (bytes "/fixtures"))
        (bytes "secret-0001")).header
      (bytes "Accept")
    ≡ bytes "application/json" ∷ []
unfolding credential_header mem_name text_eq
values-upstream_request_example =
    values-upstream_request upstream (forwarded request (bytes "/fixtures")) (bytes "secret-0001")
      (bytes "Accept")

abbrev passed : UpstreamResult
passed = record {
  kind = success;
  status_code = 200;
  header = (bytes "Connection", bytes "close" ∷ []) ∷ (bytes "Etag", bytes "7" ∷ []) ∷ [];
  body = bytes "[]";
  snapshot = empty_snapshot;
  error = none;
}

values-write_upstream_response_example :
    values (write_upstream_response passed).header (bytes "Etag") ≡ bytes "7" ∷ []
unfolding mem_name text_eq canonical
values-write_upstream_response_example = values-write_upstream_response passed (bytes "Etag")

split_platform-IsSplit_example :
    IsSplit (bytes "football/fixtures") (split_platform (bytes "/football/fixtures"))
split_platform-IsSplit_example = split_platform-IsSplit (bytes "/football/fixtures")

abbrev limited_reply : UpstreamResult
limited_reply = record {
  kind = rate_limited;
  status_code = 429;
  header = [];
  body = bytes "too many requests";
  snapshot = empty_snapshot;
  error = none;
}

abbrev first_handle : Handle
first_handle = record { state = key_of (bytes "first") (bytes "secret-0001") }

abbrev quiet : IsQuiet calm (LimitedUntil calm 0 (store 0)) (bytes "first") 0
unfolding add_duration
quiet = record {
  acquired = λ n. omega arith;
  marked = λ n. omega arith;
  before = λ n. tt;
  during = λ n. tt;
}

react-rate_limited_example :
    All
      (Avoids
        (LimitedUntil calm 0 (store 0))
        (bytes "first")
        0
        (identity (store 0))
        handler
        calm
        request
        (bytes "football")
        runtime
        (bytes "/fixtures")
        quiet)
      (react handler calm request
        (bytes "football")
        runtime
        0
        rate_limited
        0
        first_handle
        limited_reply
        (attempt handler calm request (bytes "football") runtime 0 (bytes "/fixtures") 2 1)
        store).sent
react-rate_limited_example =
    react-rate_limited handler calm request (bytes "football") runtime 0 (bytes "/fixtures") 0 2
      first_handle limited_reply store distinct quiet
