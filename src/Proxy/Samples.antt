-- ===== src/Proxy/Samples.antt =====
-- A gateway with one platform and two keys, and a request whose first attempt meets a rate limit.
use all2api.Prelude.{ℕ, zero, suc, ◌+◌, ◌*◌, refl, ◌∷◌, [], none, some, true, pos}
use all2api.Text.{Bytes, bytes, text_eq}
use all2api.Clock.{second, nanos_per_day}
use all2api.Keypool.{KeyState, active}
use all2api.Provider.Quota.{api_sports_provider}
use all2api.Proxy.{Handler, PlatformRuntime, Upstream}
use all2api.Proxy.Transport.{UpstreamRequest, Reply, replied}
use all2api.Proxy.Exchange.{ClientRequest, no_body, Store, World}
use all2api.Keypool.Blocked.{HasDistinctLabels}
use all2api.Text.Equality.{text_eq-false}

abbrev pub key_of : Bytes → Bytes → KeyState
key_of label key = record {
  label = label;
  key = key;
  daily_limit = pos 0;
  daily_remaining = pos 0;
  minute_limit = pos 0;
  minute_remaining = pos 0;
  last_updated = 0;
  status = active;
  cooldown_until = 0;
  error_count = pos 0;
  last_error = [];
}

abbrev pub store : Store
store r = record {
  keys =
      key_of (bytes "first") (bytes "secret-0001")
      ∷ key_of (bytes "other") (bytes "secret-0002")
      ∷ [];
  opts = record {
    switch_threshold = pos 5;
    rate_limit_cooldown = pos (60 * second);
    error_cooldown = pos (30 * second);
    max_error_count = pos 3;
  };
}

abbrev pub upstream : Upstream
upstream = record { base_url = bytes "https://v3.example.com"; provider = api_sports_provider }

abbrev pub runtime : PlatformRuntime
runtime = record {
  transport = upstream;
  pool = some 0;
  pool_name = bytes "default";
  client_auth_header = bytes "X-Apisports-Key";
}

abbrev pub handler : Handler
handler = record {
  auth = none;
  platforms = (bytes "football", runtime) ∷ [];
  max_retries = 3;
  event_sink = true;
}

abbrev pub request : ClientRequest
request = record {
  method = bytes "GET";
  path = bytes "/football/fixtures";
  raw_query = bytes "live=all";
  header =
      (bytes "Accept", bytes "application/json" ∷ [])
      ∷ (bytes "Authorization", bytes "Bearer t" ∷ [])
      ∷ [];
  body = no_body;
  remote_addr = bytes "10.0.0.1:4000";
}

-- 429 for the first request, 200 for each later one.
abbrev pub reply_to : ℕ → UpstreamRequest → Reply
reply_to zero out = replied 429 [] (bytes "too many requests")
reply_to (suc n) out = replied 200 ((bytes "Connection", bytes "close" ∷ []) ∷ []) (bytes "[]")

abbrev pub world : World
world = record {
  before = λ n. [];
  acquired_at = λ n. 738000 * nanos_per_day + n * second;
  request_error = λ method url. none;
  send = reply_to;
  during = λ n. [];
  cancelled = λ n. none;
  marked_at = λ n. 738000 * nanos_per_day + n * second;
  closing = [];
  finished_at = 738000 * nanos_per_day + 9 * second;
  late = [];
  duration_ms = pos 12;
}

-- The same world with a clock that stands still.
abbrev pub calm : World
calm = record world {
  acquired_at = λ n. 738000 * nanos_per_day;
  marked_at = λ n. 738000 * nanos_per_day;
}

abbrev pub distinct : HasDistinctLabels (store 0).keys
unfolding text_eq
distinct = ((text_eq-false (bytes "other") (bytes "first") refl, tt), (tt, tt))
