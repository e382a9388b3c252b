-- ===== src/Proxy/Exchange.antt =====
-- internal/proxy/handler.go: what ServeHTTP reads and writes. The handler's own state is the pools;
-- what happens around a request is a record of type World, with the calls that other requests make
-- on the pools before each step that takes a pool's lock.
use all2api.Prelude.{
  ℕ, Option, none, some, List, [], ◌∷◌, if◌then◌else◌, update, ℤ, pos, ltb_ℤ, is_empty,
}
use all2api.Text.{Bytes, bytes, itoa}
use all2api.Clock.{Time, zero_time}
use all2api.Header
use all2api.Header.{Header}
use all2api.Keypool.{Pool, KeyStateView}
use all2api.Keypool.Step.{Call, step}
use all2api.Auth.{AuthError, authorize, is_enabled, tokens_of, new_with_header}
use all2api.Logstore.{Event}
use all2api.Proxy.{PlatformRuntime, Handler}
use all2api.Proxy.Transport.{UpstreamRequest, Reply, UpstreamResult, copy_safe_response_headers}

-- `unreadable` is a body whose reading fails, with the error.
pub data RequestBody : Type 0 where
  no_body : RequestBody
  readable : Bytes → RequestBody
  unreadable : Bytes → RequestBody

pub record ClientRequest : Type 0 where
  pub method : Bytes
  pub path : Bytes
  pub raw_query : Bytes
  pub header : Header
  pub body : RequestBody
  pub remote_addr : Bytes

-- The pools behind their references.
abbrev pub Store : Type 0
Store = ℕ → Pool

-- Calls of other requests, each on one pool.
abbrev pub Others : Type 0
Others = List (ℕ × (Time × Call))

unfoldable pub after_others : Others → Store → Store
after_others [] s = s
after_others ((r, c) ∷ os) s = after_others os (update s r (step (s r) c))

-- What the attempts of a request meet, by their number from 0: the clock, the other requests, the
-- network, and whether the client has gone away, with the error of its context.
pub record World : Type 0 where
  pub before : ℕ → Others
  pub acquired_at : ℕ → Time
  pub request_error : Bytes → Bytes → Option Bytes
  pub send : ℕ → UpstreamRequest → Reply
  pub during : ℕ → Others
  pub cancelled : ℕ → Option Bytes
  pub marked_at : ℕ → Time
  pub closing : Others
  pub finished_at : Time
  pub late : Others
  pub duration_ms : ℤ

-- errorResponse
pub record ErrorResponse : Type 0 where
  pub error : Bytes
  pub message : Bytes
  pub keys_status : List KeyStateView
  pub retry_after_seconds : ℤ

-- `json` is the encoding of a value by encoding/json.
pub data ResponseBody : Type 0 where
  raw : Bytes → ResponseBody
  json : ErrorResponse → ResponseBody

pub record Response : Type 0 where
  pub status : ℕ
  pub header : Header
  pub body : ResponseBody

-- What a request leaves behind: the pools, the response that is written to the client, the events
-- that are recorded and the requests that were sent upstream.
pub record Served : Type 0 where
  pub store : Store
  pub response : Option Response
  pub events : List Event
  pub sent : List UpstreamRequest

-- writeJSONError, on a response without headers.
unfoldable pub write_json_error : ℕ → Bytes → Bytes → List KeyStateView → ℤ → Response
unfolding Header.set itoa
write_json_error status code message keys retry_after = record {
  status = status;
  header =
      let typed = Header.set [] (bytes "Content-Type") (bytes "application/json") in
      if ltb_ℤ (pos 0) retry_after
      then Header.set typed (bytes "Retry-After") (itoa retry_after)
      else typed;
  body = json (record {
    error = code;
    message = message;
    keys_status = keys;
    retry_after_seconds = retry_after;
  });
}

-- writeUpstreamResponse
unfoldable pub write_upstream_response : UpstreamResult → Response
unfolding copy_safe_response_headers
write_upstream_response res = record {
  status = res.status_code;
  header = copy_safe_response_headers res.header [];
  body = raw res.body;
}

-- Handler.authorize
unfoldable pub authorize_request : Handler → PlatformRuntime → Header → Option AuthError
unfolding authorize is_enabled tokens_of new_with_header
authorize_request h rt header = elim h.auth [
  | none ↦ none
  | some a ↦
      if is_empty rt.client_auth_header
      then authorize h.auth header
      else authorize
          (some (new_with_header (is_enabled h.auth) (tokens_of h.auth) rt.client_auth_header))
          header
]

-- recordProxyEvent, which sets the kind.
unfoldable pub record_proxy_event : Handler → Event → List Event
record_proxy_event h e = if h.event_sink then record e { kind = bytes "proxy" } ∷ [] else []

-- The fields that all events of a request have; the others are empty.
unfoldable pub base_event : World → ClientRequest → Bytes → Event
base_event w req platform = record {
  time = zero_time;
  kind = [];
  level = [];
  message = [];
  platform = platform;
  pool = [];
  key_label = [];
  method = req.method;
  path = req.path;
  status_code = 0;
  duration_ms = w.duration_ms;
  attempts = 0;
  action = [];
  actor = [];
  error = [];
  remote_addr = req.remote_addr;
}

-- A request that is refused before any key is acquired.
unfoldable pub refuse : Handler → Store → ℕ → Bytes → Bytes → Event → Served
refuse h s status code message e = record {
  store = s;
  response = some (write_json_error status code message [] (pos 0));
  events = record_proxy_event h e;
  sent = [];
}
