-- ===== src/Proxy/Transport.antt =====
-- internal/proxy/transport.go: one request to the upstream. What the network and the parser of
-- package net/http make of a request are parameters: `request_error` is the error, if any, of
-- http.NewRequestWithContext for a method and a URL, and `send` is what client.Do and the reading
-- of the body come to, behind the redirects that client.Do may follow.
use all2api.Prelude.{
  ℕ, Bool, false, ◌||◌, Option, none, some, List, [], ◌∷◌, ◌++◌, if◌then◌else◌, is_empty,
}
use all2api.Text.{Bytes, bytes, text_eq}
use all2api.Header.{Header, canonical, add_all}
use all2api.RateLimit.{RateLimitSnapshot, empty_snapshot}
use all2api.Provider.{
  Outcome, server_error, credential_header, inject_credential, classify_status, parse_rate_limit,
}
use all2api.Proxy.{Upstream}

-- What the transport reads of the client's request.
pub record ForwardRequest : Type 0 where
  pub method : Bytes
  pub path : Bytes
  pub raw_query : Bytes
  pub header : Header
  pub body : Option Bytes

pub record UpstreamRequest : Type 0 where
  pub method : Bytes
  pub url : Bytes
  pub header : Header
  pub body : Option Bytes

-- `failed` is an error of client.Do or of the reading of the response's body.
pub data Reply : Type 0 where
  failed : Bytes → Reply
  replied : ℕ → Header → Bytes → Reply

-- upstreamResult
pub record UpstreamResult : Type 0 where
  pub kind : Outcome
  pub status_code : ℕ
  pub header : Header
  pub body : Bytes
  pub snapshot : RateLimitSnapshot
  pub error : Option Bytes

unfoldable pub mem_name : List Bytes → Bytes → Bool
mem_name [] name = false
mem_name (n ∷ ns) name = text_eq n name || mem_name ns name

abbrev pub blocked_request_headers : List Bytes
blocked_request_headers =
    bytes "Authorization"
    ∷ bytes "Connection"
    ∷ bytes "Proxy-Connection"
    ∷ bytes "Keep-Alive"
    ∷ bytes "Transfer-Encoding"
    ∷ bytes "Upgrade"
    ∷ bytes "Host"
    ∷ bytes "X-Apisports-Key"
    ∷ []

abbrev pub blocked_response_headers : List Bytes
blocked_response_headers =
    bytes "Connection" ∷ bytes "Keep-Alive" ∷ bytes "Transfer-Encoding" ∷ bytes "Upgrade" ∷ []

-- The loop of both copies, over the entries of the source: the canonical names of the list are
-- left out, and the values of the others are added to the target.
unfoldable pub copy_unless : List Bytes → Header → Header → Header
unfolding mem_name canonical add_all
copy_unless blocked [] dst = dst
copy_unless blocked ((name, values) ∷ src) dst =
    let to =
      if mem_name blocked (canonical name) then dst else add_all dst (canonical name) values in
    copy_unless blocked src to

-- copySafeRequestHeaders
unfoldable pub copy_safe_request_headers : Header → Header → Bytes → Header
unfolding copy_unless
copy_safe_request_headers src dst credential =
    copy_unless (canonical credential ∷ blocked_request_headers) src dst

-- copySafeResponseHeaders of handler.go
unfoldable pub copy_safe_response_headers : Header → Header → Header
unfolding copy_unless
copy_safe_response_headers src dst = copy_unless blocked_response_headers src dst

-- The URL of the upstream request.
unfoldable pub raw_url : Bytes → Bytes → Bytes → Bytes
raw_url base path query = base ++ path ++ (if is_empty query then [] else bytes "?" ++ query)

-- The request that is sent with this credential.
unfoldable pub upstream_request : Upstream → ForwardRequest → Bytes → UpstreamRequest
unfolding copy_safe_request_headers raw_url inject_credential
upstream_request t req api_key = record {
  method = req.method;
  url = raw_url t.base_url req.path req.raw_query;
  header =
      inject_credential t.provider
        (copy_safe_request_headers req.header [] (credential_header t.provider)) api_key;
  body = req.body;
}

-- A result of the transport itself.
abbrev pub transport_failure : Bytes → UpstreamResult
transport_failure e = record {
  kind = server_error;
  status_code = 0;
  header = [];
  body = [];
  snapshot = empty_snapshot;
  error = some e;
}

unfoldable pub read_reply : Upstream → Reply → UpstreamResult
unfolding classify_status parse_rate_limit
read_reply t (failed e) = transport_failure e
read_reply t (replied status header body) = record {
  kind = classify_status status;
  status_code = status;
  header = header;
  body = body;
  snapshot = parse_rate_limit header t.provider.rate_limit;
  error = none;
}

-- do, with the request that it sends, if it sends one.
module _ (request_error : Bytes → Bytes → Option Bytes) (send : UpstreamRequest → Reply) where
  unfoldable pub forward :
      Upstream → ForwardRequest → Bytes → UpstreamResult × Option UpstreamRequest
  unfolding upstream_request read_reply
  forward t req api_key =
      let out = upstream_request t req api_key in
      elim (request_error out.method out.url) [
        | some e ↦ (transport_failure e, none)
        | none ↦ (read_reply t (send out), some out)
      ]
