-- ===== src/Proxy/Serve.antt =====
-- internal/proxy/handler.go: ServeHTTP. The logger's lines are not modelled.
use all2api.Prelude.{ℕ, zero, suc, Option, none, some, List, [], ◌∷◌, ◌++◌, update, pos, get_or}
use all2api.Text.{Bytes, bytes, itoa}
use all2api.Keypool.{Handle, acquire, snapshot}
use all2api.Keypool.Mark.{
  mark_rate_limited, mark_error, mark_key_invalid, update_from_upstream, earliest_recovery_seconds,
}
use all2api.Provider.{Outcome, success, rate_limited, key_invalid, server_error, client_error}
use all2api.Auth.{AuthError}
use all2api.Table.{lookup}
use all2api.Proxy.{PlatformRuntime, Handler, split_platform}
use all2api.Proxy.Transport.{ForwardRequest, UpstreamRequest, UpstreamResult, forward}
use all2api.Proxy.Exchange.{
  RequestBody, no_body, readable, unreadable, ClientRequest, Store, after_others, World, Served,
  write_json_error, write_upstream_response, authorize_request, record_proxy_event, base_event,
  refuse,
}

-- The bytes that are read of the body, or none where there is no body.
abbrev pub body_bytes : RequestBody → Option Bytes
body_bytes no_body = none
body_bytes (readable b) = some b
body_bytes (unreadable e) = none

abbrev pub sent_list : Option UpstreamRequest → List UpstreamRequest
sent_list none = []
sent_list (some r) = r ∷ []

-- The requests that earlier attempts sent stand in front.
abbrev pub with_sent : Option UpstreamRequest → Served → Served
with_sent out r = record r { sent = sent_list out ++ r.sent }

-- The request that each attempt forwards: the path without the namespace.
abbrev pub forwarded : ClientRequest → Bytes → ForwardRequest
forwarded req rest = record {
  method = req.method;
  path = rest;
  raw_query = req.raw_query;
  header = req.header;
  body = body_bytes req.body;
}

module _ (h : Handler) (w : World) (req : ClientRequest) (platform : Bytes) (rt : PlatformRuntime)
    (ref : ℕ) where
  -- The end of a request whose attempts are used up, or for which no key is available.
  unfoldable pub give_up : ℕ → Store → Served
  unfolding after_others earliest_recovery_seconds snapshot
  give_up attempts s =
      let s1 = after_others w.closing s in
      let retry_after = earliest_recovery_seconds w.finished_at (s1 ref) in
      let s2 = after_others w.late s1 in
      record {
        store = s2;
        response = some (
            write_json_error 503 (bytes "all_keys_unavailable")
              (bytes "All upstream API keys are exhausted or rate-limited") (snapshot (s2 ref))
              retry_after);
        events = record_proxy_event h (record (base_event w req platform) {
          level = bytes "error";
          message = bytes "all keys unavailable";
          pool = rt.pool_name;
          status_code = 503;
          attempts = attempts;
        });
        sent = [];
      }

  -- An upstream response that is passed on to the client.
  unfoldable pub pass_through : ℕ → Handle → UpstreamResult → Bytes → Store → Served
  unfolding update_from_upstream
  pass_through n handle res message s = record {
    store =
        update s ref
          (update_from_upstream (w.marked_at n) handle.state.label res.snapshot (s ref)).0;
    response = some (write_upstream_response res);
    events = record_proxy_event h (record (base_event w req platform) {
      level = bytes "info";
      message = message;
      pool = rt.pool_name;
      key_label = handle.state.label;
      status_code = res.status_code;
      attempts = suc n;
    });
    sent = [];
  }

  -- The client is gone: nothing is written to it.
  unfoldable pub disconnect : ℕ → Handle → Bytes → Store → Served
  disconnect n handle reason s = record {
    store = s;
    response = none;
    events = record_proxy_event h (record (base_event w req platform) {
      level = bytes "warn";
      message = bytes "client disconnected";
      pool = rt.pool_name;
      key_label = handle.state.label;
      attempts = suc n;
      error = reason;
    });
    sent = [];
  }

  -- The switch over the outcome of attempt `n`; `continue` is the next round of the loop.
  unfoldable pub react : Outcome → ℕ → Handle → UpstreamResult → (Store → Served) → Store → Served
  unfolding pass_through disconnect mark_rate_limited mark_key_invalid mark_error itoa
  react success n handle res continue s =
      pass_through n handle res (bytes "proxy request completed") s
  react rate_limited n handle res continue s =
      continue (update s ref (mark_rate_limited (w.marked_at n) handle.state.label (s ref)))
  react key_invalid n handle res continue s =
      let reason = bytes "upstream returned " ++ itoa (pos res.status_code) in
      continue (update s ref (mark_key_invalid (w.marked_at n) handle.state.label reason (s ref)))
  react server_error n handle res continue s = elim (w.cancelled n) [
    | some reason ↦ disconnect n handle reason s
    | none ↦
        let reason = get_or res.error (bytes "upstream server error") in
        continue (update s ref (mark_error (w.marked_at n) handle.state.label reason (s ref)))
  ]
  react client_error n handle res continue s =
      pass_through n handle res (bytes "proxy client error passed through") s

  -- An attempt with the key of the handle.
  unfoldable pub try_key : Bytes → ℕ → Handle → (Store → Served) → Store → Served
  unfolding forward after_others react
  try_key rest n handle continue s =
      let (res, out) =
        forward w.request_error (w.send n) rt.transport (forwarded req rest) handle.state.key in
      with_sent out (react res.kind n handle res continue (after_others (w.during n) s))

  -- The loop: at most `left` more attempts behind the `n` that were made.
  unfoldable pub attempt : Bytes → ℕ → ℕ → Store → Served
  unfolding acquire give_up try_key
  attempt rest zero n s = give_up n s
  attempt rest (suc left) n s =
      let s1 = after_others (w.before n) s in
      let (p, found) = acquire (w.acquired_at n) (s1 ref) in
      let s2 = update s1 ref p in
      let continue = attempt rest left (suc n) in
      elim found [ none ↦ give_up n s2 | some handle ↦ try_key rest n handle continue s2 ]

module _ (h : Handler) (w : World) (req : ClientRequest) (platform : Bytes) where
  -- Behind the client's authorization: the platform's pool and the body of the request.
  unfoldable pub serve_pool : PlatformRuntime → Bytes → Option ℕ → RequestBody → Store → Served
  unfolding attempt
  serve_pool rt rest none body s =
      refuse h s 500 (bytes "platform_misconfigured") (bytes "platform has no credential pool")
        (record (base_event w req platform) {
          level = bytes "error";
          message = bytes "platform has no credential pool";
          status_code = 500;
        })
  serve_pool rt rest (some ref) (unreadable e) s =
      refuse h s 400 (bytes "bad_request") (bytes "failed to read request body")
        (record (base_event w req platform) {
          level = bytes "warn";
          message = bytes "failed to read request body";
          status_code = 400;
          error = e;
        })
  serve_pool rt rest (some ref) no_body s = attempt h w req platform rt ref rest h.max_retries 0 s
  serve_pool rt rest (some ref) (readable b) s =
      attempt h w req platform rt ref rest h.max_retries 0 s

  -- The answer of the authenticator.
  unfoldable pub serve_decided : PlatformRuntime → Bytes → Option AuthError → Store → Served
  unfolding serve_pool
  serve_decided rt rest (some e) s =
      refuse h s 401 (bytes "unauthorized") (bytes "client authorization failed")
        (record (base_event w req platform) {
          level = bytes "warn";
          message = bytes "client authorization failed";
          status_code = 401;
          error = bytes "unauthorized";
        })
  serve_decided rt rest none s = serve_pool rt rest rt.pool req.body s

  unfoldable pub serve_platform : Option PlatformRuntime → Bytes → Store → Served
  unfolding serve_decided authorize_request
  serve_platform none rest s =
      refuse h s 404 (bytes "unknown_platform")
        (bytes "unknown namespace in path; expected /<namespace>/<path>")
        (record (base_event w req platform) {
          level = bytes "warn";
          message = bytes "unknown namespace";
          status_code = 404;
        })
  serve_platform (some rt) rest s = serve_decided rt rest (authorize_request h rt req.header) s

-- ServeHTTP
unfoldable pub serve : Handler → World → ClientRequest → Store → Served
unfolding split_platform lookup serve_platform refuse base_event write_json_error
    write_upstream_response record_proxy_event
serve h w req s =
    let (platform, rest) = split_platform req.path in
    serve_platform h w req platform (lookup platform h.platforms) rest s
