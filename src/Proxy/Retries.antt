-- ===== src/Proxy/Retries.antt =====
-- The bound on the attempts of ServeHTTP.
use all2api.Prelude.{ℕ, zero, suc, ◌≤◌, inl, inr, none, some, Option, arith, length, Option-cases}
use all2api.Text.{Bytes}
use all2api.Keypool.{Handle, acquire}
use all2api.Auth.{AuthError}
use all2api.Provider.{Outcome, success, rate_limited, key_invalid, server_error, client_error}
use all2api.Logstore.{Event}
use all2api.Table.{lookup}
use all2api.Proxy.{Handler, PlatformRuntime, split_platform}
use all2api.Proxy.Transport.{UpstreamRequest, UpstreamResult, forward}
use all2api.Proxy.Exchange.{
  ClientRequest, RequestBody, no_body, readable, unreadable, Store, World, Served, refuse,
  authorize_request, after_others,
}
use all2api.Proxy.Serve.{
  with_sent, give_up, pass_through, disconnect, react, forwarded, try_key, attempt, serve_pool,
  serve_decided, serve_platform, serve,
}

-- No more requests than the limit.
abbrev pub IsBounded : ℕ → Served → Type 0
IsBounded k r = length r.sent ≤ k

IsBounded-with_sent :
    (k : ℕ) (o : Option UpstreamRequest) (r : Served)
    → IsBounded k r
    → IsBounded (suc k) (with_sent o r)
IsBounded-with_sent k none r b = omega arith
IsBounded-with_sent k (some out) r b = omega arith

module _ (h : Handler) (w : World) (req : ClientRequest) (platform : Bytes) (rt : PlatformRuntime)
    (ref : ℕ) (rest : Bytes) where
  react-IsBounded :
      (k : ℕ) (o : Outcome) (n : ℕ) (handle : Handle) (res : UpstreamResult)
      (continue : Store → Served) (s : Store)
      → ((t : Store) → IsBounded k (continue t))
      → IsBounded k (react h w req platform rt ref o n handle res continue s)
  unfolding react pass_through disconnect
  react-IsBounded k success n handle res continue s go = omega arith
  react-IsBounded k rate_limited n handle res continue s go = go _
  react-IsBounded k key_invalid n handle res continue s go = go _
  react-IsBounded k server_error n handle res continue s go = elim (Option-cases (w.cancelled n)) [
    | inl here ↦ rw (here, react) (go _)
    | inr (reason, gone) ↦ rw (gone, react) (omega arith)
  ]
  react-IsBounded k client_error n handle res continue s go = omega arith

  try_key-IsBounded :
      (k n : ℕ) (handle : Handle) (continue : Store → Served) (s : Store)
      → ((t : Store) → IsBounded k (continue t))
      → IsBounded (suc k) (try_key h w req platform rt ref rest n handle continue s)
  unfolding try_key
  try_key-IsBounded k n handle continue s go =
      let f =
        forward w.request_error (w.send n) rt.transport (forwarded req rest) handle.state.key in
      let s' = after_others (w.during n) s in
      IsBounded-with_sent k f.1 (react h w req platform rt ref f.0.kind n handle f.0 continue s')
        (react-IsBounded k f.0.kind n handle f.0 continue s' go)

  attempt-IsBounded :
      (left n : ℕ) (s : Store) → IsBounded left (attempt h w req platform rt ref rest left n s)
  unfolding attempt give_up
  attempt-IsBounded zero n s = omega arith
  attempt-IsBounded (suc left) n s =
      elim (Option-cases (acquire (w.acquired_at n) (after_others (w.before n) s ref)).1) [
        | inl nothing ↦ rw (nothing, attempt) (omega arith)
        | inr (handle, found) ↦
            rw (found, attempt)
              (try_key-IsBounded left n handle _ _ (attempt-IsBounded left (suc n)))
      ]

module _ (h : Handler) (w : World) (req : ClientRequest) where
  refuse-IsBounded :
      (s : Store) (status : ℕ) (code message : Bytes) (e : Event)
      → IsBounded h.max_retries (refuse h s status code message e)
  unfolding refuse
  refuse-IsBounded s status code message e = omega arith

  serve_pool-IsBounded :
      (platform : Bytes) (rt : PlatformRuntime) (rest : Bytes) (pool : Option ℕ) (b : RequestBody)
      (s : Store)
      → IsBounded h.max_retries (serve_pool h w req platform rt rest pool b s)
  unfolding serve_pool
  serve_pool-IsBounded platform rt rest none b s = refuse-IsBounded s _ _ _ _
  serve_pool-IsBounded platform rt rest (some ref) (unreadable x) s = refuse-IsBounded s _ _ _ _
  serve_pool-IsBounded platform rt rest (some ref) no_body s =
      attempt-IsBounded h w req platform rt ref rest h.max_retries 0 s
  serve_pool-IsBounded platform rt rest (some ref) (readable x) s =
      attempt-IsBounded h w req platform rt ref rest h.max_retries 0 s

  serve_decided-IsBounded :
      (platform : Bytes) (rt : PlatformRuntime) (rest : Bytes) (d : Option AuthError) (s : Store)
      → IsBounded h.max_retries (serve_decided h w req platform rt rest d s)
  unfolding serve_decided
  serve_decided-IsBounded platform rt rest (some x) s = refuse-IsBounded s _ _ _ _
  serve_decided-IsBounded platform rt rest none s =
      serve_pool-IsBounded platform rt rest rt.pool req.body s

  serve_platform-IsBounded :
      (platform : Bytes) (o : Option PlatformRuntime) (rest : Bytes) (s : Store)
      → IsBounded h.max_retries (serve_platform h w req platform o rest s)
  unfolding serve_platform
  serve_platform-IsBounded platform none rest s = refuse-IsBounded s _ _ _ _
  serve_platform-IsBounded platform (some rt) rest s =
      serve_decided-IsBounded platform rt rest (authorize_request h rt req.header) s

-- A request is sent upstream at most as often as the limit of the handler allows.
pub serve-IsBounded :
    (h : Handler) (w : World) (req : ClientRequest) (s : Store)
    → length (serve h w req s).sent ≤ h.max_retries
unfolding serve
serve-IsBounded h w req s =
    serve_platform-IsBounded h w req (split_platform req.path).0
      (lookup (split_platform req.path).0 h.platforms) (split_platform req.path).1 s
