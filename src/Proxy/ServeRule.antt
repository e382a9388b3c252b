-- ===== src/Proxy/ServeRule.antt =====
-- The rule for a whole request: what holds of each refusal and of the loop holds of ServeHTTP.
use all2api.Prelude.{ℕ, ◌≡◌, refl, none, some, Option, inl, inr, ◌⊎◌}
use all2api.Text.{Bytes, bytes}
use all2api.Auth.{AuthError}
use all2api.Logstore.{Event}
use all2api.Table.{lookup}
use all2api.Proxy.{PlatformRuntime, Handler, split_platform}
use all2api.Proxy.Exchange.{
  ClientRequest, RequestBody, no_body, readable, unreadable, base_event, refuse, authorize_request,
  Store, World, Served,
}
use all2api.Proxy.Serve.{serve_pool, serve_decided, serve_platform, serve}
use all2api.Proxy.Rule.{IsRule, attempt_rule}

-- The event is of this request and has this status.
abbrev pub IsEventOf : ClientRequest → ℕ → Event → Type 0
IsEventOf req status e = (e.status_code ≡ status) × (e.method ≡ req.method) × (e.path ≡ req.path)

-- The refusals of ServeHTTP: the status and the code.
abbrev pub IsRefusal : ℕ → Bytes → Type 0
IsRefusal status code =
    ((status ≡ 404) × (code ≡ bytes "unknown_platform"))
    ⊎ ((status ≡ 401) × (code ≡ bytes "unauthorized"))
    ⊎ ((status ≡ 500) × (code ≡ bytes "platform_misconfigured"))
    ⊎ ((status ≡ 400) × (code ≡ bytes "bad_request"))

-- The rule for a whole request, behind the refusals.
module _ (h : Handler) (w : World) (req : ClientRequest) (P : Served → Type 0)
    (I : Store → Type 0) where
  -- The refusals, and the loop for a platform that is found, authorized and has a pool.
  pub record IsServeRule : Type 0 where
    pub refuses :
        (s : Store) (status : ℕ) (code message : Bytes) (e : Event)
        → I s
        → IsRefusal status code
        → IsEventOf req status e
        → P (refuse h s status code message e)
    pub loops :
        (platform : Bytes) (rt : PlatformRuntime) (ref : ℕ)
        → lookup (split_platform req.path).0 h.platforms ≡ some rt
        → authorize_request h rt req.header ≡ none
        → rt.pool ≡ some ref
        → IsRule h w req platform rt ref (split_platform req.path).1 P I

  module _ (rule : IsServeRule) where
    serve_pool_rule :
        (platform : Bytes) (rt : PlatformRuntime) (s : Store) (pool : Option ℕ) (b : RequestBody)
        → ((ref : ℕ)
            → pool ≡ some ref
            → IsRule h w req platform rt ref (split_platform req.path).1 P I)
        → I s
        → P (serve_pool h w req platform rt (split_platform req.path).1 pool b s)
    unfolding serve_pool base_event
    serve_pool_rule platform rt s none b loop i =
        rule.refuses s 500 _ _ _ i (inr (inr (inl (refl, refl)))) (refl, refl, refl)
    serve_pool_rule platform rt s (some ref) (unreadable x) loop i =
        rule.refuses s 400 _ _ _ i (inr (inr (inr (refl, refl)))) (refl, refl, refl)
    serve_pool_rule platform rt s (some ref) no_body loop i =
        attempt_rule h w req platform rt ref _ P I (loop ref refl) h.max_retries 0 s i
    serve_pool_rule platform rt s (some ref) (readable x) loop i =
        attempt_rule h w req platform rt ref _ P I (loop ref refl) h.max_retries 0 s i

    serve_decided_rule :
        (platform : Bytes) (rt : PlatformRuntime) (s : Store) (d : Option AuthError)
        → lookup (split_platform req.path).0 h.platforms ≡ some rt
        → authorize_request h rt req.header ≡ d
        → I s
        → P (serve_decided h w req platform rt (split_platform req.path).1 d s)
    unfolding serve_decided base_event
    serve_decided_rule platform rt s (some x) found e i =
        rule.refuses s 401 _ _ _ i (inr (inl (refl, refl))) (refl, refl, refl)
    serve_decided_rule platform rt s none found e i =
        serve_pool_rule platform rt s rt.pool req.body (λ ref. rule.loops platform rt ref found e) i

    serve_platform_rule :
        (platform : Bytes) (s : Store) (o : Option PlatformRuntime)
        → lookup (split_platform req.path).0 h.platforms ≡ o
        → I s
        → P (serve_platform h w req platform o (split_platform req.path).1 s)
    unfolding serve_platform base_event
    serve_platform_rule platform s none found i =
        rule.refuses s 404 _ _ _ i (inl (refl, refl)) (refl, refl, refl)
    serve_platform_rule platform s (some rt) found i =
        serve_decided_rule platform rt s (authorize_request h rt req.header) found refl i

    pub serve_rule : (s : Store) → I s → P (serve h w req s)
    unfolding serve
    serve_rule s i = serve_platform_rule (split_platform req.path).0 s _ refl i
