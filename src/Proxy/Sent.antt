-- ===== src/Proxy/Sent.antt =====
-- What ServeHTTP sends upstream: to which platform, with whose key, and how often.
use all2api.Prelude.{
  ℕ, ◌≡◌, refl, ap, sym, ◌⊎◌, inl, inr, none, some, Option, List, [], ◌∷◌, ◌++◌, map, All,
  Option-cases,
}
use all2api.Text.{Bytes}
use all2api.Clock.{Time}
use all2api.Keypool.{Pool, Handle, KeyState, refresh, acquire}
use all2api.Keypool.Acquire.{acquire-Chooses}
use all2api.Keypool.Identity.{identity, label_and_key, label_and_key-refresh}
use all2api.Logstore.{Event}
use all2api.Table.{lookup}
use all2api.Proxy.{Handler, PlatformRuntime, Upstream, split_platform}
use all2api.Proxy.Transport.{ForwardRequest, UpstreamRequest, Reply, upstream_request, forward}
use all2api.Proxy.Exchange.{ClientRequest, Store, World, Served, refuse, authorize_request}
use all2api.Proxy.Serve.{with_sent, give_up, pass_through, disconnect, forwarded, serve}
use all2api.Proxy.Rule.{IsRule}
use all2api.Proxy.ServeRule.{serve_rule}
use all2api.Proxy.Pools.{SameKeys, SameKeys-IsKept}

-- The secret is one of the pool's.
abbrev pub IsKeyOf : Bytes → List (Bytes × Bytes) → Type 0
IsKeyOf key [] = ⊥
IsKeyOf key ((l, k) ∷ ks) = (k ≡ key) ⊎ IsKeyOf key ks

IsKeyOf-chosen :
    (now : Time) (before later : List KeyState) (k : KeyState)
    → IsKeyOf (refresh now k).key (map label_and_key (before ++ k ∷ later))
IsKeyOf-chosen now [] later k =
    inl (sym (ap (λ (p : Bytes × Bytes). p.1) (label_and_key-refresh now k)))
IsKeyOf-chosen now (j ∷ before) later k = inr (IsKeyOf-chosen now before later k)

IsKeyOf-acquire :
    (now : Time) (p : Pool) (handle : Handle)
    → (acquire now p).1 ≡ some handle
    → IsKeyOf handle.state.key (identity p)
IsKeyOf-acquire now p handle e =
    let (before, k, later, same, _, _, _, state) = acquire-Chooses now p handle e in
    rw (same, state) (IsKeyOf-chosen now before later k)

-- The request is the one that some attempt makes for this request of a client: the platform is found and
-- the client authorized, and the key belongs to the platform's own pool, as the store `s` has it.
abbrev pub IsAuthorized : Handler → ClientRequest → Store → UpstreamRequest → Type 0
IsAuthorized h req s out =
    (rt : PlatformRuntime) × (ref : ℕ) × (key : Bytes) × (lookup (split_platform req.path).0
        h.platforms
      ≡ some rt)
    × (authorize_request h rt req.header ≡ none)
    × (rt.pool ≡ some ref)
    × IsKeyOf key (identity (s ref))
    × (out ≡ upstream_request rt.transport (forwarded req (split_platform req.path).1) key)

module _ (request_error : Bytes → Bytes → Option Bytes) (send : UpstreamRequest → Reply)
    (t : Upstream) (req : ForwardRequest) (key : Bytes) where
  pub forward_sent :
      ((forward request_error send t req key).1 ≡ none)
      ⊎ ((forward request_error send t req key).1 ≡ some (upstream_request t req key))
  unfolding forward
  forward_sent =
      elim (Option-cases
        (request_error (upstream_request t req key).method (upstream_request t req key).url)) [
          | inl good ↦ rw (good, forward) (inr refl)
          | inr (e, bad) ↦ rw (bad, forward) (inl refl)
        ]

pub All-with_sent :
    (P : UpstreamRequest → Type 0) (o : Option UpstreamRequest) (out : UpstreamRequest) (r : Served)
    → (o ≡ none) ⊎ (o ≡ some out)
    → P out
    → All P r.sent
    → All P (with_sent o r).sent
All-with_sent P o out r (inl e) p rest = rw e rest
All-with_sent P o out r (inr e) p rest = rw e (p, rest)

module _ (h : Handler) (w : World) (req : ClientRequest) (s0 : Store) where
  abbrev AllAuthorized : Served → Type 0
  AllAuthorized r = All (IsAuthorized h req s0) r.sent

  loop-AllAuthorized :
      (platform : Bytes) (rt : PlatformRuntime) (ref : ℕ)
      → lookup (split_platform req.path).0 h.platforms ≡ some rt
      → authorize_request h rt req.header ≡ none
      → rt.pool ≡ some ref
      → IsRule h w req platform rt ref (split_platform req.path).1 AllAuthorized (SameKeys s0)
  unfolding give_up pass_through disconnect
  loop-AllAuthorized platform rt ref found authorized has_pool = record {
    keeps = SameKeys-IsKept s0;
    gives_up = λ n s i. tt;
    passes = λ n handle res message s i _ _. tt;
    leaves = λ n handle reason s i. tt;
    sends = λ n s now handle r i e p.
        All-with_sent (IsAuthorized h req s0) _ _ r
          (forward_sent w.request_error (w.send n) rt.transport
            (forwarded req (split_platform req.path).1) handle.state.key)
          (
            rt,
            ref,
            handle.state.key,
            found,
            authorized,
            has_pool,
            rw (sym (i ref)) (IsKeyOf-acquire now (s ref) handle e),
            refl,
          )
          p;
  }

  refuse-AllAuthorized :
      (s : Store) (status : ℕ) (code message : Bytes) (e : Event)
      → AllAuthorized (refuse h s status code message e)
  unfolding refuse
  refuse-AllAuthorized s status code message e = tt

-- Whatever is sent upstream for a request goes to the platform that its path names, for a client
-- whom that platform authorizes, with the request's method, query and body and the rest of its
-- path, and with a key of that platform's own pool.
pub serve-IsAuthorized :
    (h : Handler) (w : World) (req : ClientRequest) (s : Store)
    → All (IsAuthorized h req s) (serve h w req s).sent
serve-IsAuthorized h w req s =
    serve_rule h w req (AllAuthorized h w req s) (SameKeys s)
      (record {
        refuses =
            λ t status code message e _ _ _. refuse-AllAuthorized h w req s t status code message e;
        loops = loop-AllAuthorized h w req s;
      })
      s (λ r. refl)
