-- ===== src/Proxy/Rescue.antt =====
-- ServeHTTP finds a good key: fewer refused keys than attempts do not keep a request from its answer.
use all2api.Prelude.{
  ℕ, zero, suc, ◌≤◌, ◌≡◌, refl, ◌∙◌, inl, inr, Bool, true, Option, none, some, arith, ◌==◌, ==_iff,
}
use all2api.Text.{Bytes}
use all2api.Clock.{Time}
use all2api.Keypool.{Options, Handle, Pool, acquire}
use all2api.Keypool.Ready.{
  acquire_found, IsReady, mark_rate_limited-IsReady, mark_key_invalid-IsReady,
}
use all2api.Keypool.Traps.{IsHanded, acquire_from-IsHanded}
use all2api.Provider.{Outcome, success, rate_limited, key_invalid, server_error, client_error}
use all2api.Table.{lookup}
use all2api.Proxy.{Handler, PlatformRuntime, split_platform}
use all2api.Proxy.Transport.{UpstreamResult, read_reply, forward}
use all2api.Proxy.Exchange.{
  RequestBody, no_body, readable, unreadable, authorize_request, ClientRequest, Store, after_others,
  World, Served,
}
use all2api.Proxy.Serve.{
  pass_through, react, forwarded, try_key, attempt, serve_pool, serve_decided, serve_platform,
  serve,
}
use all2api.Proxy.Steady.{
  IsAnswer, IsAnswer-good, IsAnswer-refused, not-server_error, after_others-IsElsewhere,
  request_with, IsSteady, IsRescued,
}

module _ (w : World) (req : ClientRequest) (rt : PlatformRuntime) (ref : ℕ) (rest : Bytes)
    (opts : Options) (deadline : Time) (good : Bytes → Bool) where
  module _ (h : Handler) (platform : Bytes) (steady : IsSteady w req rt ref rest opts deadline good)
      (p : Pool) (left : ℕ) (ready : IsReady opts deadline good (suc left) p) (now : Time)
      (early : now ≤ deadline) (handle : Handle)
      (handed : IsHanded deadline good now p.keys handle) where
    abbrev result_of : ℕ → UpstreamResult
    result_of n =
        read_reply rt.transport
          (w.send n (request_with w req rt ref rest opts deadline good handle.state.key))

    here : (ref == ref) ≡ true
    here = (==_iff ref ref).1 refl

    react-IsRescued :
        (o : Outcome) (b : Bool) (n : ℕ) (continue : Store → Served) (s : Store)
        → good handle.state.key ≡ b
        → IsAnswer b o
        → s ref ≡ (acquire now p).0
        → ((t : Store)
            → IsReady opts deadline good left (t ref)
            → IsRescued w req rt ref rest opts deadline good (continue t).response)
        → IsRescued w req rt ref rest opts deadline good
            (react h w req platform rt ref o n handle (result_of n) continue s).response
    unfolding react pass_through
    react-IsRescued success b n continue s e a same go = record {
      attempts = n;
      key = handle.state.key;
      is_good = e ∙ IsAnswer-good b success a (inl refl);
      passed = refl;
    }
    react-IsRescued client_error b n continue s e a same go = record {
      attempts = n;
      key = handle.state.key;
      is_good = e ∙ IsAnswer-good b client_error a (inr refl);
      passed = refl;
    }
    react-IsRescued rate_limited b n continue s e a same go = go _ (
        rw here (
          mark_rate_limited-IsReady opts deadline good p left ready now early handle handed
            (w.marked_at n) (s ref) (steady.limits n) same
            (e ∙ IsAnswer-refused b rate_limited a (inl refl))))
    react-IsRescued key_invalid b n continue s e a same go = go _ (
        rw here (
          mark_key_invalid-IsReady opts deadline good p left ready now early handle handed
            (w.marked_at n) _ (s ref) (steady.invalidates n) same
            (e ∙ IsAnswer-refused b key_invalid a (inr refl))))
    react-IsRescued server_error b n continue s e a same go = absurd (not-server_error b a)

    forward-answer :
        (n : ℕ) (key : Bytes)
        → (forward w.request_error (w.send n) rt.transport (forwarded req rest) key).0
          ≡ read_reply rt.transport
              (w.send n (request_with w req rt ref rest opts deadline good key))
    unfolding forward
    forward-answer n key = rw (steady.parses key, forward)

    kind-IsAnswer :
        (n : ℕ) (key : Bytes)
        → IsAnswer
            (good key)
            (read_reply rt.transport
              (w.send n (request_with w req rt ref rest opts deadline good key))).kind
    unfolding read_reply
    kind-IsAnswer n key = let (status, header, body, e, a) = steady.answers n key in rw e a

    try_key-IsRescued :
        (n : ℕ) (continue : Store → Served) (s : Store)
        → s ref ≡ (acquire now p).0
        → ((t : Store)
            → IsReady opts deadline good left (t ref)
            → IsRescued w req rt ref rest opts deadline good (continue t).response)
        → IsRescued w req rt ref rest opts deadline good
            (try_key h w req platform rt ref rest n handle continue s).response
    unfolding try_key
    try_key-IsRescued n continue s same go = rw (forward-answer n handle.state.key) (
        react-IsRescued _ (good handle.state.key) n continue _ refl
          (kind-IsAnswer n handle.state.key)
          (after_others-IsElsewhere ref (w.during n) s (steady.during n) ∙ same) go)

  module _ (h : Handler) (platform : Bytes)
      (steady : IsSteady w req rt ref rest opts deadline good) where
    pub attempt-IsRescued :
        (left n : ℕ) (s : Store)
        → IsReady opts deadline good left (s ref)
        → IsRescued w req rt ref rest opts deadline good
            (attempt h w req platform rt ref rest left n s).response
    unfolding attempt
    attempt-IsRescued zero n s ready = absurd (omega (arith, ready.traps))
    attempt-IsRescued (suc left) n s ready =
        let now = w.acquired_at n in
        let s1 = after_others (w.before n) s in
        let ready1 : IsReady opts deadline good (suc left) (s1 ref) =
          rw (after_others-IsElsewhere ref (w.before n) s (steady.before n)) ready in
        let (handle, handed) =
          acquire_from-IsHanded deadline good now (s1 ref).keys (steady.acquired n)
            ready1.has_good in
        rw (acquire_found now (s1 ref) handle handed.found, attempt)
          (try_key-IsRescued h platform steady (s1 ref) left ready1 now (steady.acquired n) handle
            handed n _ _ (rw ((==_iff ref ref).1 refl)) (attempt-IsRescued left (suc n)))

abbrev pub IsReadable : RequestBody → Type 0
IsReadable no_body = Unit
IsReadable (readable b) = Unit
IsReadable (unreadable e) = ⊥

module _ (h : Handler) (w : World) (req : ClientRequest) (rt : PlatformRuntime) (ref : ℕ)
    (opts : Options) (deadline : Time) (good : Bytes → Bool) where
  serve_pool-IsRescued :
      (platform rest : Bytes) (pool : Option ℕ) (body : RequestBody) (s : Store)
      → pool ≡ some ref
      → IsReadable body
      → IsSteady w req rt ref rest opts deadline good
      → IsReady opts deadline good h.max_retries (s ref)
      → IsRescued w req rt ref rest opts deadline good
          (serve_pool h w req platform rt rest pool body s).response
  unfolding serve_pool
  serve_pool-IsRescued platform rest pool no_body s e b steady ready =
      rw (e, serve_pool)
        (attempt-IsRescued w req rt ref rest opts deadline good h platform steady h.max_retries 0 s
          ready)
  serve_pool-IsRescued platform rest pool (readable x) s e b steady ready =
      rw (e, serve_pool)
        (attempt-IsRescued w req rt ref rest opts deadline good h platform steady h.max_retries 0 s
          ready)
  serve_pool-IsRescued platform rest pool (unreadable x) s e b steady ready = elim b [ ]

  -- If the path names a platform with a pool, the client is authorized and the body can be read, the
  -- client gets the upstream's answer to an attempt with a good key, which is a success or a client
  -- error: if the upstream answers each key with one of these or with a rate limit or a refusal of
  -- the key, always the same way for a key; the pool has an active key of the first sort and fewer of
  -- the second, but for those that are cooling, than attempts are allowed; the labels are distinct,
  -- the attempts come before a deadline that lies within both cooldowns of each mark, and other
  -- requests are on other pools.
  pub serve-IsRescued :
      (s : Store)
      → lookup (split_platform req.path).0 h.platforms ≡ some rt
      → authorize_request h rt req.header ≡ none
      → rt.pool ≡ some ref
      → IsReadable req.body
      → IsSteady w req rt ref (split_platform req.path).1 opts deadline good
      → IsReady opts deadline good h.max_retries (s ref)
      → IsRescued w req rt ref
          (split_platform req.path).1
          opts
          deadline
          good
          (serve h w req s).response
  unfolding serve serve_platform serve_decided
  serve-IsRescued s found allowed pool body steady ready =
      rw (found, serve_platform)
        (rw (allowed, serve_decided)
          (serve_pool-IsRescued _ _ rt.pool req.body s pool body steady ready))
