-- ===== src/Proxy/Rule.antt =====
-- One rule for the loop of ServeHTTP: what its ends establish and its rounds keep holds of the whole.
use all2api.Prelude.{
  ℕ, zero, suc, ◌≡◌, refl, some, Option, [], ◌∷◌, update, inl, inr, Option-cases, ◌⊎◌,
}
use all2api.Text.{Bytes}
use all2api.Clock.{Time}
use all2api.Keypool.{Handle, acquire}
use all2api.Keypool.Step.{Call, acquires, rate_limits, errors, invalidates, step}
use all2api.Provider.{
  Outcome, success, rate_limited, key_invalid, server_error, client_error, classify_status,
}
use all2api.Proxy.{PlatformRuntime, Handler, Upstream}
use all2api.Proxy.Transport.{
  ForwardRequest, UpstreamRequest, UpstreamResult, Reply, failed, replied, read_reply,
  upstream_request, forward,
}
use all2api.Proxy.Exchange.{ClientRequest, Store, Others, after_others, World, Served}
use all2api.Proxy.Serve.{
  with_sent, give_up, pass_through, disconnect, react, forwarded, try_key, attempt,
}

-- A call on one pool of the store.
abbrev pub step_at : Store → ℕ → Time × Call → Store
step_at s r c = update s r (step (s r) c)

-- The property of stores that each call on a pool keeps.
abbrev pub IsKept : (Store → Type 0) → Type 0
IsKept I = (s : Store) (r : ℕ) (c : Time × Call) → I s → I (step_at s r c)

pub after_others-keeps :
    (I : Store → Type 0) → IsKept I → (os : Others) (s : Store) → I s → I (after_others os s)
unfolding after_others
after_others-keeps I keep [] s i = i
after_others-keeps I keep ((r, c) ∷ os) s i =
    after_others-keeps I keep os (step_at s r c) (keep s r c i)

-- A result that is not an error of the transport has the class of its status.
abbrev pub IsClassified : UpstreamResult → Type 0
IsClassified res = (res.kind ≡ server_error) ⊎ (res.kind ≡ classify_status res.status_code)

read_reply-IsClassified : (t : Upstream) (r : Reply) → IsClassified (read_reply t r)
unfolding read_reply
read_reply-IsClassified t (failed e) = inl refl
read_reply-IsClassified t (replied status header body) = inr refl

forward-IsClassified :
    (request_error : Bytes → Bytes → Option Bytes) (send : UpstreamRequest → Reply) (t : Upstream)
    (req : ForwardRequest) (key : Bytes)
    → IsClassified (forward request_error send t req key).0
unfolding forward
forward-IsClassified request_error send t req key =
    elim (Option-cases
      (request_error (upstream_request t req key).method (upstream_request t req key).url)) [
        | inl good ↦
            rw (good, forward) (read_reply-IsClassified t (send (upstream_request t req key)))
        | inr (e, bad) ↦ rw (bad, forward) (inl refl)
      ]

module _ (h : Handler) (w : World) (req : ClientRequest) (platform : Bytes) (rt : PlatformRuntime)
    (ref : ℕ) (rest : Bytes) where
  -- What is to be shown of the result, and what holds of the pools all along.
  pub record IsRule (P : Served → Type 0) (I : Store → Type 0) : Type 0 where
    pub keeps : IsKept I
    pub gives_up : (n : ℕ) (s : Store) → I s → P (give_up h w req platform rt ref n s)
    pub passes :
        (n : ℕ) (handle : Handle) (res : UpstreamResult) (message : Bytes) (s : Store)
        → I s
        → IsClassified res
        → (res.kind ≡ success) ⊎ (res.kind ≡ client_error)
        → P (pass_through h w req platform rt ref n handle res message s)
    pub leaves :
        (n : ℕ) (handle : Handle) (reason : Bytes) (s : Store)
        → I s
        → P (disconnect h w req platform rt ref n handle reason s)
    pub sends :
        (n : ℕ) (s : Store) (now : Time) (handle : Handle) (r : Served)
        → I s
        → (acquire now (s ref)).1 ≡ some handle
        → P r
        → P (
            with_sent
              (forward w.request_error
                (w.send n)
                rt.transport
                (forwarded req rest)
                handle.state.key).1
              r)

  module _ (P : Served → Type 0) (I : Store → Type 0) (rule : IsRule P I) where
    react_rule :
        (o : Outcome) (n : ℕ) (handle : Handle) (res : UpstreamResult) (continue : Store → Served)
        (s : Store)
        → IsClassified res
        → res.kind ≡ o
        → I s
        → ((t : Store) → I t → P (continue t))
        → P (react h w req platform rt ref o n handle res continue s)
    unfolding react step
    react_rule success n handle res continue s c e i go = rule.passes n handle res _ s i c (inl e)
    react_rule rate_limited n handle res continue s c e i go =
        go _ (rule.keeps s ref (w.marked_at n, rate_limits handle.state.label) i)
    react_rule key_invalid n handle res continue s c e i go =
        go _ (rule.keeps s ref (w.marked_at n, invalidates handle.state.label _) i)
    react_rule server_error n handle res continue s c e i go = elim (Option-cases (w.cancelled n)) [
      | inl here ↦
          rw (here, react) (go _ (rule.keeps s ref (w.marked_at n, errors handle.state.label _) i))
      | inr (reason, gone) ↦ rw (gone, react) (rule.leaves n handle reason s i)
    ]
    react_rule client_error n handle res continue s c e i go =
        rule.passes n handle res _ s i c (inr e)

    try_key_rule :
        (n : ℕ) (handle : Handle) (continue : Store → Served) (s : Store) (before : Store)
        (now : Time)
        → I before
        → (acquire now (before ref)).1 ≡ some handle
        → I s
        → ((t : Store) → I t → P (continue t))
        → P (try_key h w req platform rt ref rest n handle continue s)
    unfolding try_key
    try_key_rule n handle continue s before now j e i go = rule.sends n before now handle _ j e (
        react_rule _ n handle _ continue _
          (forward-IsClassified w.request_error (w.send n) rt.transport (forwarded req rest)
            handle.state.key)
          refl (after_others-keeps I rule.keeps (w.during n) s i) go)

    pub attempt_rule :
        (left n : ℕ) (s : Store) → I s → P (attempt h w req platform rt ref rest left n s)
    unfolding attempt step
    attempt_rule zero n s i = rule.gives_up n s i
    attempt_rule (suc left) n s i =
        let s1 = after_others (w.before n) s in
        let i1 = after_others-keeps I rule.keeps (w.before n) s i in
        let i2 = rule.keeps s1 ref (w.acquired_at n, acquires) i1 in
        elim (Option-cases (acquire (w.acquired_at n) (s1 ref)).1) [
          | inl nothing ↦ rw (nothing, attempt) (rule.gives_up n _ i2)
          | inr (handle, found) ↦
              rw (found, attempt)
                (try_key_rule n handle _ _ s1 (w.acquired_at n) i1 found i2
                  (attempt_rule left (suc n)))
        ]
