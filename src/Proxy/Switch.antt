-- ===== src/Proxy/Switch.antt =====
-- ServeHTTP after a rate limit: the further attempts of a request leave the limited key alone.
use all2api.Prelude.{ℕ, suc, ◌≡◌, refl, All, arith, true, ◌==◌, ==_iff}
use all2api.Text.{Bytes}
use all2api.Clock.{Time, add_duration}
use all2api.Keypool.{Pool, Handle}
use all2api.Keypool.Mark.{limit_rate, mark_rate_limited}
use all2api.Keypool.Identity.{identity, identity-step}
use all2api.Keypool.Blocked.{Blocked, HasDistinctLabels, at_label-Blocked}
use all2api.Keypool.Cooldown.{Until}
use all2api.Keypool.Step.{rate_limits, step}
use all2api.Provider.{rate_limited}
use all2api.Proxy.{Handler, PlatformRuntime}
use all2api.Proxy.Transport.{UpstreamResult}
use all2api.Proxy.Exchange.{ClientRequest, Store, World}
use all2api.Proxy.Serve.{react, attempt}
use all2api.Proxy.Rule.{step_at}
use all2api.Proxy.Failover.{IsQuiet, IsShut, Avoids, attempt-AllAvoid}

-- The time until which MarkRateLimited at this attempt keeps a key of the pool out of use.
abbrev pub LimitedUntil : World → ℕ → Pool → Time → Type 0
LimitedUntil w n p = Until (add_duration (w.marked_at n) p.opts.rate_limit_cooldown)

module _ (h : Handler) (w : World) (req : ClientRequest) (platform : Bytes) (rt : PlatformRuntime)
    (ref : ℕ) (rest : Bytes) (n left : ℕ) (handle : Handle) (res : UpstreamResult) (s : Store)
    (distinct : HasDistinctLabels (s ref).keys)
    (quiet : IsQuiet w (LimitedUntil w n (s ref)) handle.state.label ref) where
  limited-Blocked :
      Blocked
        (LimitedUntil w n (s ref))
        handle.state.label
        (mark_rate_limited (w.marked_at n) handle.state.label (s ref))
  unfolding mark_rate_limited limit_rate
  limited-Blocked =
      at_label-Blocked (LimitedUntil w n (s ref)) handle.state.label
        (limit_rate (s ref).opts (w.marked_at n)) (s ref).keys distinct (λ k _ u t a. omega arith)

  limited-IsShut :
      IsShut
        (LimitedUntil w n (s ref))
        handle.state.label
        ref
        (identity (s ref))
        (step_at s ref (w.marked_at n, rate_limits handle.state.label))
  unfolding step
  limited-IsShut =
      let here : (ref == ref) ≡ true = (==_iff ref ref).1 refl in
      rw here
        (identity-step (s ref) (w.marked_at n, rate_limits handle.state.label), limited-Blocked)

  -- When an attempt meets a rate limit, the further attempts of the request, if they send anything,
  -- send it with a key of the pool that has another label than the limited one: if the labels are
  -- distinct, the request's steps come before the end of the cooldown, and the calls of other
  -- requests on the pool come before it too and report on other keys.
  pub react-rate_limited :
      All
        (Avoids
          (LimitedUntil w n (s ref))
          handle.state.label
          ref
          (identity (s ref))
          h
          w
          req
          platform
          rt
          rest
          quiet)
        (react h w req platform rt ref rate_limited n handle res
          (attempt h w req platform rt ref rest left (suc n))
          s).sent
  unfolding react step
  react-rate_limited =
      attempt-AllAvoid (LimitedUntil w n (s ref)) handle.state.label ref (identity (s ref)) h w req
        platform rt rest quiet left (suc n)
        (step_at s ref (w.marked_at n, rate_limits handle.state.label)) limited-IsShut
