-- ===== src/Proxy/Pools.antt =====
-- What a request does to the pools of the gateway.
use all2api.Prelude.{ℕ, ◌≡◌, refl, ◌∙◌, ap, inl, inr, Bool-cases, ◌==◌, sym, ==_iff}
use all2api.Text.{Bytes}
use all2api.Keypool.Identity.{identity, identity-step}
use all2api.Keypool.Step.{step, updates}
use all2api.Logstore.{Event}
use all2api.Proxy.{Handler, PlatformRuntime}
use all2api.Proxy.Exchange.{ClientRequest, Store, World, Served, refuse}
use all2api.Proxy.Serve.{give_up, pass_through, disconnect, serve}
use all2api.Proxy.Rule.{IsKept, after_others-keeps, IsRule}
use all2api.Proxy.ServeRule.{serve_rule}

abbrev pub SameKeys : Store → Store → Type 0
SameKeys s t = (r : ℕ) → identity (t r) ≡ identity (s r)

pub SameKeys-IsKept : (s : Store) → IsKept (SameKeys s)
SameKeys-IsKept s t r c same q = elim (Bool-cases (q == r)) [
  | inl hit ↦
      rw hit (identity-step (t r) c ∙ same r ∙ ap (λ x. identity (s x)) (sym ((==_iff q r).0 hit)))
  | inr miss ↦ rw miss (same q)
]

module _ (h : Handler) (w : World) (req : ClientRequest) (s0 : Store) where
  abbrev KeepsKeys : Served → Type 0
  KeepsKeys r = SameKeys s0 r.store

  refuse-KeepsKeys :
      (s : Store) (status : ℕ) (code message : Bytes) (e : Event)
      → SameKeys s0 s
      → KeepsKeys (refuse h s status code message e)
  unfolding refuse
  refuse-KeepsKeys s status code message e i = i

  loop-KeepsKeys :
      (platform : Bytes) (rt : PlatformRuntime) (ref : ℕ) (rest : Bytes)
      → IsRule h w req platform rt ref rest KeepsKeys (SameKeys s0)
  unfolding give_up pass_through disconnect step
  loop-KeepsKeys platform rt ref rest = record {
    keeps = SameKeys-IsKept s0;
    gives_up = λ n s i.
        after_others-keeps _ (SameKeys-IsKept s0) w.late _
          (after_others-keeps _ (SameKeys-IsKept s0) w.closing s i);
    passes = λ n handle res message s i _ _.
        SameKeys-IsKept s0 s ref (w.marked_at n, updates handle.state.label res.snapshot) i;
    leaves = λ n handle reason s i. i;
    sends = λ n s now handle r _ _ p. p;
  }

-- A request leaves the labels and the secrets of all pools, and their order, as they were, on every
-- path and whatever other requests do in the meantime.
pub identity-serve :
    (h : Handler) (w : World) (req : ClientRequest) (s : Store) (r : ℕ)
    → identity ((serve h w req s).store r) ≡ identity (s r)
identity-serve h w req s =
    serve_rule h w req (KeepsKeys h w req s) (SameKeys s)
      (record {
        refuses =
            λ t status code message e i _ _. refuse-KeepsKeys h w req s t status code message e i;
        loops = λ platform rt ref _ _ _. loop-KeepsKeys h w req s platform rt ref _;
      })
      s (λ r. refl)
