-- ===== src/Proxy/Steady.antt =====
-- A request whose upstream accepts some keys and refuses the others, and which is alone on its pool.
use all2api.Prelude.{
  ℕ, ◌≤◌, ◌≡◌, ◌≢◌, refl, ◌∙◌, ◌⊎◌, inl, inr, Bool, true, false, Option, none, some, [], ◌∷◌, All,
  arith, Bool-cases, ◌==◌, ==_iff,
}
use all2api.Text.{Bytes}
use all2api.Clock.{Time, add_duration}
use all2api.Header.{Header}
use all2api.Keypool.{Options}
use all2api.Provider.{
  Outcome, success, rate_limited, key_invalid, server_error, client_error, classify_status,
}
use all2api.Proxy.{PlatformRuntime}
use all2api.Proxy.Transport.{UpstreamRequest, Reply, replied, upstream_request, read_reply}
use all2api.Proxy.Exchange.{
  ClientRequest, Store, Others, after_others, World, Response, write_upstream_response,
}
use all2api.Proxy.Serve.{forwarded}

-- The classes of the answers to a good key, which are passed on, and of those to a refused one.
abbrev pub IsAnswer : Bool → Outcome → Type 0
IsAnswer true o = (o ≡ success) ⊎ (o ≡ client_error)
IsAnswer false o = (o ≡ rate_limited) ⊎ (o ≡ key_invalid)

pub IsAnswer-good : (b : Bool) (o : Outcome) → IsAnswer b o → IsAnswer true o → b ≡ true
IsAnswer-good true o a g = refl
IsAnswer-good false o a g = absurd (ground arith)

pub IsAnswer-refused : (b : Bool) (o : Outcome) → IsAnswer b o → IsAnswer false o → b ≡ false
IsAnswer-refused true o a g = absurd (ground arith)
IsAnswer-refused false o a g = refl

pub not-server_error : (b : Bool) → ¬ IsAnswer b server_error
not-server_error true a = ground arith
not-server_error false a = ground arith

-- The upstream answers, with a status of these classes.
abbrev pub Answers : Bool → Reply → Type 0
Answers b r =
    (status : ℕ) × (header : Header) × (body : Bytes) × (r ≡ replied status header body)
    × IsAnswer b (classify_status status)

abbrev pub IsElsewhere : ℕ → Others → Type 0
IsElsewhere ref = All (λ o. ref ≢ o.0)

pub after_others-IsElsewhere :
    (ref : ℕ) (os : Others) (s : Store) → IsElsewhere ref os → after_others os s ref ≡ s ref
unfolding after_others
after_others-IsElsewhere ref [] s h = refl
after_others-IsElsewhere ref ((r, c) ∷ os) s (other, h) = elim (Bool-cases (ref == r)) [
  | inl hit ↦ absurd (other ((==_iff ref r).0 hit))
  | inr miss ↦ after_others-IsElsewhere ref os _ h ∙ rw miss
]

module _ (w : World) (req : ClientRequest) (rt : PlatformRuntime) (ref : ℕ) (rest : Bytes)
    (opts : Options) (deadline : Time) (good : Bytes → Bool) where
  abbrev pub request_with : Bytes → UpstreamRequest
  request_with key = upstream_request rt.transport (forwarded req rest) key

  -- The world of a request whose keys the upstream accepts or refuses, each as the test says: all
  -- attempts come before the deadline and both cooldowns last until then, other requests are on
  -- other pools, and the URL can be parsed.
  pub record IsSteady : Type 0 where
    pub acquired : (n : ℕ) → w.acquired_at n ≤ deadline
    pub limits : (n : ℕ) → deadline ≤ add_duration (w.marked_at n) opts.rate_limit_cooldown
    pub invalidates : (n : ℕ) → deadline ≤ add_duration (w.marked_at n) opts.error_cooldown
    pub before : (n : ℕ) → IsElsewhere ref (w.before n)
    pub during : (n : ℕ) → IsElsewhere ref (w.during n)
    pub parses :
        (key : Bytes) → w.request_error (request_with key).method (request_with key).url ≡ none
    pub answers : (n : ℕ) (key : Bytes) → Answers (good key) (w.send n (request_with key))

  -- The response is the upstream's to an attempt with a good key.
  pub record IsRescued (response : Option Response) : Type 0 where
    pub attempts : ℕ
    pub key : Bytes
    pub is_good : good key ≡ true
    pub passed :
        response
        ≡ some
            (write_upstream_response (read_reply rt.transport (w.send attempts (request_with key))))
