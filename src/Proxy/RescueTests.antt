-- ===== src/Proxy/RescueTests.antt =====
-- A pool whose first key is refused: the request is answered with the second.
use all2api.Prelude.{ℕ, ◌+◌, ◌*◌, ◌≡◌, refl, inl, inr, [], Bool, true, false, if◌then◌else◌, arith}
use all2api.Text.{Bytes, bytes, text_eq}
use all2api.Header
use all2api.Table.{lookup}
use all2api.Clock.{Time, second, nanos_per_day, add_duration}
use all2api.Keypool.Ready.{IsReady}
use all2api.Keypool.Traps.{count_traps}
use all2api.Provider.{classify_status}
use all2api.Proxy.{split_platform}
use all2api.Proxy.Transport.{UpstreamRequest, Reply, replied, upstream_request}
use all2api.Proxy.Exchange.{World, authorize_request}
use all2api.Proxy.Serve.{serve, forwarded}
use all2api.Proxy.Steady.{Answers, IsSteady, IsRescued}
use all2api.Proxy.Rescue.{serve-IsRescued}
use all2api.Proxy.Samples.{store, runtime, handler, request, calm, distinct, upstream}

abbrev good : Bytes → Bool
good key = text_eq key (bytes "secret-0002")

-- 200 for the second key, 429 for each other.
abbrev reply_by_key : UpstreamRequest → Reply
reply_by_key out =
    if good (Header.get out.header (bytes "X-Apisports-Key"))
    then replied 200 [] (bytes "[]")
    else replied 429 [] []

abbrev sorted_world : World
sorted_world = record calm { send = λ n out. reply_by_key out }

abbrev deadline : Time
deadline = 738000 * nanos_per_day + 9 * second

-- The key that the upstream reads.
credential_test :
    (key : Bytes)
    → Header.get
        (upstream_request upstream (forwarded request (bytes "/fixtures")) key).header
        (bytes "X-Apisports-Key")
      ≡ key
unfolding upstream_request Header.get text_eq
credential_test key = refl

replied-Answers :
    (b : Bool) → Answers b (if b then replied 200 [] (bytes "[]") else replied 429 [] [])
unfolding classify_status
replied-Answers true = (200, [], bytes "[]", refl, inl refl)
replied-Answers false = (429, [], [], refl, inl refl)

reply_by_key-Answers :
    (n : ℕ) (key : Bytes)
    → Answers
        (good key)
        (reply_by_key (upstream_request upstream (forwarded request (bytes "/fixtures")) key))
reply_by_key-Answers n key = rw (credential_test key) (replied-Answers (good key))

abbrev steady :
    IsSteady sorted_world request runtime 0 (bytes "/fixtures") (store 0).opts deadline good
unfolding add_duration
steady = record {
  acquired = λ n. omega arith;
  limits = λ n. omega arith;
  invalidates = λ n. omega arith;
  before = λ n. tt;
  during = λ n. tt;
  parses = λ key. refl;
  answers = reply_by_key-Answers;
}

abbrev ready : IsReady (store 0).opts deadline good 3 (store 0)
unfolding count_traps text_eq
ready = record {
  options = refl;
  distinct = distinct;
  has_good = inr (inl (refl, refl));
  traps = omega arith;
}

serve-IsRescued_example :
    IsRescued sorted_world request runtime 0
      (split_platform request.path).1
      (store 0).opts
      deadline
      good
      (serve handler sorted_world request store).response
unfolding split_platform lookup text_eq authorize_request
serve-IsRescued_example =
    serve-IsRescued handler sorted_world request runtime 0 (store 0).opts deadline good store refl
      refl refl tt steady ready
