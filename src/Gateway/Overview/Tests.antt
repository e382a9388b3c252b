-- ===== src/Gateway/Overview/Tests.antt =====
-- The dashboard of the gateway with the configuration in the legacy form, one key of which is limited.
use all2api.Prelude.{◌≡◌, refl, [], ◌∷◌}
use all2api.Text.{bytes, text_eq}
use all2api.Config.Samples.{legacy, accepted, validate-legacy}
use all2api.Keypool.{rate_limited}
use all2api.Proxy.Exchange.{Store}
use all2api.Proxy.Samples.{key_of}
use all2api.Proxy.Samples
use all2api.Gateway.{Manager}
use all2api.Gateway.Route.{build_proxy-IsGateway}
use all2api.Gateway.Overview.{overview, count_pools, no_keys, snapshot_pools}
use all2api.Gateway.Overview.Counts.{IsOverview, overview-IsOverview}

abbrev manager : Manager
manager = record {
  cfg = accepted;
  built = (build_proxy-IsGateway legacy accepted validate-legacy).0;
}

-- One key of two is limited.
abbrev limited : Store
limited r = record (Samples.store r) {
  keys =
      record (key_of (bytes "first") (bytes "secret-0001")) { status = rate_limited }
      ∷ key_of (bytes "other") (bytes "secret-0002")
      ∷ [];
}

overview-IsOverview_example :
    IsOverview manager limited (overview (bytes "config.yaml") manager limited)
overview-IsOverview_example = overview-IsOverview (bytes "config.yaml") manager limited

count_test :
    count_pools no_keys
      (snapshot_pools ((bytes "weather", limited 0) ∷ (bytes "default", limited 1) ∷ []))
    ≡ record { key_count = 4; active_key_count = 2; problem_key_count = 2 }
unfolding count_pools snapshot_pools text_eq
count_test = refl
