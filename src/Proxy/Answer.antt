-- ===== src/Proxy/Answer.antt =====
-- What the client and the log get to see of a request.
use all2api.Prelude.{ℕ, pos, ◌≡◌, refl, ◌⊎◌, inl, inr, Option, none, some, [], ◌∷◌, true, ◌∙◌, sym}
use all2api.Text.{Bytes, bytes}
use all2api.Provider.{success, client_error, classify_status}
use all2api.Logstore.{Event}
use all2api.Proxy.{Handler, PlatformRuntime}
use all2api.Proxy.Transport.{UpstreamResult}
use all2api.Proxy.Exchange.{
  ClientRequest, Store, World, Served, Response, ResponseBody, raw, json, refuse,
  record_proxy_event, base_event, write_json_error, write_upstream_response,
}
use all2api.Proxy.Serve.{give_up, pass_through, disconnect, serve}
use all2api.Proxy.Rule.{IsRule, IsClassified}
use all2api.Proxy.ServeRule.{serve_rule, IsRefusal, IsEventOf}

-- The status of a response that the gateway makes itself, and of one that it passes on.
abbrev pub MayAnswer : ResponseBody → ℕ → Type 0
MayAnswer (json e) status =
    IsRefusal status e.error ⊎ ((status ≡ 503) × (e.error ≡ bytes "all_keys_unavailable"))
MayAnswer (raw b) status =
    (classify_status status ≡ success) ⊎ (classify_status status ≡ client_error)

abbrev pub IsHonest : Option Response → Type 0
IsHonest none = Unit {0}
IsHonest (some r) = MayAnswer r.body r.status

-- The status of the response, or 0 where there is none, stands in the event.
abbrev pub TellsStatus : Option Response → Event → Type 0
TellsStatus none e = e.status_code ≡ 0
TellsStatus (some r) e = e.status_code ≡ r.status

abbrev pub IsLogged : ClientRequest → Served → Type 0
IsLogged req r =
    (e : Event) × (r.events ≡ e ∷ [])
    × (e.kind ≡ bytes "proxy")
    × (e.method ≡ req.method)
    × (e.path ≡ req.path)
    × TellsStatus r.response e

module _ (h : Handler) (w : World) (req : ClientRequest) where
  abbrev Honest : Served → Type 0
  Honest r = IsHonest r.response

  passed_on :
      (res : UpstreamResult)
      → IsClassified res
      → (res.kind ≡ success) ⊎ (res.kind ≡ client_error)
      → (classify_status res.status_code ≡ success)
        ⊎ (classify_status res.status_code ≡ client_error)
  passed_on res (inl failed) (inl k) = cc
  passed_on res (inl failed) (inr k) = cc
  passed_on res (inr same) (inl k) = inl (sym same ∙ k)
  passed_on res (inr same) (inr k) = inr (sym same ∙ k)

  loop-Honest :
      (platform : Bytes) (rt : PlatformRuntime) (ref : ℕ) (rest : Bytes)
      → IsRule h w req platform rt ref rest Honest (λ _. Unit)
  unfolding give_up pass_through disconnect write_json_error write_upstream_response
  loop-Honest platform rt ref rest = record {
    keeps = λ s r c i. tt;
    gives_up = λ n s i. inr (refl, refl);
    passes = λ n handle res message s i c k. passed_on res c k;
    leaves = λ n handle reason s i. tt;
    sends = λ n s now handle r _ _ p. p;
  }

  refuse-Honest :
      (s : Store) (status : ℕ) (code message : Bytes) (e : Event)
      → IsRefusal status code
      → Honest (refuse h s status code message e)
  unfolding refuse write_json_error
  refuse-Honest s status code message e r = inl r

  one_event :
      (r : Option Response) (e : Event)
      → h.event_sink ≡ true
      → (e.method ≡ req.method) × (e.path ≡ req.path)
      → TellsStatus r e
      → (f : Event) × (record_proxy_event h e ≡ f ∷ [])
        × (f.kind ≡ bytes "proxy")
        × (f.method ≡ req.method)
        × (f.path ≡ req.path)
        × TellsStatus r f
  unfolding record_proxy_event
  one_event none e on same t = (record e { kind = bytes "proxy" }, rw on, refl, same.0, same.1, t)
  one_event (some r) e on same t =
      (record e { kind = bytes "proxy" }, rw on, refl, same.0, same.1, t)

  module _ (on : h.event_sink ≡ true) where
    refuse-IsLogged :
        (s : Store) (status : ℕ) (code message : Bytes) (e : Event)
        → IsEventOf req status e
        → IsLogged req (refuse h s status code message e)
    unfolding refuse write_json_error
    refuse-IsLogged s status code message e (t, m, p) =
        one_event (some (write_json_error status code message [] (pos 0))) e on (m, p) t

    loop-IsLogged :
        (platform : Bytes) (rt : PlatformRuntime) (ref : ℕ) (rest : Bytes)
        → IsRule h w req platform rt ref rest (IsLogged req) (λ _. Unit)
    unfolding give_up pass_through disconnect base_event write_json_error write_upstream_response
    loop-IsLogged platform rt ref rest = record {
      keeps = λ s r c i. tt;
      gives_up =
          λ n s i. one_event (give_up h w req platform rt ref n s).response _ on (refl, refl) refl;
      passes = λ n handle res message s i c k.
          one_event (pass_through h w req platform rt ref n handle res message s).response _ on
            (refl, refl) refl;
      leaves = λ n handle reason s i.
          one_event (disconnect h w req platform rt ref n handle reason s).response _ on
            (refl, refl) refl;
      sends = λ n s now handle r _ _ p. p;
    }

-- A response that the gateway passes on has a status of the classes success or client error, so no
-- 401, 403, 429 or 5xx of the upstream reaches the client; the responses that the gateway makes
-- itself are the four refusals, and 503 with the code all_keys_unavailable.
pub serve-IsHonest :
    (h : Handler) (w : World) (req : ClientRequest) (s : Store)
    → IsHonest (serve h w req s).response
serve-IsHonest h w req s =
    serve_rule h w req (Honest h w req) (λ _. Unit)
      (record {
        refuses = λ t status code message e _ r _. refuse-Honest h w req t status code message e r;
        loops = λ platform rt ref _ _ _. loop-Honest h w req platform rt ref _;
      })
      s tt

-- With a sink each request records exactly one event, of the kind proxy, with the request's method
-- and path, and with the status of the response, or 0 if none is written.
pub serve-IsLogged :
    (h : Handler) (w : World) (req : ClientRequest) (s : Store)
    → h.event_sink ≡ true
    → IsLogged req (serve h w req s)
serve-IsLogged h w req s on =
    serve_rule h w req (IsLogged req) (λ _. Unit)
      (record {
        refuses = λ t status code message e _ _ same.
            refuse-IsLogged h w req on t status code message e same;
        loops = λ platform rt ref _ _ _. loop-IsLogged h w req on platform rt ref _;
      })
      s tt
