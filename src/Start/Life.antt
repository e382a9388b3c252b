-- ===== src/Start/Life.antt =====
-- The life of a gateway that started: requests of clients and requests to the management API, one
-- behind another in any order. What other requests do to the keys while one is served is in its World.
use all2api.Prelude.{◌≡◌, refl, ◌∙◌, inl, inr, Option, none, some, List, [], ◌∷◌, All, ok}
use all2api.Text.{Bytes}
use all2api.Config.{Config}
use all2api.Config.Validate.{validate}
use all2api.Config.Usable.{IsUsable}
use all2api.Config.Accepted.{validate-IsUsable}
use all2api.Logstore
use all2api.Logstore.{Event, record_event}
use all2api.Proxy.Exchange.{ClientRequest, World, Served}
use all2api.Proxy.Pools.{SameKeys, identity-serve}
use all2api.Gateway.{Manager, build_proxy, serve_http}
use all2api.Gateway.Replace.{replace_config-IsReplaced}
use all2api.Gateway.Sent.{IsConfigured, serve-IsConfigured}
use all2api.Admin.{AdminRequest, Io, AdminState, new_console}
use all2api.Admin.Handlers.{serve_admin}
use all2api.Admin.Change.{serve_admin-IsChange}
use all2api.Start.{Machine, Running, start}
use all2api.Start.Started.{IsStarted, start-IsStarted, load-validated}

-- The log behind some events.
abbrev record_all : Io → List Event → Option Logstore.Store → Option Logstore.Store
record_all io [] log = log
record_all io (e ∷ es) none = none
record_all io (e ∷ es) (some log) =
    record_all io es (some (record_event io.encode_event io.append_error io.now e log))

-- The gateway behind a request of a client.
abbrev pub after_request : Io → Served → AdminState → AdminState
after_request io served s = record s {
  store = served.store;
  events = record_all io served.events s.events;
}

-- A request to the management API; a request of a client, through the proxy in use; and the events of
-- a request that came before a replacement and ends behind it: it goes on with the proxy and the keys
-- that were replaced, to which nothing here refers any more.
pub data Step : AdminState → AdminState → Type 0 where
  administers : (io : Io) (r : AdminRequest) (s : AdminState) → Step s (serve_admin io r s).state
  serves :
      (io : Io) (w : World) (req : ClientRequest) (m : Manager) (s : AdminState)
      → s.manager ≡ some m
      → Step s (after_request io (serve_http m w req s.store) s)
  outlives :
      (io : Io) (es : List Event) (s : AdminState)
      → Step s (record s { events = record_all io es s.events })

pub data Reaches (s : AdminState) : AdminState → Type 0 where
  stays : Reaches s s
  then_steps : {t u : AdminState} → Reaches s t → Step t u → Reaches s u

-- The configuration in use passed Validate, the proxy is built from it, and the pools hold the keys
-- that they were built with.
pub record IsLive (s : AdminState) : Type 0 where
  pub in_use : Manager
  pub is_in_use : s.manager ≡ some in_use
  pub given : Config
  pub valid : validate given ≡ ok in_use.cfg
  pub built : build_proxy in_use.cfg ≡ ok in_use.built
  pub same : SameKeys in_use.built.store s.store

serve_admin-IsLive :
    (io : Io) (r : AdminRequest) (s : AdminState) → IsLive s → IsLive (serve_admin io r s).state
serve_admin-IsLive io r s live = elim ((serve_admin-IsChange io r s).change) [
  | inl (manager, store) ↦ record {
    in_use = live.in_use;
    is_in_use = manager ∙ live.is_in_use;
    given = live.given;
    valid = live.valid;
    built = live.built;
    same = rw store live.same;
  }
  | inr (m, m', next, here, replaced, manager, store) ↦
      elim (rw replaced at (replace_config-IsReplaced io.yaml io.write next m s.file)) [
        | inl (_, _, valid, built, _) ↦ record {
          in_use = m';
          is_in_use = manager;
          given = next;
          valid = valid;
          built = built;
          same = rw store (λ r. refl);
        }
        | inr (_, inl (x, _, _, e)) ↦ cc
        | inr (_, inr (x, _, _, e)) ↦ cc
      ]
]

Step-IsLive : {s t : AdminState} → Step s t → IsLive s → IsLive t
Step-IsLive (administers io r s) live = serve_admin-IsLive io r s live
Step-IsLive (serves io w req m s here) live = record {
  in_use = live.in_use;
  is_in_use = live.is_in_use;
  given = live.given;
  valid = live.valid;
  built = live.built;
  same = λ r. identity-serve m.built.handler w req s.store r ∙ live.same r;
}
Step-IsLive (outlives io es s) live = record {
  in_use = live.in_use;
  is_in_use = live.is_in_use;
  given = live.given;
  valid = live.valid;
  built = live.built;
  same = live.same;
}

Reaches-IsLive : {s t : AdminState} → Reaches s t → IsLive s → IsLive t
Reaches-IsLive stays live = live
Reaches-IsLive (then_steps r st) live = Step-IsLive st (Reaches-IsLive r live)

running-IsLive :
    (m : Machine) (r : Running) (file : Bytes)
    → start m ≡ ok r
    → IsLive (new_console r.manager r.events file)
running-IsLive m r file started =
    let (running, _, _) : IsStarted m (ok r) = rw started at (start-IsStarted m) in
    let (given, valid) =
      load-validated m.yaml.decode m.env m.config_file r.manager.cfg running.loaded in
    record {
      in_use = r.manager;
      is_in_use = refl;
      given = given;
      valid = valid;
      built = running.built;
      same = λ r. refl;
    }

-- The manager is there, its configuration is usable, the pools hold the keys that were built from it,
-- and a request is sent nowhere but where it says, with a key that it gives, for a client that it admits.
abbrev pub IsServing : AdminState → World → ClientRequest → Type 0
IsServing s w req =
    (m : Manager) × (s.manager ≡ some m)
    × IsUsable m.cfg
    × (build_proxy m.cfg ≡ ok m.built)
    × SameKeys m.built.store s.store
    × All (IsConfigured m.cfg req) (serve_http m w req s.store).sent

-- Once the program has started, whatever requests of clients and of the management API it has served,
-- in whatever order: its manager has a usable configuration, its pools hold the keys that were built
-- from it, and whatever the next request of a client makes it send goes to the platform of this
-- configuration that the path names, with a key of the credential pool that the platform names, for a
-- client that this configuration admits.
pub Reaches-IsServing :
    (m : Machine) (r : Running) (file : Bytes) (s : AdminState) (w : World) (req : ClientRequest)
    → start m ≡ ok r
    → Reaches (new_console r.manager r.events file) s
    → IsServing s w req
Reaches-IsServing m r file s w req started reached =
    let live = Reaches-IsLive reached (running-IsLive m r file started) in
    (
      live.in_use,
      live.is_in_use,
      validate-IsUsable live.given live.in_use.cfg live.valid,
      live.built,
      live.same,
      serve-IsConfigured live.given live.in_use.cfg live.in_use.built w req s.store live.valid
          live.built live.same,
    )
