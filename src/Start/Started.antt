-- ===== src/Start/Started.antt =====
-- main: the gateway starts, or one of its files is at fault.
use all2api.Prelude.{
  ◌≡◌, refl, ◌⊎◌, inl, inr, false, none, some, is_empty, ◌++◌, arith, Result, ok, err, Result-cases,
  Option-cases,
}
use all2api.Text.{Bytes, bytes, itoa}
use all2api.Config.{Config}
use all2api.Config.Validate.{validate, fill_defaults}
use all2api.Config.Usable.{IsUsable}
use all2api.Config.Accepted.{validate_lem, validate_parts_lem, validate-IsUsable, prepared}
use all2api.Config.Files.{LoadError, load, clone_lem}
use all2api.Config.Secrets.{load_lem}
use all2api.Logstore.{not_created, not_opened, new_store}
use all2api.Gateway.{Built, build_proxy, new_manager}
use all2api.Gateway.Route.{IsGateway, build_proxy-IsGateway}
use all2api.Start.{Machine, Running, StartError, not_loaded, no_log_store, start, logger_level}

fill_defaults-log_file : (c : Config) → is_empty (fill_defaults c).management.log_file ≡ false
unfolding fill_defaults
fill_defaults-log_file c = ground arith

validate-log_file : (c c' : Config) → validate c ≡ ok c' → is_empty c'.management.log_file ≡ false
validate-log_file c c' h =
    let (_, _, _, _, parts) = validate_lem c c' h in
    let (pools, platforms, _, _, same) = validate_parts_lem (prepared c) c' parts in
    rw same (fill_defaults-log_file _)

-- The gateway runs the configuration of the file, which is usable, with a proxy that routes to its
-- platforms.
pub record IsRunning (m : Machine) (r : Running) : Type 0 where
  pub loaded : load m.yaml.decode m.env m.config_file ≡ ok r.manager.cfg
  pub usable : IsUsable r.manager.cfg
  pub built : build_proxy r.manager.cfg ≡ ok r.manager.built
  pub gateway : IsGateway r.manager.cfg r.manager.built
  pub lines : r.events.lines ≡ m.log_lines
  pub listens : r.addr ≡ r.manager.cfg.server.host ++ (bytes ":" ++ itoa r.manager.cfg.server.port)

-- The configuration file, or the directory or the file of the log.
abbrev IsFault : Machine → StartError → Type 0
IsFault m e =
    ((x : LoadError) × (load m.yaml.decode m.env m.config_file ≡ err x) × (e ≡ not_loaded x))
    ⊎ ((x : Bytes) × (m.mkdir_error ≡ some x) × (e ≡ no_log_store (not_created x)))
    ⊎ ((x : Bytes) × (m.mkdir_error ≡ none)
        × (m.open_error ≡ some x)
        × (e ≡ no_log_store (not_opened x)))

abbrev pub IsStarted : Machine → Result StartError Running → Type 0
IsStarted m (ok r) = IsRunning m r × (m.mkdir_error ≡ none) × (m.open_error ≡ none)
IsStarted m (err e) = IsFault m e

pub load-validated :
    (decode : Bytes → Result Bytes Config) (env : Bytes → Bytes) (r : Result Bytes Bytes)
    (c : Config)
    → load decode env r ≡ ok c
    → (o : Config) × (validate o ≡ ok c)
unfolding load
load-validated decode env (err x) c h = cc
load-validated decode env (ok file) c h =
    let (raw, overridden, _, _, valid) = load_lem env decode file c h in (overridden, valid)

start_unloaded :
    (m : Machine) (x : LoadError)
    → load m.yaml.decode m.env m.config_file ≡ err x
    → start m ≡ err (not_loaded x)
unfolding start
start_unloaded m x e = rw (e, start)

module _ (m : Machine) (cfg : Config) (loaded : load m.yaml.decode m.env m.config_file ≡ ok cfg)
    (path : is_empty cfg.management.log_file ≡ false) where
  start_not_created :
      (x : Bytes) → m.mkdir_error ≡ some x → start m ≡ err (no_log_store (not_created x))
  unfolding start
  start_not_created x e = rw (loaded, start) (rw (path, new_store) (rw e))

  start_not_opened :
      (x : Bytes)
      → m.mkdir_error ≡ none
      → m.open_error ≡ some x
      → start m ≡ err (no_log_store (not_opened x))
  unfolding start
  start_not_opened x e f = rw (loaded, start) (rw (path, new_store) (rw (e, new_store) (rw f)))

  start_running :
      (built : Built)
      → m.mkdir_error ≡ none
      → m.open_error ≡ none
      → build_proxy cfg ≡ ok built
      → start m
        ≡ ok (record {
          level = logger_level cfg.logging.level;
          events = record { lines = m.log_lines };
          manager = record { cfg = cfg; built = built };
          addr = cfg.server.host ++ (bytes ":" ++ itoa cfg.server.port);
        })
  unfolding start
  start_running built e f g =
      rw (loaded, start)
        (rw (path, new_store)
          (rw (e, new_store) (rw (f, new_store) (rw (g, new_manager) (rw (clone_lem m.yaml cfg))))))

-- The program starts, and then it runs the configuration of the file under the environment, which is
-- usable, with a proxy that routes to its platforms and with the log that was there; or it exits, and
-- then Load fails, or the directory or the file of the log cannot be made: the log always has a path,
-- and the proxy can always be built.
pub start-IsStarted : (m : Machine) → IsStarted m (start m)
start-IsStarted m = elim (Result-cases (load m.yaml.decode m.env m.config_file)) [
  | inr (x, e) ↦ rw (start_unloaded m x e) (inl (x, e, refl))
  | inl (cfg, loaded) ↦
      let (o, valid) = load-validated m.yaml.decode m.env m.config_file cfg loaded in
      let path = validate-log_file o cfg valid in
      elim (Option-cases m.mkdir_error) [
        | inr (x, e) ↦ rw (start_not_created m cfg loaded path x e) (inr (inl (x, e, refl)))
        | inl made ↦ elim (Option-cases m.open_error) [
          | inr (x, e) ↦
              rw (start_not_opened m cfg loaded path x made e) (inr (inr (x, made, e, refl)))
          | inl opened ↦
              let (built, is_built, gateway) = build_proxy-IsGateway o cfg valid in
              rw (start_running m cfg loaded path built made opened is_built) (
                record {
                  loaded = loaded;
                  usable = validate-IsUsable o cfg valid;
                  built = is_built;
                  gateway = gateway;
                  lines = refl;
                  listens = refl;
                },
                made,
                opened,
              )
        ]
      ]
]
