-- ===== src/Start.antt =====
-- cmd/gateway/main.go: the start of the gateway, up to the listener. The flags, the HTTP server with
-- its ServeMux, and the shutdown at a signal are those of the standard library and not modelled.
pub mod Started
pub mod Life
mod Tests
use all2api.Prelude.{Option, List, ◌++◌, if◌then◌else◌, Result, ok, err}
use all2api.Text.{Bytes, bytes, itoa, equal_fold}
use all2api.Config.{Config}
use all2api.Config.Files.{LoadError, Yaml, load}
use all2api.Logstore
use all2api.Logstore.{StoreError, new_store}
use all2api.Gateway.{Manager, BuildError, new_manager}

pub data Level : Type 0 where
  debug info warn error : Level

-- newLogger: the level. No byte of the three words is the lower case of a rune outside ASCII, so to
-- compare the lower case is to compare up to the case of ASCII letters.
unfoldable pub logger_level : Bytes → Level
unfolding equal_fold
logger_level level =
    if equal_fold level (bytes "debug")
    then debug
    else if equal_fold level (bytes "warn")
    then warn
    else if equal_fold level (bytes "error")
    then error
    else info

-- What the files and the environment are when the program starts.
pub record Machine : Type 0 where
  pub yaml : Yaml
  pub env : Bytes → Bytes
  pub config_file : Result Bytes Bytes
  pub mkdir_error : Option Bytes
  pub open_error : Option Bytes
  pub log_lines : List Bytes

-- The errors at which main exits, each with the part that reports it.
pub data StartError : Type 0 where
  not_loaded : LoadError → StartError
  no_log_store : StoreError → StartError
  no_runtime : BuildError → StartError

-- What main hands to the HTTP server.
pub record Running : Type 0 where
  pub level : Level
  pub events : Logstore.Store
  pub manager : Manager
  pub addr : Bytes

-- main, up to the listener
unfoldable pub start : Machine → Result StartError Running
unfolding load new_store new_manager logger_level itoa
start m = elim (load m.yaml.decode m.env m.config_file) [
  | err e ↦ err (not_loaded e)
  | ok cfg ↦ elim (new_store m.mkdir_error m.open_error m.log_lines cfg.management.log_file) [
    | err e ↦ err (no_log_store e)
    | ok events ↦ elim (new_manager m.yaml cfg) [
      | err e ↦ err (no_runtime e)
      | ok manager ↦ ok (record {
        level = logger_level cfg.logging.level;
        events = events;
        manager = manager;
        addr = cfg.server.host ++ (bytes ":" ++ itoa cfg.server.port);
      })
    ]
  ]
]
