-- ===== src/Admin.antt =====
-- internal/admin/admin.go: the management API. The files of the console and the page of the health
-- stand by their names.
pub mod Handlers
pub mod Rule
pub mod Guard
pub mod Change
pub mod Samples
mod Tests
use all2api.Prelude.{
  ℕ, Bool, true, false, not, ◌&&◌, ◌||◌, Option, none, some, List, [], ◌∷◌, ◌++◌, if◌then◌else◌,
  is_empty, is_some, length, ◌==◌, ℤ, pos, leb_ℤ, ltb_ℤ, get_or, Result, ok, err,
}
use all2api.Text.{Bytes, bytes, text_eq, trim_space, strip_prefix, cut_before, equal_fold, atoi}
use all2api.Clock.{Time}
use all2api.Header
use all2api.Header.{Header}
use all2api.Auth.{extract_bearer}
use all2api.Config.{Config}
use all2api.Config.Files.{Yaml, FileWrite}
use all2api.Keypool.{Pool, KeyStateView}
use all2api.Proxy.Exchange
use all2api.Gateway.{Manager, ManagerError, replace_config}
use all2api.Gateway.Overview.{Overview, CredentialPoolRuntime, pools_from, snapshot_pools}
use all2api.Gateway.Docs.Types.{ApiDocs}
use all2api.Logstore
use all2api.Logstore.{Event, Query, ReadError, record_event, clear}

-- The request, with the value that its query has for each name.
pub record AdminRequest : Type 0 where
  pub method : Bytes
  pub path : Bytes
  pub header : Header
  pub query : Bytes → Bytes
  pub body : Bytes
  pub remote_addr : Bytes

-- The JSON forms, the clock, the errors of the log's file, if there are any, the YAML form and the file of
-- the configuration, the status with which the file server of net/http answers for a path, the verb %q of
-- package fmt, and the path of the configuration.
pub record Io : Type 0 where
  pub decode_key : Bytes → Option Bytes
  pub decode_config : Bytes → Option Config
  pub decode_event : Bytes → Option Event
  pub encode_event : Event → Bytes
  pub now : Time
  pub append_error : Option Bytes
  pub read_error : Option Bytes
  pub clear_error : Option Bytes
  pub yaml : Yaml
  pub write : FileWrite
  pub static_status : Bytes → ℕ
  pub quoted : Bytes → Bytes
  pub config_path : Bytes

-- Handler: the manager and the event store that it refers to, of which `none` is the nil pointer, and
-- the pools of the legacy form; `store` has the pools of the manager in their present state, and `file`
-- is the content of the file at the manager's path.
pub record AdminState : Type 0 where
  pub manager : Option Manager
  pub events : Option Logstore.Store
  pub pools : List (Bytes × Pool)
  pub store : Exchange.Store
  pub file : Bytes

-- New, for a handler of the legacy form
abbrev pub new_legacy : List (Bytes × Pool) → Exchange.Store → Bytes → AdminState
new_legacy pools store file = record {
  manager = none;
  events = none;
  pools = pools;
  store = store;
  file = file;
}

-- NewConsole
abbrev pub new_console : Manager → Logstore.Store → Bytes → AdminState
new_console m events file = record {
  manager = some m;
  events = some events;
  pools = [];
  store = m.built.store;
  file = file;
}

-- StatusResponse
pub record StatusResponse : Type 0 where
  pub credential_pools : List CredentialPoolRuntime
  pub keys : List KeyStateView

-- The keys at the top: those of the default pool, if it is the only one.
abbrev pub top_keys : List CredentialPoolRuntime → List KeyStateView
top_keys [] = []
top_keys (p ∷ []) = if text_eq p.name (bytes "default") then p.keys else []
top_keys (p ∷ q ∷ ps) = []

-- currentPools
unfoldable pub current_pools : AdminState → List (Bytes × Pool)
unfolding pools_from
current_pools s = elim s.manager [ none ↦ s.pools | some m ↦ pools_from 0 m.built.pools s.store ]

-- What handleStatus encodes.
unfoldable pub status_response : AdminState → StatusResponse
unfolding current_pools snapshot_pools text_eq
status_response s =
    let pools = snapshot_pools (current_pools s) in
    record { credential_pools = pools; keys = top_keys pools }

pub data Payload : Type 0 where
  failure : Bytes → Payload
  rejected : ManagerError → Payload
  unreadable : ReadError → Payload
  uncleared : Bytes → Payload
  token : Bytes → Payload
  configuration : Config → Payload
  event_list : List Event → Payload
  done : Payload
  pool_status : StatusResponse → Payload
  dashboard : Overview → Payload
  documentation : ApiDocs → Payload
  page redirect : Bytes → Payload

pub record Answer : Type 0 where
  pub status : ℕ
  pub payload : Payload
  pub state : AdminState

-- writeJSON
abbrev pub write_json : ℕ → Payload → AdminState → Answer
write_json status payload s = record { status = status; payload = payload; state = s }

abbrev pub fail_with : ℕ → Bytes → AdminState → Answer
fail_with status code s = write_json status (failure code) s

-- validAdminKey. The comparison in constant time is a comparison.
unfoldable pub valid_admin_key : Option Manager → Bytes → Bool
unfolding text_eq
valid_admin_key none got = false
valid_admin_key (some m) got =
    let want = m.cfg.management.admin_key in
    if is_empty want || is_empty got then false else text_eq want got

-- extractAdminToken; its second half is what extractBearer of package auth does to the trimmed text.
unfoldable pub extract_admin_token : Header → Bytes
unfolding trim_space Header.get extract_bearer
extract_admin_token h =
    let t = trim_space (Header.get h (bytes "X-Admin-Key")) in
    if is_empty t then extract_bearer (trim_space (Header.get h (bytes "Authorization"))) else t

-- The event of an action of the console.
abbrev pub admin_event : Io → Bytes → Bytes → Bytes → AdminRequest → Event
admin_event io level message action r = record {
  time = io.now;
  kind = bytes "admin";
  level = level;
  message = message;
  platform = [];
  pool = [];
  key_label = [];
  method = r.method;
  path = r.path;
  status_code = 0;
  duration_ms = pos 0;
  attempts = 0;
  action = action;
  actor = [];
  error = [];
  remote_addr = r.remote_addr;
}

-- recordAdmin
unfoldable pub record_admin : Io → Bytes → Bytes → Bytes → AdminRequest → AdminState → AdminState
unfolding record_event
record_admin io level message action r s = elim s.events [
  | none ↦ s
  | some log ↦ record s {
    events = some (
        record_event io.encode_event io.append_error io.now (admin_event io level message action r)
          log);
  }
]
