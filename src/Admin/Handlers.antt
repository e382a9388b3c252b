-- ===== src/Admin/Handlers.antt =====
-- internal/admin/admin.go: the handlers and the routes of the management API. An answer has the error
-- itself in place of its text, no text for a body that is no JSON, and no name of the log's file.
use all2api.Prelude.{
  ℕ, not, ◌||◌, Option, none, some, if◌then◌else◌, is_some, ℤ, pos, leb_ℤ, ltb_ℤ, get_or, ok, err,
}
use all2api.Text.{Bytes, bytes, text_eq, strip_prefix, atoi}
use all2api.Gateway.{Manager, replace_config}
use all2api.Gateway.Overview.{overview}
use all2api.Gateway.Docs.{api_docs}
use all2api.Logstore
use all2api.Logstore.{Event, Query, ReadError, record_event, clear}
use all2api.Admin.{
  AdminRequest, Io, AdminState, Answer, write_json, fail_with, valid_admin_key, extract_admin_token,
  record_admin, rejected, unreadable, uncleared, token, configuration, event_list, done, page,
  Payload, dashboard, documentation, pool_status, status_response, redirect,
}

-- handleSession
unfoldable pub handle_session : Io → AdminRequest → AdminState → Answer
unfolding valid_admin_key record_admin text_eq
handle_session io r s =
    if not (text_eq r.method (bytes "POST"))
    then fail_with 405 (bytes "method_not_allowed") s
    else elim (io.decode_key r.body) [
      | none ↦ fail_with 400 (bytes "bad_request") s
      | some key ↦
          if valid_admin_key s.manager key
          then write_json 200 (token key)
              (record_admin io (bytes "info") (bytes "login succeeded") (bytes "login") r s)
          else fail_with 401 (bytes "unauthorized")
              (record_admin io (bytes "warn") (bytes "login failed") (bytes "login_failed") r s)
    ]

-- handleConfig, with the manager that is there.
unfoldable pub handle_config : Io → AdminRequest → AdminState → Answer
unfolding replace_config record_admin text_eq
handle_config io r s = elim s.manager [
  | none ↦ fail_with 503 (bytes "manager_unavailable") s
  | some m ↦
      if text_eq r.method (bytes "GET")
      then write_json 200 (configuration m.cfg) s
      else if text_eq r.method (bytes "PUT")
      then elim (io.decode_config r.body) [
        | none ↦ fail_with 400 (bytes "bad_request") s
        | some next ↦
            let (m', file, e) = replace_config io.yaml io.write next m s.file in
            elim e [
              | some x ↦ write_json 400 (rejected x) (record s { manager = some m'; file = file })
              | none ↦ write_json 200 done (
                  record_admin io (bytes "info") (bytes "config updated and runtime reloaded")
                    (bytes "config_update") r
                    (record s { manager = some m'; store = m'.built.store; file = file }))
            ]
      ]
      else fail_with 405 (bytes "method_not_allowed") s
]

-- logReadLimit
unfoldable pub log_read_limit : Option Manager → ℤ
log_read_limit none = pos 500
log_read_limit (some m) =
    let limit = m.cfg.management.log_read_limit in if leb_ℤ limit (pos 0) then pos 500 else limit

-- The query of handleLogs; a limit that is no number is 0.
unfoldable pub log_query : AdminRequest → Option Manager → Query
unfolding atoi log_read_limit
log_query r m =
    let most = log_read_limit m in
    let asked = get_or (atoi (r.query (bytes "limit"))) (pos 0) in
    let limit = if leb_ℤ asked (pos 0) then most else asked in
    record {
      limit = if ltb_ℤ most limit then most else limit;
      kind = r.query (bytes "kind");
      level = r.query (bytes "level");
      platform = r.query (bytes "platform");
    }

-- The case of DELETE in handleLogs.
unfoldable pub clear_logs : Io → AdminRequest → Logstore.Store → AdminState → Answer
unfolding clear record_admin
clear_logs io r log s =
    let (log', e) = clear io.clear_error log in
    let s' = record s { events = some log' } in
    elim e [
      | some x ↦ write_json 500 (uncleared x) s'
      | none ↦
          write_json 200 done
            (record_admin io (bytes "warn") (bytes "logs cleared") (bytes "logs_clear") r s')
    ]

-- handleLogs
unfoldable pub handle_logs : Io → AdminRequest → AdminState → Answer
unfolding Logstore.read clear_logs log_query text_eq
handle_logs io r s = elim s.events [
  | none ↦ fail_with 503 (bytes "logs_unavailable") s
  | some log ↦
      if text_eq r.method (bytes "GET")
      then elim (Logstore.read io.decode_event io.read_error (log_query r s.manager) log) [
        | err e ↦ write_json 500 (unreadable e) s
        | ok events ↦ write_json 200 (event_list events) s
      ]
      else if text_eq r.method (bytes "DELETE")
      then clear_logs io r log s
      else fail_with 405 (bytes "method_not_allowed") s
]

-- What the manager has to say, if there is one.
unfoldable pub manager_page : (Manager → Payload) → AdminState → Option Manager → Answer
manager_page payload s none = fail_with 503 (bytes "manager_unavailable") s
manager_page payload s (some m) = write_json 200 (payload m) s

-- A page that only GET may read, made by the manager, if there is one.
unfoldable pub handle_page : (Manager → Payload) → AdminRequest → AdminState → Answer
unfolding manager_page text_eq
handle_page payload r s =
    if not (text_eq r.method (bytes "GET"))
    then fail_with 405 (bytes "method_not_allowed") s
    else manager_page payload s s.manager

-- handleOverview
unfoldable pub handle_overview : Io → AdminRequest → AdminState → Answer
unfolding handle_page overview
handle_overview io r s = handle_page (λ m. dashboard (overview io.config_path m s.store)) r s

-- handleDocs
unfoldable pub handle_docs : Io → AdminRequest → AdminState → Answer
unfolding handle_page api_docs
handle_docs io r s = handle_page (λ m. documentation (api_docs io.quoted m.cfg)) r s

-- handleStatus
unfoldable pub handle_status : AdminState → Answer
unfolding status_response
handle_status s = write_json 200 (pool_status (status_response s)) s

-- requireAdmin
unfoldable pub require_admin : AdminRequest → (AdminState → Answer) → AdminState → Answer
unfolding valid_admin_key extract_admin_token
require_admin r next s =
    if valid_admin_key s.manager (extract_admin_token r.header)
    then next s
    else fail_with 401 (bytes "unauthorized") s

-- The handler that staticHandler returns: the status of its answer.
unfoldable pub static_handler : Io → Bytes → ℕ
unfolding strip_prefix
static_handler io path =
    if is_some (strip_prefix (bytes "/__admin/") path)
      || is_some (strip_prefix (bytes "/__docs/") path)
    then io.static_status path
    else 404

-- serveUI and serveDocsUI
unfoldable pub serve_static : Io → AdminRequest → AdminState → Answer
unfolding text_eq static_handler
serve_static io r s =
    if text_eq r.path (bytes "/__admin")
    then write_json 302 (redirect (bytes "/__admin/")) s
    else if text_eq r.path (bytes "/__docs")
    then write_json 302 (redirect (bytes "/__docs/")) s
    else let file =
        if text_eq r.path (bytes "/__docs/") then bytes "/__docs/docs.html" else r.path in
      write_json (static_handler io file) (page file) s

-- ServeHTTP
unfoldable pub serve_admin : Io → AdminRequest → AdminState → Answer
unfolding serve_static require_admin handle_session handle_config handle_logs handle_overview
    handle_docs handle_status strip_prefix text_eq
serve_admin io r s =
    if is_some (strip_prefix (bytes "/__admin") r.path)
      || is_some (strip_prefix (bytes "/__docs") r.path)
    then serve_static io r s
    else if text_eq r.path (bytes "/__gateway/status")
    then handle_status s
    else if text_eq r.path (bytes "/__gateway/health")
    then write_json 200 (page r.path) s
    else if text_eq r.path (bytes "/__gateway/admin/session")
    then handle_session io r s
    else if text_eq r.path (bytes "/__gateway/admin/overview")
    then require_admin r (handle_overview io r) s
    else if text_eq r.path (bytes "/__gateway/admin/config")
    then require_admin r (handle_config io r) s
    else if text_eq r.path (bytes "/__gateway/admin/logs")
    then require_admin r (handle_logs io r) s
    else if text_eq r.path (bytes "/__gateway/docs")
    then handle_docs io r s
    else fail_with 404 (bytes "404 page not found") s
