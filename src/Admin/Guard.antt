-- ===== src/Admin/Guard.antt =====
-- The management API changes something only for a request with the admin key.
use all2api.Prelude.{
  not_empty, ℕ, ◌≡◌, ◌≢◌, refl, sym, ◌⊎◌, inl, inr, true, not, Bool-cases, Option, none, some,
  Option-cases, List, [], ◌∷◌, ◌++◌, append-nil, arith,
}
use all2api.Text.{Bytes, bytes, text_eq}
use all2api.Text.Equality.{text_eq_iff}
use all2api.Clock.{Time}
use all2api.Logstore
use all2api.Logstore.{Event, record_event, append}
use all2api.Gateway.{Manager}
use all2api.Admin.{
  AdminRequest, Io, AdminState, Answer, valid_admin_key, extract_admin_token, record_admin,
  write_json, Payload, admin_event,
}
use all2api.Admin.Rule.{if_holds, serve_admin_rule}
use all2api.Admin.Handlers.{
  handle_session, handle_overview, require_admin, serve_admin, handle_config, handle_logs,
}

-- The request shows the admin key of the configuration in use, which is not empty.
abbrev pub IsAdmin : AdminRequest → AdminState → Type 0
IsAdmin r s =
    (m : Manager) × (s.manager ≡ some m)
    × (m.cfg.management.admin_key ≢ [])
    × (m.cfg.management.admin_key ≡ extract_admin_token r.header)

-- The second log has all lines of the first, and perhaps more behind them.
abbrev pub IsLonger : Option Logstore.Store → Option Logstore.Store → Type 0
IsLonger none o = o ≡ none
IsLonger (some log) o =
    (log' : Logstore.Store) × (o ≡ some log') × ((ls : List Bytes) × (log'.lines ≡ log.lines ++ ls))

pub record IsGuarded (r : AdminRequest) (s : AdminState) (a : Answer) : Type 0 where
  pub guarded :
      IsAdmin r s
      ⊎ ((a.state.manager ≡ s.manager)
          × (a.state.store ≡ s.store)
          × (a.state.file ≡ s.file)
          × IsLonger s.events a.state.events)

IsLonger-refl : (o : Option Logstore.Store) → IsLonger o o
IsLonger-refl none = refl
IsLonger-refl (some log) = (log, refl, ([], sym (append-nil log.lines)))

valid_admin_key-IsAdmin :
    (o : Option Manager) (got : Bytes)
    → valid_admin_key o got ≡ true
    → (m : Manager) × (o ≡ some m)
      × (m.cfg.management.admin_key ≢ [])
      × (m.cfg.management.admin_key ≡ got)
unfolding valid_admin_key
valid_admin_key-IsAdmin none got h = cc
valid_admin_key-IsAdmin (some m) got h =
    let want = m.cfg.management.admin_key in
    (m, refl, ground (arith, not_empty want), ground (arith, text_eq_iff want got))

record_event-lines :
    (encode : Event → Bytes) (e : Option Bytes) (now : Time) (event : Event) (log : Logstore.Store)
    → (ls : List Bytes) × ((record_event encode e now event log).lines ≡ log.lines ++ ls)
unfolding record_event
record_event-lines encode none now event log = (_ ∷ [], refl)
record_event-lines encode (some x) now event log = ([], sym (append-nil log.lines))

pub record_admin-state :
    (io : Io) (level message action : Bytes) (r : AdminRequest) (s : AdminState)
    → ((record_admin io level message action r s).manager ≡ s.manager)
      × ((record_admin io level message action r s).store ≡ s.store)
      × ((record_admin io level message action r s).file ≡ s.file)
      × IsLonger s.events (record_admin io level message action r s).events
unfolding record_admin
record_admin-state io level message action r s = elim (Option-cases s.events) [
  | inl e ↦ rw (e, record_admin) (refl, refl, refl, e)
  | inr (log, e) ↦
      rw (e, record_admin)
        (
          refl,
          refl,
          refl,
          (
            _,
            refl,
            record_event-lines io.encode_event io.append_error io.now
                (admin_event io level message action r) log,
          ),
        )
]

module _ (io : Io) (r : AdminRequest) (s : AdminState) where
  same-IsGuarded : (status : ℕ) (payload : Payload) → IsGuarded r s (write_json status payload s)
  same-IsGuarded status payload = record {
    guarded = inr (refl, refl, refl, IsLonger-refl s.events);
  }

  recorded-IsGuarded :
      (status : ℕ) (payload : Payload) (level message action : Bytes)
      → IsGuarded r s (write_json status payload (record_admin io level message action r s))
  recorded-IsGuarded status payload level message action = record {
    guarded = inr (record_admin-state io level message action r s);
  }

  handle_session-IsGuarded : IsGuarded r s (handle_session io r s)
  unfolding handle_session
  handle_session-IsGuarded =
      if_holds (IsGuarded r s) (not (text_eq r.method (bytes "POST"))) _ _ (same-IsGuarded 405 _)
        (elim (Option-cases (io.decode_key r.body)) [
          | inl e ↦ rw (e, handle_session) (same-IsGuarded 400 _)
          | inr (key, e) ↦
              rw (e, handle_session)
                (if_holds (IsGuarded r s) (valid_admin_key s.manager key) _ _
                  (recorded-IsGuarded 200 _ _ _ _) (recorded-IsGuarded 401 _ _ _ _))
        ])

  require_admin-IsGuarded : (next : AdminState → Answer) → IsGuarded r s (require_admin r next s)
  unfolding require_admin
  require_admin-IsGuarded next =
      elim (Bool-cases (valid_admin_key s.manager (extract_admin_token r.header))) [
        | inl valid ↦ record {
          guarded = inl (valid_admin_key-IsAdmin s.manager (extract_admin_token r.header) valid);
        }
        | inr other ↦ rw (other, require_admin) (same-IsGuarded 401 _)
      ]

-- Whatever the request and its path: it shows the admin key of the configuration in use, which is
-- not empty, or the manager, the states of its keys and its file stay as they are and no line of the
-- log is lost.
pub serve_admin-IsGuarded :
    (io : Io) (r : AdminRequest) (s : AdminState) → IsGuarded r s (serve_admin io r s)
serve_admin-IsGuarded io r s =
    serve_admin_rule r s (IsGuarded r s) (same-IsGuarded io r s) io
      (handle_session-IsGuarded io r s) (require_admin-IsGuarded io r s (handle_overview io r))
      (require_admin-IsGuarded io r s (handle_config io r))
      (require_admin-IsGuarded io r s (handle_logs io r))
