-- ===== src/Admin/Change.antt =====
-- What a request to the management API does to the manager.
use all2api.Prelude.{ℕ, ◌≡◌, refl, sym, ap, ◌∙◌, ◌⊎◌, inl, inr, not, Option, none, some}
use all2api.Text.{Bytes, bytes, text_eq}
use all2api.Config.{Config}
use all2api.Gateway.{Manager, ManagerError, replace_config}
use all2api.Gateway.Replace.{replace_config-IsReplaced}
use all2api.Logstore
use all2api.Logstore.{clear}
use all2api.Admin.{
  AdminRequest, Io, AdminState, Answer, record_admin, write_json, Payload, rejected, done,
  valid_admin_key, extract_admin_token,
}
use all2api.Admin.Guard.{record_admin-state}
use all2api.Admin.Rule.{
  if_holds, option_holds, result_holds, handle_overview_rule, serve_admin_rule,
}
use all2api.Admin.Handlers.{
  handle_session, handle_overview, require_admin, serve_admin, handle_config, handle_logs,
  clear_logs, log_query,
}

-- The manager, the states of its keys, and whether there is a log, are those of before.
abbrev pub IsSame : AdminState → AdminState → Type 0
IsSame s t = (t.manager ≡ s.manager) × (t.store ≡ s.store)

-- ReplaceConfig succeeded, and its manager is in use with new keys.
abbrev pub IsNew : Io → AdminState → AdminState → Type 0
IsNew io s t =
    (m : Manager) × (m' : Manager) × (next : Config) × (s.manager ≡ some m)
    × (replace_config io.yaml io.write next m s.file ≡ (m', t.file, none))
    × (t.manager ≡ some m')
    × (t.store ≡ m'.built.store)

pub record IsChange (io : Io) (s : AdminState) (a : Answer) : Type 0 where
  pub change : IsSame s a.state ⊎ IsNew io s a.state

module _ (io : Io) (r : AdminRequest) (s : AdminState) where
  same-IsChange : (status : ℕ) (payload : Payload) → IsChange io s (write_json status payload s)
  same-IsChange status payload = record { change = inl (refl, refl) }

  recorded-IsChange :
      (status : ℕ) (payload : Payload) (level message action : Bytes)
      → IsChange io s (write_json status payload (record_admin io level message action r s))
  recorded-IsChange status payload level message action =
      let (manager, store, _, _) = record_admin-state io level message action r s in
      record { change = inl (manager, store) }

  clear_logs-IsChange : (log : Logstore.Store) → IsChange io s (clear_logs io r log s)
  unfolding clear_logs
  clear_logs-IsChange log =
      option_holds (IsChange io s) ((clear io.clear_error log).1) _ _
        (λ e. record { change = inl (refl, refl) }) (λ x e. record { change = inl (refl, refl) })

  handle_logs-IsChange : IsChange io s (handle_logs io r s)
  unfolding handle_logs
  handle_logs-IsChange =
      option_holds (IsChange io s) s.events _ _ (λ e. same-IsChange 503 _)
        (λ log e.
          if_holds (IsChange io s) (text_eq r.method (bytes "GET")) _ _
            (result_holds (IsChange io s)
              (Logstore.read io.decode_event io.read_error (log_query r s.manager) log) _ _
              (λ x. same-IsChange 500 _) (λ events. same-IsChange 200 _))
            (if_holds (IsChange io s) (text_eq r.method (bytes "DELETE")) _ _
              (clear_logs-IsChange log) (same-IsChange 405 _)))

  module _ (m : Manager) (next : Config) (here : s.manager ≡ some m) where
    abbrev outcome : Manager × Bytes × Option ManagerError
    outcome = replace_config io.yaml io.write next m s.file

    -- What IsReplaced says of an error and of a success.
    kept : (x : ManagerError) → outcome.2 ≡ some x → outcome.0 ≡ m
    kept x e = elim (replace_config-IsReplaced io.yaml io.write next m s.file) [
      | inl (none_there, _, _, _, _) ↦ cc
      | inr (same, _) ↦ same
    ]

    refused-IsChange :
        (x : ManagerError)
        → outcome.2 ≡ some x
        → IsChange io s
            (write_json 400 (rejected x) (record s { manager = some outcome.0; file = outcome.1 }))
    refused-IsChange x e = record { change = inl (ap (λ m. some m) (kept x e) ∙ sym here, refl) }

    replaced-IsChange :
        outcome.2 ≡ none
        → IsChange io s (
            write_json 200 done (
              record_admin io
                (bytes "info")
                (bytes "config updated and runtime reloaded")
                (bytes "config_update")
                r
                (record s {
                  manager = some outcome.0;
                  store = outcome.0.built.store;
                  file = outcome.1;
                })))
    replaced-IsChange e =
        let t : AdminState = record s {
          manager = some outcome.0;
          store = outcome.0.built.store;
          file = outcome.1;
        } in
        let (manager, store, same_file, _) =
          record_admin-state io (bytes "info") (bytes "config updated and runtime reloaded")
            (bytes "config_update") r t in
        record {
          change = inr (
            m,
            outcome.0,
            next,
            here,
            ap (λ x. (outcome.0, outcome.1, x)) e ∙ ap (λ f. (outcome.0, f, none)) (sym same_file),
            manager,
            store,
          );
        }

  handle_config-IsChange : IsChange io s (handle_config io r s)
  unfolding handle_config
  handle_config-IsChange =
      option_holds (IsChange io s) s.manager _ _ (λ e. same-IsChange 503 _)
        (λ m here.
          if_holds (IsChange io s) (text_eq r.method (bytes "GET")) _ _ (same-IsChange 200 _) (
            if_holds (IsChange io s) (text_eq r.method (bytes "PUT")) _ _
              (option_holds (IsChange io s) (io.decode_config r.body) _ _ (λ e. same-IsChange 400 _)
                (λ next e.
                  option_holds (IsChange io s) ((outcome m next here).2) _ _
                    (replaced-IsChange m next here) (refused-IsChange m next here)))
              (same-IsChange 405 _)))

  handle_session-IsChange : IsChange io s (handle_session io r s)
  unfolding handle_session
  handle_session-IsChange =
      if_holds (IsChange io s) (not (text_eq r.method (bytes "POST"))) _ _ (same-IsChange 405 _) (
        option_holds (IsChange io s) (io.decode_key r.body) _ _ (λ e. same-IsChange 400 _)
          (λ key e.
            if_holds (IsChange io s) (valid_admin_key s.manager key) _ _
              (recorded-IsChange 200 _ _ _ _) (recorded-IsChange 401 _ _ _ _)))

  require_admin-IsChange :
      (next : AdminState → Answer) → IsChange io s (next s) → IsChange io s (require_admin r next s)
  unfolding require_admin
  require_admin-IsChange next h =
      if_holds (IsChange io s) (valid_admin_key s.manager (extract_admin_token r.header)) _ _ h
        (same-IsChange 401 _)

-- Whatever the request: the manager and the states of its keys stay as they are, or ReplaceConfig put
-- another configuration into use, and the keys are those that were built from it.
pub serve_admin-IsChange :
    (io : Io) (r : AdminRequest) (s : AdminState) → IsChange io s (serve_admin io r s)
serve_admin-IsChange io r s =
    let same = same-IsChange io r s in
    serve_admin_rule r s (IsChange io s) same io (handle_session-IsChange io r s)
      (require_admin-IsChange io r s (handle_overview io r)
        (handle_overview_rule r s (IsChange io s) same io))
      (require_admin-IsChange io r s (handle_config io r) (handle_config-IsChange io r s))
      (require_admin-IsChange io r s (handle_logs io r) (handle_logs-IsChange io r s))
