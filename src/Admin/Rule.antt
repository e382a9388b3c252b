-- ===== src/Admin/Rule.antt =====
-- The rule by which a property of each answer of the management API is shown: along the branches of
-- ServeHTTP, of which only those with an effect on the state are left to show.
use all2api.Prelude.{
  ℕ, ◌≡◌, refl, Bool, true, false, not, ◌||◌, Option, none, some, if◌then◌else◌, is_some, Result,
  ok, err,
}
use all2api.Text.{bytes, text_eq, strip_prefix}
use all2api.Gateway.{Manager}
use all2api.Gateway.Docs.{api_docs}
use all2api.Gateway.Overview.{overview}
use all2api.Admin.{
  AdminRequest, Io, AdminState, Answer, write_json, Payload, documentation, dashboard,
}
use all2api.Admin.Handlers.{
  handle_session, manager_page, handle_page, handle_overview, handle_docs, handle_status,
  require_admin, serve_static, serve_admin, handle_config, handle_logs,
}

-- One of two answers, whichever the test takes.
pub if_holds : (P : Answer → Type 0) (b : Bool) (x y : Answer) → P x → P y → P (if b then x else y)
if_holds P true x y p q = p
if_holds P false x y p q = q

pub option_holds {ℓ} :
    {A : Type ℓ} (P : Answer → Type 0) (o : Option A) (x : Answer) (f : A → Answer)
    → (o ≡ none → P x)
    → ((a : A) → o ≡ some a → P (f a))
    → P (elim o [ none ↦ x | some a ↦ f a ])
option_holds P none x f p q = p refl
option_holds P (some a) x f p q = q a refl

pub result_holds {ℓ} :
    {E A : Type ℓ} (P : Answer → Type 0) (o : Result E A) (f : E → Answer) (g : A → Answer)
    → ((e : E) → P (f e))
    → ((a : A) → P (g a))
    → P (elim o [ err e ↦ f e | ok a ↦ g a ])
result_holds P (err e) f g p q = p e
result_holds P (ok a) f g p q = q a

-- The property holds of every answer that leaves the state as it is.
module _ (r : AdminRequest) (s : AdminState) (P : Answer → Type 0)
    (same : (status : ℕ) (payload : Payload) → P (write_json status payload s)) where
  manager_page_rule :
      (payload : Manager → Payload) (o : Option Manager) → P (manager_page payload s o)
  unfolding manager_page
  manager_page_rule payload none = same 503 _
  manager_page_rule payload (some m) = same 200 _

  handle_page_rule : (payload : Manager → Payload) → P (handle_page payload r s)
  unfolding handle_page
  handle_page_rule payload =
      if_holds P (not (text_eq r.method (bytes "GET"))) _ _ (same 405 _)
        (manager_page_rule payload s.manager)

  pub handle_overview_rule : (io : Io) → P (handle_overview io r s)
  unfolding handle_overview
  handle_overview_rule io = handle_page_rule (λ m. dashboard (overview io.config_path m s.store))

  serve_static_rule : (io : Io) → P (serve_static io r s)
  unfolding serve_static
  serve_static_rule io =
      if_holds P (text_eq r.path (bytes "/__admin")) _ _ (same 302 _)
        (if_holds P (text_eq r.path (bytes "/__docs")) _ _ (same 302 _) (same _ _))

  pub serve_admin_rule :
      (io : Io)
      → P (handle_session io r s)
      → P (require_admin r (handle_overview io r) s)
      → P (require_admin r (handle_config io r) s)
      → P (require_admin r (handle_logs io r) s)
      → P (serve_admin io r s)
  unfolding serve_admin handle_status handle_docs
  serve_admin_rule io session page config logs =
      if_holds P
        (is_some (strip_prefix (bytes "/__admin") r.path)
          || is_some (strip_prefix (bytes "/__docs") r.path))
        _ _ (serve_static_rule io)
        (if_holds P (text_eq r.path (bytes "/__gateway/status")) _ _ (same 200 _) (
          if_holds P (text_eq r.path (bytes "/__gateway/health")) _ _ (same 200 _) (
            if_holds P (text_eq r.path (bytes "/__gateway/admin/session")) _ _ session (
              if_holds P (text_eq r.path (bytes "/__gateway/admin/overview")) _ _ page (
                if_holds P (text_eq r.path (bytes "/__gateway/admin/config")) _ _ config (
                  if_holds P (text_eq r.path (bytes "/__gateway/admin/logs")) _ _ logs (
                    if_holds P (text_eq r.path (bytes "/__gateway/docs")) _ _
                      (handle_page_rule (λ m. documentation (api_docs io.quoted m.cfg)))
                      (same 404 _))))))))
