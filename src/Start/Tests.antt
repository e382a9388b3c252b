-- ===== src/Start/Tests.antt =====
-- The start of a gateway with the configuration in the legacy form, a request and a replacement behind
-- it, and two starts that fail.
use all2api.Prelude.{◌≡◌, refl, none, some, [], ◌∷◌, length, if◌then◌else◌, Result, ok, err}
use all2api.Text.{bytes, text_eq}
use all2api.Clock.{add_duration}
use all2api.Config.Samples.{legacy}
use all2api.Config.Plain.{plain, read_plain, write_plain}
use all2api.Config.Env.{invalid_port}
use all2api.Config.Files.{overridden}
use all2api.Logstore.{not_opened}
use all2api.Proxy.Samples.{request, world}
use all2api.Proxy.Serve.{serve}
use all2api.Gateway.{serve_http}
use all2api.Admin.{AdminRequest, Io, AdminState, new_console, done}
use all2api.Admin.Samples
use all2api.Admin.Handlers.{serve_admin}
use all2api.Start.Life.{
  after_request, administers, serves, stays, then_steps, IsServing, Reaches-IsServing,
}
use all2api.Start.{Running, Machine, start, not_loaded, no_log_store}
use all2api.Start.Started.{IsStarted, start-IsStarted}

abbrev machine : Machine
machine = record {
  yaml = plain;
  env = λ name. [];
  config_file = ok (write_plain legacy);
  mkdir_error = none;
  open_error = none;
  log_lines = [];
}

start-IsStarted_example : IsStarted machine (start machine)
start-IsStarted_example = start-IsStarted machine

port_test :
    start (record machine { env = λ name. bytes "http" })
    ≡ err (not_loaded (overridden (invalid_port (bytes "http"))))
unfolding start read_plain write_plain
port_test = refl

log_test :
    start (record machine { open_error = some (bytes "permission denied") })
    ≡ err (no_log_store (not_opened (bytes "permission denied")))
unfolding start text_eq read_plain write_plain
log_test = refl

abbrev IsOk {ℓ κ} : {E : Type ℓ} → {A : Type κ} → Result E A → Type 0
IsOk (ok a) = Unit
IsOk (err e) = ⊥

abbrev the {ℓ κ} : {E : Type ℓ} → {A : Type κ} → (r : Result E A) → IsOk r → A
the (ok a) h = a
the (err e) h = elim h [ ]

ok-the {ℓ κ} : {E : Type ℓ} → {A : Type κ} → (r : Result E A) → (h : IsOk r) → r ≡ ok (the r h)
ok-the (ok a) h = refl
ok-the (err e) h = elim h [ ]

-- The same machine with an admin key.
abbrev managed : Machine
managed = record machine {
  env = λ name. if text_eq name (bytes "GW_ADMIN_KEY") then bytes "admin" else [];
}

starts : IsOk (start managed)
unfolding start text_eq read_plain write_plain
starts = tt

abbrev running : Running
running = the (start managed) starts

abbrev io : Io
io = record Samples.io { decode_config = λ body. some legacy }

abbrev put : AdminRequest
put = record Samples.request {
  method = bytes "PUT";
  path = bytes "/__gateway/admin/config";
  header = (bytes "X-Admin-Key", bytes "admin" ∷ []) ∷ [];
}

abbrev fresh : AdminState
fresh = new_console running.manager running.events (write_plain legacy)

abbrev served : AdminState
served = after_request io (serve_http running.manager world request fresh.store) fresh

abbrev replaced : AdminState
replaced = (serve_admin io put served).state

Reaches-IsServing_example : IsServing replaced world request
Reaches-IsServing_example =
    Reaches-IsServing managed running (write_plain legacy) replaced world request
      (ok-the (start managed) starts)
      (then_steps (then_steps stays (serves io world request running.manager fresh refl))
        (administers io put served))

-- The request is sent once, and the replacement succeeds.
replaced_test :
    (length (serve_http running.manager world request fresh.store).sent ≡ 1)
    × ((serve_admin io put served).payload ≡ done)
unfolding start serve serve_admin text_eq add_duration read_plain write_plain
replaced_test = (refl, refl)
