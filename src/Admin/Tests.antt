-- ===== src/Admin/Tests.antt =====
-- A request without the admin key that asks for the log to be cleared.
use all2api.Prelude.{true, none, some, [], ◌∷◌, pos}
use all2api.Text.{bytes}
use all2api.Config.Samples.{accepted}
use all2api.Admin.{AdminState}
use all2api.Admin.Handlers.{serve_admin}
use all2api.Admin.Samples.{io, request}
use all2api.Admin.Guard.{IsGuarded, serve_admin-IsGuarded}

abbrev state : AdminState
state = record {
  manager = some (record {
    cfg = record accepted { management = record accepted.management { admin_key = bytes "admin" } };
    built = record {
      handler = record { auth = none; platforms = []; max_retries = 3; event_sink = true };
      pools = [];
      store = λ r. record {
        keys = [];
        opts = record {
          switch_threshold = pos 1;
          rate_limit_cooldown = pos 60;
          error_cooldown = pos 30;
          max_error_count = pos 3;
        };
      };
    };
  });
  events = some (record { lines = bytes "first" ∷ [] });
  pools = [];
  store = λ r. record {
    keys = [];
    opts = record {
      switch_threshold = pos 1;
      rate_limit_cooldown = pos 60;
      error_cooldown = pos 30;
      max_error_count = pos 3;
    };
  };
  file = bytes "port: 8080";
}

serve_admin-IsGuarded_example : IsGuarded request state (serve_admin io request state)
serve_admin-IsGuarded_example = serve_admin-IsGuarded io request state
