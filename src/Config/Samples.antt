-- ===== src/Config/Samples.antt =====
-- A configuration in the legacy form.
use all2api.Prelude.{◌≡◌, refl, [], ◌∷◌, false, pos, ok}
use all2api.Text.{bytes, text_eq}
use all2api.Config.{Config}
use all2api.Config.Validate.{validate}

abbrev pub legacy : Config
legacy = record {
  server = record { host = []; port = pos 8080 };
  platforms = [];
  credential_pools = [];
  scheduler = record {
    switch_threshold = pos 1;
    rate_limit_cooldown_seconds = pos 0;
    error_cooldown_seconds = pos 0;
    max_error_count = pos 0;
    max_retries = pos 0;
  };
  management = record { admin_key = []; log_file = []; log_read_limit = pos 0 };
  client_auth = record { enabled = false; tokens = [] };
  logging = record { level = [] };
  workspaces =
      (
        bytes "football",
        record { base_url = bytes "https://v3.example.com"; timeout_seconds = pos 0 },
      )
      ∷ [];
  keys = record { label = []; key = bytes "secret-0001" } ∷ [];
}

abbrev pub accepted : Config
accepted = record {
  server = record { host = bytes "0.0.0.0"; port = pos 8080 };
  platforms =
      (
        bytes "football",
        record {
          typ = bytes "api_sports";
          base_url = bytes "https://v3.example.com";
          timeout_seconds = pos 30;
          credential_pool = bytes "default";
          auth = record { header = []; prefix = [] };
          rate_limit = record {
            daily_limit_header = [];
            daily_remaining_header = [];
            minute_limit_header = [];
            minute_remaining_header = [];
          };
        },
      )
      ∷ [];
  credential_pools =
      (
        bytes "default",
        record { keys = record { label = bytes "key-1"; key = bytes "secret-0001" } ∷ [] },
      )
      ∷ [];
  scheduler = record {
    switch_threshold = pos 1;
    rate_limit_cooldown_seconds = pos 60;
    error_cooldown_seconds = pos 30;
    max_error_count = pos 3;
    max_retries = pos 3;
  };
  management = record {
    admin_key = [];
    log_file = bytes "logs/gateway.jsonl";
    log_read_limit = pos 500;
  };
  client_auth = record { enabled = false; tokens = [] };
  logging = record { level = bytes "info" };
  workspaces =
      (
        bytes "football",
        record { base_url = bytes "https://v3.example.com"; timeout_seconds = pos 30 },
      )
      ∷ [];
  keys = record { label = bytes "key-1"; key = bytes "secret-0001" } ∷ [];
}

pub validate-legacy : validate legacy ≡ ok accepted
unfolding validate text_eq
validate-legacy = refl
