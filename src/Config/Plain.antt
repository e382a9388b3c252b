-- ===== src/Config/Plain.antt =====
-- A form of a configuration that can be read back, in place of YAML: the runs of the examples use it.
use all2api.Prelude.{◌≡◌, refl, sym, ap, ◌∙◌, none, some, List, [], append-nil, Result, ok, err}
use all2api.Text.{Bytes}
use all2api.Config.{
  Config, ServerConfig, WorkspaceConfig, AuthConfig, RateLimitConfig, PlatformConfig, KeyConfig,
  CredentialPoolConfig, SchedulerConfig, ClientAuthConfig, ManagementConfig, LoggingConfig,
}
use all2api.Config.Files.{Yaml}
use all2api.Config.Form.{
  Form, read_via, read_pair, read_list, write_all, via, pair, list, int, flag, bytes_form,
  pair_of_bytes,
}

abbrev server : Form ServerConfig
server =
    via (pair bytes_form int) (λ c. (c.host, c.port)) (λ p. record { host = p.0; port = p.1 })
      (λ c. refl)

abbrev workspace : Form WorkspaceConfig
workspace =
    via (pair bytes_form int) (λ c. (c.base_url, c.timeout_seconds))
      (λ p. record { base_url = p.0; timeout_seconds = p.1 }) (λ c. refl)

abbrev auth : Form AuthConfig
auth =
    via pair_of_bytes (λ c. (c.header, c.prefix)) (λ p. record { header = p.0; prefix = p.1 })
      (λ c. refl)

abbrev rate_limit : Form RateLimitConfig
rate_limit =
    via (pair pair_of_bytes pair_of_bytes)
      (λ c. (
        (c.daily_limit_header, c.daily_remaining_header),
        (c.minute_limit_header, c.minute_remaining_header),
      ))
      (λ p. record {
        daily_limit_header = p.0.0;
        daily_remaining_header = p.0.1;
        minute_limit_header = p.1.0;
        minute_remaining_header = p.1.1;
      })
      (λ c. refl)

abbrev platform : Form PlatformConfig
platform =
    via (pair (pair pair_of_bytes (pair int bytes_form)) (pair auth rate_limit))
      (λ c. (((c.typ, c.base_url), (c.timeout_seconds, c.credential_pool)), (c.auth, c.rate_limit)))
      (λ p. record {
        typ = p.0.0.0;
        base_url = p.0.0.1;
        timeout_seconds = p.0.1.0;
        credential_pool = p.0.1.1;
        auth = p.1.0;
        rate_limit = p.1.1;
      })
      (λ c. refl)

abbrev key : Form KeyConfig
key = via pair_of_bytes (λ c. (c.label, c.key)) (λ p. record { label = p.0; key = p.1 }) (λ c. refl)

abbrev credential_pool : Form CredentialPoolConfig
credential_pool = via (list key) (λ c. c.keys) (λ ks. record { keys = ks }) (λ c. refl)

abbrev scheduler : Form SchedulerConfig
scheduler =
    via (pair (pair int int) (pair int (pair int int)))
      (λ c. (
        (c.switch_threshold, c.rate_limit_cooldown_seconds),
        (c.error_cooldown_seconds, (c.max_error_count, c.max_retries)),
      ))
      (λ p. record {
        switch_threshold = p.0.0;
        rate_limit_cooldown_seconds = p.0.1;
        error_cooldown_seconds = p.1.0;
        max_error_count = p.1.1.0;
        max_retries = p.1.1.1;
      })
      (λ c. refl)

abbrev management : Form ManagementConfig
management =
    via (pair pair_of_bytes int) (λ c. ((c.admin_key, c.log_file), c.log_read_limit))
      (λ p. record { admin_key = p.0.0; log_file = p.0.1; log_read_limit = p.1 }) (λ c. refl)

abbrev client_auth : Form ClientAuthConfig
client_auth =
    via (pair flag (list bytes_form)) (λ c. (c.enabled, c.tokens))
      (λ p. record { enabled = p.0; tokens = p.1 }) (λ c. refl)

abbrev logging : Form LoggingConfig
logging = via bytes_form (λ c. c.level) (λ l. record { level = l }) (λ c. refl)

abbrev entries : {A : Type 0} → Form A → Form (List (Bytes × A))
entries f = list (pair bytes_form f)

abbrev config : Form Config
config =
    via
      (pair (pair (pair server (entries platform)) (pair (entries credential_pool) scheduler))
        (pair (pair management client_auth) (pair logging (pair (entries workspace) (list key)))))
      (λ c. (
        ((c.server, c.platforms), (c.credential_pools, c.scheduler)),
        ((c.management, c.client_auth), (c.logging, (c.workspaces, c.keys))),
      ))
      (λ p. record {
        server = p.0.0.0;
        platforms = p.0.0.1;
        credential_pools = p.0.1.0;
        scheduler = p.0.1.1;
        management = p.1.0.0;
        client_auth = p.1.0.1;
        logging = p.1.1.0;
        workspaces = p.1.1.1.0;
        keys = p.1.1.1.1;
      })
      (λ c. refl)

unfoldable pub read_plain : Bytes → Result Bytes Config
unfolding read_via read_pair read_list
read_plain s = elim (config.read s) [ none ↦ err [] | some (c, r) ↦ ok c ]

unfoldable pub write_plain : Config → Bytes
unfolding write_all
write_plain c = config.write c

pub read_plain-write_plain : (c : Config) → read_plain (write_plain c) ≡ ok c
unfolding read_plain write_plain
read_plain-write_plain c =
    rw (ap config.read (sym (append-nil (config.write c))) ∙ config.read-write c [], read_plain)

abbrev pub plain : Yaml
plain = record { encode = write_plain; decode = read_plain; decode-encode = read_plain-write_plain }
