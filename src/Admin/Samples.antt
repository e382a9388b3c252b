-- ===== src/Admin/Samples.antt =====
-- A machine on which the files of the management API work, and a request without the admin key.
use all2api.Prelude.{none, some, [], ◌∷◌}
use all2api.Text.{bytes}
use all2api.Config.Plain.{plain}
use all2api.Logstore.{Event}
use all2api.Admin.{AdminRequest, Io}

abbrev pub io : Io
io = record {
  decode_key = λ body. some body;
  decode_config = λ body. none;
  decode_event = λ line. none;
  encode_event = λ (e : Event). e.message;
  now = 1;
  append_error = none;
  read_error = none;
  clear_error = none;
  yaml = plain;
  write = record { failure = none; torn = [] };
  static_status = λ path. 200;
  quoted = λ text. text;
  config_path = bytes "config.yaml";
}

abbrev pub request : AdminRequest
request = record {
  method = bytes "DELETE";
  path = bytes "/__gateway/admin/logs";
  header = (bytes "X-Admin-Key", bytes "wrong" ∷ []) ∷ [];
  query = λ name. [];
  body = [];
  remote_addr = bytes "10.0.0.1:4000";
}
