-- ===== src/Gateway/Docs.antt =====
-- internal/gateway/manager.go: APIDocs, the documentation of the configured platforms. The verb %q of
-- package fmt is a parameter, `quoted`; it stands in the example command alone.
pub mod Types
pub mod Football
pub mod Basketball
pub mod Generic
pub mod Routed
pub mod Credential
mod Tests
use all2api.Prelude.{Bool, ◌||◌, none, List, [], ◌∷◌, ◌++◌, map, if◌then◌else◌, is_empty, is_some}
use all2api.Text.{Bytes, bytes, text_eq, strip_prefix}
use all2api.Config.{Config, PlatformConfig}
use all2api.Provider.{type_api_sports, type_generic_http}
use all2api.Gateway.{sort_entries}
use all2api.Gateway.Docs.Types.{DocEndpoint, PlatformDoc, ApiDocs}
use all2api.Gateway.Docs.Football.{football_doc_endpoints}
use all2api.Gateway.Docs.Basketball.{basketball_doc_endpoints}
use all2api.Gateway.Docs.Generic.{generic_doc_endpoints}

-- strings.Contains(s, sub)
unfoldable pub contains : Bytes → Bytes → Bool
unfolding strip_prefix
contains [] sub = is_empty sub
contains (b ∷ s) sub = is_some (strip_prefix sub (b ∷ s)) || contains s sub

-- authHeaderForPlatform
unfoldable pub auth_header_for_platform : PlatformConfig → Bytes
unfolding text_eq
auth_header_for_platform p =
    if text_eq p.typ type_generic_http then p.auth.header else bytes "x-apisports-key"

-- The value that a client sends in this header, with its key.
unfoldable pub auth_value_for_platform : PlatformConfig → Bytes → Bytes
unfolding text_eq
auth_value_for_platform p key =
    if text_eq p.typ type_generic_http
    then (if is_empty p.auth.prefix then key else p.auth.prefix ++ (bytes " " ++ key))
    else key

-- docTitleForPlatform
unfoldable pub doc_title_for_platform : Bytes → PlatformConfig → Bytes
unfolding text_eq contains
doc_title_for_platform name p =
    if text_eq p.typ type_api_sports
    then (if contains p.base_url (bytes "basketball")
        then bytes "API-Basketball"
        else bytes "API-Football")
    else if is_empty name
    then p.typ
    else name

-- docEndpointsForPlatform
unfoldable pub doc_endpoints_for_platform : Bytes → PlatformConfig → List DocEndpoint
unfolding text_eq contains
doc_endpoints_for_platform name p =
    let prefix = if is_empty name then [] else bytes "/" ++ name in
    if text_eq p.typ type_api_sports
    then (if contains p.base_url (bytes "basketball")
        then basketball_doc_endpoints prefix
        else football_doc_endpoints prefix)
    else generic_doc_endpoints prefix

-- The path of the first endpoint.
abbrev first_path : List DocEndpoint → Bytes
first_path [] = bytes "/<path>"
first_path (e ∷ es) = e.path

-- firstDocPath
unfoldable pub first_doc_path : PlatformConfig → Bytes
unfolding doc_endpoints_for_platform
first_doc_path p = first_path (doc_endpoints_for_platform [] p)

-- The entry of a platform.
unfoldable pub platform_doc : (Bytes → Bytes) → Bytes × PlatformConfig → PlatformDoc
unfolding auth_header_for_platform auth_value_for_platform doc_title_for_platform
    doc_endpoints_for_platform first_doc_path
platform_doc quoted (name, p) =
    let auth_header = auth_header_for_platform p in
    let auth_value = auth_value_for_platform p (bytes "<client-key>") in
    record {
      name = name;
      title = doc_title_for_platform name p;
      typ = p.typ;
      gateway_base_path = bytes "/" ++ name;
      gateway_base_url = bytes "http://<gateway>/" ++ name;
      upstream_base_url = p.base_url;
      credential_pool = p.credential_pool;
      auth_header = auth_header;
      auth_value = auth_value;
      example_curl =
          bytes "curl -H "
          ++ quoted (auth_header ++ bytes ": " ++ auth_value)
          ++ bytes " \"http://<gateway>/"
          ++ name
          ++ first_doc_path p
          ++ bytes "\"";
      endpoints = doc_endpoints_for_platform name p;
    }

-- An entry with a method, a path and a description.
abbrev admin_endpoint : Bytes → Bytes → Bytes → DocEndpoint
admin_endpoint method path description = record {
  method = method;
  path = path;
  summary = [];
  description = description;
  parameters = [];
  response_fields = [];
  response_sample = none;
}

unfoldable pub admin_endpoints : List DocEndpoint
admin_endpoints =
    admin_endpoint (bytes "POST") (bytes "/__gateway/admin/session")
      (bytes "Validate admin key and return a bearer token.")
    ∷ admin_endpoint (bytes "GET") (bytes "/__gateway/admin/overview")
        (bytes "Dashboard summary and key runtime status.")
    ∷ admin_endpoint (bytes "GET") (bytes "/__gateway/admin/config")
        (bytes "Current writable gateway config.")
    ∷ admin_endpoint (bytes "PUT") (bytes "/__gateway/admin/config")
        (bytes "Replace config.yaml and hot-reload runtime state.")
    ∷ admin_endpoint (bytes "GET") (bytes "/__gateway/admin/logs")
        (bytes "Read structured JSONL gateway logs.")
    ∷ admin_endpoint (bytes "DELETE") (bytes "/__gateway/admin/logs")
        (bytes "Clear the configured log file.")
    ∷ admin_endpoint (bytes "GET") (bytes "/__gateway/docs")
        (bytes "Public gateway API documentation.")
    ∷ []

-- APIDocs
unfoldable pub api_docs : (Bytes → Bytes) → Config → ApiDocs
unfolding platform_doc sort_entries admin_endpoints
api_docs quoted cfg = record {
  public_endpoint = bytes "/__gateway/docs";
  platforms = map (platform_doc quoted) (sort_entries cfg.platforms);
  admin_endpoints = admin_endpoints;
}
