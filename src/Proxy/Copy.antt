-- ===== src/Proxy/Copy.antt =====
-- copySafeRequestHeaders and copySafeResponseHeaders: which headers pass the gateway.
use all2api.Prelude.{◌≡◌, refl, List, [], ◌∷◌, ◌++◌, if◌then◌else◌, arith, append-nil, append_assoc}
use all2api.Text.{Bytes, text_eq}
use all2api.Text.Equality.{text_eq_iff}
use all2api.Header.{Header, canonical, values, add_all}
use all2api.Header.Laws.{values-add_all, canonical-canonical}
use all2api.Provider.{credential_header, with_prefix, inject_credential}
use all2api.Provider.Inject.{values-inject_credential, credential_header-canonical}
use all2api.Proxy.{Upstream}
use all2api.Proxy.Transport.{
  ForwardRequest, UpstreamResult, mem_name, blocked_request_headers, blocked_response_headers,
  copy_unless, copy_safe_request_headers, copy_safe_response_headers, upstream_request,
}
use all2api.Proxy.Exchange.{write_upstream_response}

-- The values of all entries whose canonical name is this one.
abbrev pub gathered : Header → Bytes → List Bytes
gathered [] name = []
gathered ((n, vs) ∷ src) name = (if text_eq (canonical n) name then vs else []) ++ gathered src name

module _ (blocked : List Bytes) (n name : Bytes) (vs : List Bytes) (src dst : Header) where
  copy_unless_cons :
      copy_unless blocked ((n, vs) ∷ src) dst
      ≡ copy_unless blocked src
          (if mem_name blocked (canonical n) then dst else add_all dst (canonical n) vs)
  unfolding copy_unless
  copy_unless_cons = refl

  -- What one entry adds under a name.
  copied_entry :
      values (if mem_name blocked (canonical n) then dst else add_all dst (canonical n) vs) name
        ++ (if mem_name blocked name then [] else gathered src name)
      ≡ values dst name ++ (if mem_name blocked name then [] else gathered ((n, vs) ∷ src) name)
  copied_entry = ground (
    arith,
    text_eq_iff (canonical n) name,
    canonical-canonical n,
    values-add_all dst (canonical n) vs name,
    append_assoc (values dst name) vs (gathered src name),
  )

copy_unless_nil : (blocked : List Bytes) (dst : Header) → copy_unless blocked [] dst ≡ dst
unfolding copy_unless
copy_unless_nil blocked dst = refl

pub values-copy_unless :
    (blocked : List Bytes) (src dst : Header) (name : Bytes)
    → values (copy_unless blocked src dst) name
      ≡ values dst name ++ (if mem_name blocked name then [] else gathered src name)
values-copy_unless blocked [] dst name =
    rw (copy_unless_nil blocked dst) (ground (arith, append-nil (values dst name)))
values-copy_unless blocked ((n, vs) ∷ src) dst name =
    rw (copy_unless_cons blocked n name vs src dst, values-copy_unless blocked src _ name)
      (copied_entry blocked n name vs src dst)

module _ (t : Upstream) (req : ForwardRequest) (key : Bytes) where
  abbrev copied_from_client : Header
  copied_from_client = copy_safe_request_headers req.header [] (credential_header t.provider)

  upstream_request_lem :
      (upstream_request t req key).header ≡ inject_credential t.provider copied_from_client key
  unfolding upstream_request
  upstream_request_lem = refl

  values-copied_from_client :
      (name : Bytes)
      → values copied_from_client name ≡ (
          if mem_name (canonical (credential_header t.provider) ∷ blocked_request_headers) name
          then []
          else gathered req.header name)
  unfolding copy_safe_request_headers values
  values-copied_from_client name =
      values-copy_unless (canonical (credential_header t.provider) ∷ blocked_request_headers)
        req.header [] name

-- The headers of an upstream request: the credential header holds the prefixed key and nothing
-- else, no other blocked header is there, Authorization among them, and every other header has all
-- the values that the client sent under a name with this canonical form.
pub values-upstream_request :
    (t : Upstream) (req : ForwardRequest) (key name : Bytes)
    → values (upstream_request t req key).header name ≡ (
        if text_eq (credential_header t.provider) name
        then with_prefix t.provider.auth.prefix key ∷ []
        else if mem_name blocked_request_headers name
        then []
        else gathered req.header name)
unfolding mem_name
values-upstream_request t req key name =
    rw
      (
        upstream_request_lem t req key,
        values-inject_credential t.provider (copied_from_client t req key) key name,
        values-copied_from_client t req key name,
        credential_header-canonical t.provider,
      )
      (ground arith)

-- The headers of a response that is passed on: no blocked header, and of every other header all
-- the values that the upstream sent under a name with this canonical form.
pub values-write_upstream_response :
    (res : UpstreamResult) (name : Bytes)
    → values (write_upstream_response res).header name
      ≡ (if mem_name blocked_response_headers name then [] else gathered res.header name)
unfolding write_upstream_response copy_safe_response_headers values
values-write_upstream_response res name =
    values-copy_unless blocked_response_headers res.header [] name
