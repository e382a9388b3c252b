-- ===== src/Gateway/Docs/Types.antt =====
-- internal/gateway/manager.go: the types of the API documentation, and the helpers that build it.
use all2api.Prelude.{ℕ, Bool, Option, List, [], ◌∷◌, ◌++◌}
use all2api.Text.{Bytes, bytes}
use all2api.Text.Utf8.{utf8}

-- A value of Go's type `any` that is encoded as JSON.
mutual
  pub data Json : Type 0 where
    null : Json
    boolean : Bool → Json
    number : ℕ → Json
    text : Bytes → Json
    array : Items → Json
    object : Members → Json

  pub data Items : Type 0 where
    nil : Items
    cons : Json → Items → Items

  pub data Members : Type 0 where
    end : Members
    member : Bytes → Json → Members → Members

pub record DocParameter : Type 0 where
  pub name : Bytes
  pub place : Bytes
  pub required : Bool
  pub typ : Bytes
  pub example : Bytes
  pub description : Bytes

pub record DocField : Type 0 where
  pub name : Bytes
  pub typ : Bytes
  pub description : Bytes

-- `none` is the nil interface.
pub record DocEndpoint : Type 0 where
  pub method : Bytes
  pub path : Bytes
  pub summary : Bytes
  pub description : Bytes
  pub parameters : List DocParameter
  pub response_fields : List DocField
  pub response_sample : Option Json

pub record PlatformDoc : Type 0 where
  pub name : Bytes
  pub title : Bytes
  pub typ : Bytes
  pub gateway_base_path : Bytes
  pub gateway_base_url : Bytes
  pub upstream_base_url : Bytes
  pub credential_pool : Bytes
  pub auth_header : Bytes
  pub auth_value : Bytes
  pub example_curl : Bytes
  pub endpoints : List DocEndpoint

pub record ApiDocs : Type 0 where
  pub public_endpoint : Bytes
  pub platforms : List PlatformDoc
  pub admin_endpoints : List DocEndpoint

-- queryParam
unfoldable pub query_param : Bytes → Bool → Bytes → Bytes → Bytes → DocParameter
query_param name required typ example description = record {
  name = name;
  place = bytes "query";
  required = required;
  typ = typ;
  example = example;
  description = description;
}

unfoldable pub field : Bytes → Bytes → Bytes → DocField
field name typ description = record { name = name; typ = typ; description = description }

-- envelopeFields
unfoldable pub envelope_fields : List DocField → List DocField
unfolding field
envelope_fields fields =
    (field (bytes "get") (bytes "string") (utf8 "上游接口名。")
      ∷ field (bytes "parameters") (bytes "object|array") (utf8 "上游回显的请求参数；无参数时可能为空数组。")
      ∷ field (bytes "errors") (bytes "array|object") (utf8 "错误信息集合；成功时通常为空。")
      ∷ field (bytes "results") (bytes "number") (utf8 "当前响应返回的数据条数。")
      ∷ field (bytes "paging.current") (bytes "number") (utf8 "当前分页页码。")
      ∷ field (bytes "paging.total") (bytes "number") (utf8 "总页数。")
      ∷ field (bytes "response") (bytes "object|array") (utf8 "接口业务数据。")
      ∷ [])
    ++ fields
