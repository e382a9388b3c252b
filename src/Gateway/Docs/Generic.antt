-- ===== src/Gateway/Docs/Generic.antt =====
-- internal/gateway/manager.go: genericDocEndpoints, for platforms whose upstream is not documented.
use all2api.Prelude.{List, true, false, some, [], ◌∷◌, ◌++◌}
use all2api.Text.{Bytes, bytes}
use all2api.Text.Utf8.{utf8}
use all2api.Gateway.Docs.Types.{DocEndpoint, text, object, end, member, field}

unfoldable pub generic_get : Bytes → DocEndpoint
generic_get prefix = record {
  method = bytes "GET";
  path = prefix ++ bytes "/<path>";
  summary = utf8 "转发 GET 请求到配置的上游站点";
  description =
      utf8
        "将命名空间后的路径和查询参数透明转发到当前平台的 upstream base URL。请求参数、响应结构和错误格式由上游站点决定，网关只负责命名空间路由、客户端认证、上游凭证注入和日志记录。";
  parameters =
      record {
        name = bytes "<path>";
        place = bytes "path";
        required = true;
        typ = bytes "string";
        example = bytes "v1/status";
        description = utf8 "要转发到上游的相对路径。";
      }
      ∷ record {
        name = bytes "*";
        place = bytes "query";
        required = false;
        typ = bytes "string";
        example = [];
        description = utf8 "透传给上游的查询参数。";
      }
      ∷ [];
  response_fields =
      field (bytes "<upstream response>") (bytes "any") (utf8 "网关保持上游响应体，不重写业务字段。") ∷ [];
  response_sample = some (object (member (bytes "upstream") (text (bytes "response")) end));
}

unfoldable pub generic_post : Bytes → DocEndpoint
generic_post prefix = record {
  method = bytes "POST";
  path = prefix ++ bytes "/<path>";
  summary = utf8 "转发 POST 请求到配置的上游站点";
  description = utf8 "将请求体、命名空间后的路径和支持的请求头转发到上游。适用于 OpenAPI 风格、REST JSON 或其他 HTTP API 平台。";
  parameters =
      record {
        name = bytes "<path>";
        place = bytes "path";
        required = true;
        typ = bytes "string";
        example = bytes "v1/messages";
        description = utf8 "要转发到上游的相对路径。";
      }
      ∷ record {
        name = bytes "body";
        place = bytes "body";
        required = false;
        typ = bytes "object|string|bytes";
        example = [];
        description = utf8 "按原样透传给上游的请求体。";
      }
      ∷ [];
  response_fields =
      field (bytes "<upstream response>") (bytes "any") (utf8 "网关保持上游响应体，不重写业务字段。") ∷ [];
  response_sample = some (object (member (bytes "upstream") (text (bytes "response")) end));
}

unfoldable pub generic_doc_endpoints : Bytes → List DocEndpoint
unfolding generic_get generic_post
generic_doc_endpoints prefix = generic_get prefix ∷ generic_post prefix ∷ []
