-- ===== src/Gateway/Docs/Football/Account.antt =====
-- internal/gateway/manager.go: what footballDocEndpoints says of /status and /countries.
use all2api.Prelude.{true, false, some, [], ◌∷◌, ◌++◌}
use all2api.Text.{Bytes, bytes}
use all2api.Text.Utf8.{utf8}
use all2api.Gateway.Docs.Types.{
  DocEndpoint, boolean, number, text, array, object, nil, cons, end, member, field, query_param,
  envelope_fields,
}

-- GET /status
unfoldable pub football_status : Bytes → DocEndpoint
football_status prefix = record {
  method = bytes "GET";
  path = prefix ++ bytes "/status";
  summary = utf8 "查看 API-Football 账号与配额状态";
  description = utf8 "用于确认当前 API-Football 订阅是否有效，以及当天请求额度的已用量和上限。这个接口通常用于控制台健康检查、配额预警和接入验证。";
  parameters = [];
  response_fields = envelope_fields (
      field (bytes "response.account.firstname") (bytes "string") (utf8 "账号名。")
      ∷ field (bytes "response.account.lastname") (bytes "string") (utf8 "账号姓氏。")
      ∷ field (bytes "response.account.email") (bytes "string") (utf8 "账号邮箱。")
      ∷ field (bytes "response.subscription.plan") (bytes "string") (utf8 "订阅计划名称。")
      ∷ field (bytes "response.subscription.end") (bytes "string") (utf8 "订阅结束时间，ISO 8601 格式。")
      ∷ field (bytes "response.subscription.active") (bytes "boolean") (utf8 "订阅是否处于可用状态。")
      ∷ field (bytes "response.requests.current") (bytes "number") (utf8 "当天已使用请求数。")
      ∷ field (bytes "response.requests.limit_day") (bytes "number") (utf8 "当天请求上限。")
      ∷ []);
  response_sample = some (
      object (
        member (bytes "get") (text (bytes "status")) (
          member (bytes "parameters") (array nil) (
            member (bytes "errors") (array nil) (
              member (bytes "results") (number 0) (
                member (bytes "paging")
                  (object
                    (member (bytes "current") (number 1) (member (bytes "total") (number 1) end)))
                  (member (bytes "response")
                    (object (
                      member (bytes "account")
                        (object (
                          member (bytes "firstname") (text (bytes "John")) (
                            member (bytes "lastname") (text (bytes "Doe"))
                              (member (bytes "email") (text (bytes "john@example.com")) end))))
                        (member (bytes "subscription")
                          (object (
                            member (bytes "plan") (text (bytes "Free")) (
                              member (bytes "end") (text (bytes "2027-06-07T00:00:00+00:00"))
                                (member (bytes "active") (boolean true) end))))
                          (member (bytes "requests")
                            (object (
                              member (bytes "current") (number 12)
                                (member (bytes "limit_day") (number 100) end)))
                            end))))
                    end)))))));
}

-- GET /countries
unfoldable pub football_countries : Bytes → DocEndpoint
football_countries prefix = record {
  method = bytes "GET";
  path = prefix ++ bytes "/countries";
  summary = utf8 "查询 API-Football 支持的国家或地区";
  description = utf8 "返回 API-Football 可用于联赛、球队和赛程过滤的国家/地区列表。可按国家名称、国家代码或搜索词缩小范围。";
  parameters =
      query_param (bytes "name") false (bytes "string") (bytes "England") (utf8 "按完整国家/地区名称过滤。")
      ∷ query_param (bytes "code") false (bytes "string") (bytes "GB-ENG")
          (utf8 "按 API-Sports 国家代码过滤。")
      ∷ query_param (bytes "search") false (bytes "string") (bytes "eng") (utf8 "按名称模糊搜索。")
      ∷ [];
  response_fields = envelope_fields (
      field (bytes "response[].name") (bytes "string") (utf8 "国家或地区名称。")
      ∷ field (bytes "response[].code") (bytes "string") (utf8 "API-Sports 国家代码。")
      ∷ field (bytes "response[].flag") (bytes "string") (utf8 "旗帜图片 URL。")
      ∷ []);
  response_sample = some (
      object (
        member (bytes "get") (text (bytes "countries")) (
          member (bytes "parameters") (object (member (bytes "name") (text (bytes "England")) end))
            (member (bytes "errors") (array nil) (
              member (bytes "results") (number 1) (
                member (bytes "paging")
                  (object
                    (member (bytes "current") (number 1) (member (bytes "total") (number 1) end)))
                  (member (bytes "response")
                    (array (
                      cons
                        (object (
                          member (bytes "name") (text (bytes "England")) (
                            member (bytes "code") (text (bytes "GB-ENG")) (
                              member (bytes "flag")
                                (text (bytes "https://media.api-sports.io/flags/gb-eng.svg"))
                                end))))
                        nil))
                    end)))))));
}
