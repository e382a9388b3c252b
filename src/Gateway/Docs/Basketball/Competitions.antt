-- ===== src/Gateway/Docs/Basketball/Competitions.antt =====
-- internal/gateway/manager.go: what basketballDocEndpoints says of /leagues and /teams.
use all2api.Prelude.{false, some, [], ◌∷◌, ◌++◌}
use all2api.Text.{Bytes, bytes}
use all2api.Text.Utf8.{utf8}
use all2api.Gateway.Docs.Types.{
  DocEndpoint, boolean, number, text, array, object, nil, cons, end, member, field, query_param,
  envelope_fields,
}

-- GET /leagues
unfoldable pub basketball_leagues : Bytes → DocEndpoint
basketball_leagues prefix = record {
  method = bytes "GET";
  path = prefix ++ bytes "/leagues";
  summary = utf8 "查询篮球联赛";
  description = utf8 "返回篮球联赛基础信息、国家/地区、赛季列表和类型。常用于查找 league id，再配合 season 查询球队、比赛或积分榜。";
  parameters =
      query_param (bytes "id") false (bytes "integer") (bytes "12") (utf8 "按联赛 ID 查询。")
      ∷ query_param (bytes "name") false (bytes "string") (bytes "NBA") (utf8 "按联赛名称查询。")
      ∷ query_param (bytes "country") false (bytes "integer|string") (bytes "5")
          (utf8 "按国家/地区过滤，可使用上游支持的 ID 或名称。")
      ∷ query_param (bytes "season") false (bytes "string") (bytes "2023-2024") (utf8 "按赛季过滤。")
      ∷ query_param (bytes "type") false (bytes "string") (bytes "league") (utf8 "赛事类型。")
      ∷ query_param (bytes "search") false (bytes "string") (bytes "nba") (utf8 "按联赛名称模糊搜索。")
      ∷ [];
  response_fields = envelope_fields (
      field (bytes "response[].id") (bytes "number") (utf8 "联赛 ID。")
      ∷ field (bytes "response[].name") (bytes "string") (utf8 "联赛名称。")
      ∷ field (bytes "response[].type") (bytes "string") (utf8 "赛事类型。")
      ∷ field (bytes "response[].logo") (bytes "string") (utf8 "联赛 Logo URL。")
      ∷ field (bytes "response[].country") (bytes "object") (utf8 "所属国家/地区信息。")
      ∷ field (bytes "response[].seasons[]") (bytes "string|object") (utf8 "联赛支持的赛季列表。")
      ∷ []);
  response_sample = some (
      object (
        member (bytes "get") (text (bytes "leagues")) (
          member (bytes "parameters") (object (member (bytes "name") (text (bytes "NBA")) end)) (
            member (bytes "errors") (array nil) (
              member (bytes "results") (number 1) (
                member (bytes "paging")
                  (object
                    (member (bytes "current") (number 1) (member (bytes "total") (number 1) end)))
                  (member (bytes "response")
                    (array (
                      cons
                        (object (
                          member (bytes "id") (number 12) (
                            member (bytes "name") (text (bytes "NBA")) (
                              member (bytes "type") (text (bytes "League")) (
                                member (bytes "logo")
                                  (text
                                    (bytes "https://media.api-sports.io/basketball/leagues/12.png"))
                                  (member (bytes "country")
                                    (object (
                                      member (bytes "id") (number 5) (
                                        member (bytes "name") (text (bytes "USA"))
                                          (member (bytes "code") (text (bytes "US")) end))))
                                    (member (bytes "seasons")
                                      (array (cons (text (bytes "2023-2024")) nil)) end)))))))
                        nil))
                    end)))))));
}

-- GET /teams
unfoldable pub basketball_teams : Bytes → DocEndpoint
basketball_teams prefix = record {
  method = bytes "GET";
  path = prefix ++ bytes "/teams";
  summary = utf8 "查询篮球球队";
  description = utf8 "返回篮球球队基础信息、所属国家/地区和 Logo。常用于通过 league+season 获取参赛球队，或通过名称搜索球队 ID。";
  parameters =
      query_param (bytes "id") false (bytes "integer") (bytes "132") (utf8 "按球队 ID 查询。")
      ∷ query_param (bytes "name") false (bytes "string") (bytes "Los Angeles Lakers")
          (utf8 "按球队名称查询。")
      ∷ query_param (bytes "league") false (bytes "integer") (bytes "12") (utf8 "按联赛 ID 过滤。")
      ∷ query_param (bytes "season") false (bytes "string") (bytes "2023-2024") (utf8 "按赛季过滤。")
      ∷ query_param (bytes "country") false (bytes "integer|string") (bytes "5")
          (utf8 "按国家/地区过滤，可使用上游支持的 ID 或名称。")
      ∷ query_param (bytes "search") false (bytes "string") (bytes "lakers") (utf8 "按球队名称模糊搜索。")
      ∷ [];
  response_fields = envelope_fields (
      field (bytes "response[].id") (bytes "number") (utf8 "球队 ID。")
      ∷ field (bytes "response[].name") (bytes "string") (utf8 "球队名称。")
      ∷ field (bytes "response[].logo") (bytes "string") (utf8 "球队 Logo URL。")
      ∷ field (bytes "response[].national") (bytes "boolean") (utf8 "是否国家队。")
      ∷ field (bytes "response[].country") (bytes "object") (utf8 "所属国家/地区信息。")
      ∷ []);
  response_sample = some (
      object (
        member (bytes "get") (text (bytes "teams")) (
          member (bytes "parameters") (object (member (bytes "id") (text (bytes "132")) end)) (
            member (bytes "errors") (array nil) (
              member (bytes "results") (number 1) (
                member (bytes "paging")
                  (object
                    (member (bytes "current") (number 1) (member (bytes "total") (number 1) end)))
                  (member (bytes "response")
                    (array (
                      cons
                        (object (
                          member (bytes "id") (number 132) (
                            member (bytes "name") (text (bytes "Los Angeles Lakers")) (
                              member (bytes "logo")
                                (text
                                  (bytes "https://media.api-sports.io/basketball/teams/132.png"))
                                (member (bytes "national") (boolean false) (
                                  member (bytes "country")
                                    (object (
                                      member (bytes "id") (number 5) (
                                        member (bytes "name") (text (bytes "USA"))
                                          (member (bytes "code") (text (bytes "US")) end))))
                                    end))))))
                        nil))
                    end)))))));
}
