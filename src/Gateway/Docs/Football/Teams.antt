-- ===== src/Gateway/Docs/Football/Teams.antt =====
-- internal/gateway/manager.go: what footballDocEndpoints says of /teams.
use all2api.Prelude.{false, some, [], ◌∷◌, ◌++◌}
use all2api.Text.{Bytes, bytes}
use all2api.Text.Utf8.{utf8}
use all2api.Gateway.Docs.Types.{
  DocEndpoint, boolean, number, text, array, object, nil, cons, end, member, field, query_param,
  envelope_fields,
}

-- GET /teams
unfoldable pub football_teams : Bytes → DocEndpoint
football_teams prefix = record {
  method = bytes "GET";
  path = prefix ++ bytes "/teams";
  summary = utf8 "查询足球球队与主场信息";
  description = utf8 "返回球队基础资料和主场球场信息。常用于通过 league+season 获取某赛季参赛球队，或通过 id/name/country 定位球队 ID。";
  parameters =
      query_param (bytes "id") false (bytes "integer") (bytes "33") (utf8 "按球队 ID 精确查询。")
      ∷ query_param (bytes "name") false (bytes "string") (bytes "Manchester United")
          (utf8 "按球队名称精确查询。")
      ∷ query_param (bytes "league") false (bytes "integer") (bytes "39")
          (utf8 "按联赛 ID 过滤。通常与 season 一起使用。")
      ∷ query_param (bytes "season") false (bytes "integer") (bytes "2023")
          (utf8 "按赛季年份过滤。通常与 league 一起使用。")
      ∷ query_param (bytes "country") false (bytes "string") (bytes "England") (utf8 "按国家/地区名称过滤。")
      ∷ query_param (bytes "code") false (bytes "string") (bytes "MUN") (utf8 "按球队代码过滤。")
      ∷ query_param (bytes "venue") false (bytes "integer") (bytes "556") (utf8 "按球场 ID 过滤。")
      ∷ query_param (bytes "search") false (bytes "string") (bytes "manchester") (utf8 "按球队名称模糊搜索。")
      ∷ [];
  response_fields = envelope_fields (
      field (bytes "response[].team.id") (bytes "number") (utf8 "球队 ID。")
      ∷ field (bytes "response[].team.name") (bytes "string") (utf8 "球队名称。")
      ∷ field (bytes "response[].team.code") (bytes "string") (utf8 "球队代码。")
      ∷ field (bytes "response[].team.country") (bytes "string") (utf8 "所属国家/地区。")
      ∷ field (bytes "response[].team.founded") (bytes "number") (utf8 "成立年份。")
      ∷ field (bytes "response[].team.national") (bytes "boolean") (utf8 "是否国家队。")
      ∷ field (bytes "response[].team.logo") (bytes "string") (utf8 "球队 Logo URL。")
      ∷ field (bytes "response[].venue.id") (bytes "number") (utf8 "主场球场 ID。")
      ∷ field (bytes "response[].venue.name") (bytes "string") (utf8 "主场球场名称。")
      ∷ field (bytes "response[].venue.city") (bytes "string") (utf8 "球场所在城市。")
      ∷ field (bytes "response[].venue.capacity") (bytes "number") (utf8 "球场容量。")
      ∷ []);
  response_sample = some (
      object (
        member (bytes "get") (text (bytes "teams")) (
          member (bytes "parameters") (object (member (bytes "id") (text (bytes "33")) end)) (
            member (bytes "errors") (array nil) (
              member (bytes "results") (number 1) (
                member (bytes "paging")
                  (object
                    (member (bytes "current") (number 1) (member (bytes "total") (number 1) end)))
                  (member (bytes "response")
                    (array (
                      cons
                        (object (
                          member (bytes "team")
                            (object (
                              member (bytes "id") (number 33) (
                                member (bytes "name") (text (bytes "Manchester United")) (
                                  member (bytes "code") (text (bytes "MUN")) (
                                    member (bytes "country") (text (bytes "England")) (
                                      member (bytes "founded") (number 1878) (
                                        member (bytes "national") (boolean false) (
                                          member (bytes "logo")
                                            (text (
                                              bytes
                                                "https://media.api-sports.io/football/teams/33.png"))
                                            end))))))))
                            (member (bytes "venue")
                              (object (
                                member (bytes "id") (number 556) (
                                  member (bytes "name") (text (bytes "Old Trafford")) (
                                    member (bytes "city") (text (bytes "Manchester"))
                                      (member (bytes "capacity") (number 76212) end)))))
                              end)))
                        nil))
                    end)))))));
}
