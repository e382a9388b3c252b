-- ===== src/Gateway/Docs/Football/Leagues.antt =====
-- internal/gateway/manager.go: what footballDocEndpoints says of /leagues.
use all2api.Prelude.{true, false, some, [], ◌∷◌, ◌++◌}
use all2api.Text.{Bytes, bytes}
use all2api.Text.Utf8.{utf8}
use all2api.Gateway.Docs.Types.{
  DocEndpoint, boolean, number, text, array, object, nil, cons, end, member, field, query_param,
  envelope_fields,
}

-- GET /leagues
unfoldable pub football_leagues : Bytes → DocEndpoint
football_leagues prefix = record {
  method = bytes "GET";
  path = prefix ++ bytes "/leagues";
  summary = utf8 "查询足球联赛和杯赛";
  description =
      utf8 "用于获取联赛/杯赛基础信息、所属国家、Logo、赛季列表和赛季覆盖能力。常用于先查 league id，再用 league+season 查询积分榜、赛程、球队或球员。";
  parameters =
      query_param (bytes "id") false (bytes "integer") (bytes "39") (utf8 "按联赛 ID 精确查询。")
      ∷ query_param (bytes "name") false (bytes "string") (bytes "Premier League")
          (utf8 "按联赛名称精确查询。")
      ∷ query_param (bytes "country") false (bytes "string") (bytes "England") (utf8 "按国家/地区名称过滤。")
      ∷ query_param (bytes "code") false (bytes "string") (bytes "GB-ENG") (utf8 "按国家/地区代码过滤。")
      ∷ query_param (bytes "season") false (bytes "integer") (bytes "2023") (utf8 "按赛季年份过滤。")
      ∷ query_param (bytes "team") false (bytes "integer") (bytes "33") (utf8 "查询指定球队参加过的联赛。")
      ∷ query_param (bytes "type") false (bytes "string") (bytes "league")
          (utf8 "赛事类型，可为 league 或 cup。")
      ∷ query_param (bytes "current") false (bytes "boolean") (bytes "true") (utf8 "只返回当前赛季。")
      ∷ query_param (bytes "search") false (bytes "string") (bytes "premier") (utf8 "按联赛名称模糊搜索。")
      ∷ query_param (bytes "last") false (bytes "integer") (bytes "10") (utf8 "返回最近 N 个联赛。")
      ∷ [];
  response_fields = envelope_fields (
      field (bytes "response[].league.id") (bytes "number") (utf8 "联赛 ID。")
      ∷ field (bytes "response[].league.name") (bytes "string") (utf8 "联赛名称。")
      ∷ field (bytes "response[].league.type") (bytes "string") (utf8 "赛事类型。")
      ∷ field (bytes "response[].league.logo") (bytes "string") (utf8 "联赛 Logo URL。")
      ∷ field (bytes "response[].country.name") (bytes "string") (utf8 "所属国家/地区名称。")
      ∷ field (bytes "response[].country.code") (bytes "string") (utf8 "所属国家/地区代码。")
      ∷ field (bytes "response[].seasons[].year") (bytes "number") (utf8 "赛季年份。")
      ∷ field (bytes "response[].seasons[].current") (bytes "boolean") (utf8 "是否当前赛季。")
      ∷ field (bytes "response[].seasons[].coverage") (bytes "object")
          (utf8 "该赛季支持的赛程、积分榜、球员、赔率等数据覆盖能力。")
      ∷ []);
  response_sample = some (
      object (
        member (bytes "get") (text (bytes "leagues")) (
          member (bytes "parameters") (object (member (bytes "id") (text (bytes "39")) end)) (
            member (bytes "errors") (array nil) (
              member (bytes "results") (number 1) (
                member (bytes "paging")
                  (object
                    (member (bytes "current") (number 1) (member (bytes "total") (number 1) end)))
                  (member (bytes "response")
                    (array (
                      cons
                        (object (
                          member (bytes "league")
                            (object (
                              member (bytes "id") (number 39) (
                                member (bytes "name") (text (bytes "Premier League")) (
                                  member (bytes "type") (text (bytes "League")) (
                                    member (bytes "logo")
                                      (text (
                                        bytes
                                          "https://media.api-sports.io/football/leagues/39.png"))
                                      end)))))
                            (member (bytes "country")
                              (object (
                                member (bytes "name") (text (bytes "England")) (
                                  member (bytes "code") (text (bytes "GB-ENG")) (
                                    member (bytes "flag")
                                      (text (bytes "https://media.api-sports.io/flags/gb-eng.svg"))
                                      end))))
                              (member (bytes "seasons")
                                (array (
                                  cons
                                    (object (
                                      member (bytes "year") (number 2023) (
                                        member (bytes "current") (boolean true) (
                                          member (bytes "coverage")
                                            (object (
                                              member (bytes "fixtures")
                                                (object
                                                  (member (bytes "events") (boolean true) end))
                                                (member (bytes "standings") (boolean true)
                                                  (member (bytes "players") (boolean true) end))))
                                            end))))
                                    nil))
                                end))))
                        nil))
                    end)))))));
}
