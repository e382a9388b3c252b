-- ===== src/Gateway/Docs/Football/Fixtures.antt =====
-- internal/gateway/manager.go: what footballDocEndpoints says of /fixtures.
use all2api.Prelude.{false, some, [], ◌∷◌, ◌++◌}
use all2api.Text.{Bytes, bytes}
use all2api.Text.Utf8.{utf8}
use all2api.Gateway.Docs.Types.{
  DocEndpoint, null, number, text, array, object, nil, cons, end, member, field, query_param,
  envelope_fields,
}

-- GET /fixtures
unfoldable pub football_fixtures : Bytes → DocEndpoint
football_fixtures prefix = record {
  method = bytes "GET";
  path = prefix ++ bytes "/fixtures";
  summary = utf8 "查询足球比赛、赛程和比分";
  description =
      utf8
        "返回比赛时间、状态、联赛、主客队、进球、半全场比分等信息。官方要求至少提供一个可限定范围的条件，例如 id、date、live、team、league+season、from+to、last 或 next。";
  parameters =
      query_param (bytes "id") false (bytes "integer") (bytes "868289") (utf8 "按单场比赛 ID 查询。")
      ∷ query_param (bytes "ids") false (bytes "string") (bytes "868289-868290")
          (utf8 "按多个比赛 ID 查询，多个 ID 用连字符分隔。")
      ∷ query_param (bytes "live") false (bytes "string") (bytes "all")
          (utf8 "查询实时比赛，可为 all 或指定联赛 ID 列表。")
      ∷ query_param (bytes "date") false (bytes "date") (bytes "2023-08-12")
          (utf8 "按比赛日期查询，格式 YYYY-MM-DD。")
      ∷ query_param (bytes "league") false (bytes "integer") (bytes "39")
          (utf8 "按联赛 ID 过滤。与 season 搭配查询赛季赛程。")
      ∷ query_param (bytes "season") false (bytes "integer") (bytes "2023")
          (utf8 "按赛季年份过滤。与 league 搭配查询赛季赛程。")
      ∷ query_param (bytes "team") false (bytes "integer") (bytes "33") (utf8 "按球队 ID 查询该队比赛。")
      ∷ query_param (bytes "last") false (bytes "integer") (bytes "5") (utf8 "查询最近 N 场比赛。")
      ∷ query_param (bytes "next") false (bytes "integer") (bytes "5") (utf8 "查询接下来 N 场比赛。")
      ∷ query_param (bytes "from") false (bytes "date") (bytes "2023-08-01")
          (utf8 "日期范围起点，格式 YYYY-MM-DD。通常与 to 一起使用。")
      ∷ query_param (bytes "to") false (bytes "date") (bytes "2023-08-31")
          (utf8 "日期范围终点，格式 YYYY-MM-DD。通常与 from 一起使用。")
      ∷ query_param (bytes "round") false (bytes "string") (bytes "Regular Season - 1")
          (utf8 "按轮次过滤。")
      ∷ query_param (bytes "status") false (bytes "string") (bytes "NS")
          (utf8 "按比赛状态过滤，例如 NS、FT、LIVE。")
      ∷ query_param (bytes "venue") false (bytes "integer") (bytes "556") (utf8 "按球场 ID 过滤。")
      ∷ query_param (bytes "timezone") false (bytes "string") (bytes "Asia/Shanghai")
          (utf8 "返回时间使用的时区。")
      ∷ [];
  response_fields = envelope_fields (
      field (bytes "response[].fixture.id") (bytes "number") (utf8 "比赛 ID。")
      ∷ field (bytes "response[].fixture.referee") (bytes "string|null") (utf8 "裁判名称。")
      ∷ field (bytes "response[].fixture.timezone") (bytes "string") (utf8 "响应时区。")
      ∷ field (bytes "response[].fixture.date") (bytes "string") (utf8 "比赛时间，ISO 8601 格式。")
      ∷ field (bytes "response[].fixture.timestamp") (bytes "number") (utf8 "比赛 Unix 时间戳。")
      ∷ field (bytes "response[].fixture.status.long") (bytes "string") (utf8 "比赛状态完整名称。")
      ∷ field (bytes "response[].fixture.status.short") (bytes "string") (utf8 "比赛状态缩写。")
      ∷ field (bytes "response[].league.id") (bytes "number") (utf8 "联赛 ID。")
      ∷ field (bytes "response[].league.name") (bytes "string") (utf8 "联赛名称。")
      ∷ field (bytes "response[].league.season") (bytes "number") (utf8 "赛季年份。")
      ∷ field (bytes "response[].teams.home.id") (bytes "number") (utf8 "主队 ID。")
      ∷ field (bytes "response[].teams.home.name") (bytes "string") (utf8 "主队名称。")
      ∷ field (bytes "response[].teams.away.id") (bytes "number") (utf8 "客队 ID。")
      ∷ field (bytes "response[].teams.away.name") (bytes "string") (utf8 "客队名称。")
      ∷ field (bytes "response[].goals.home") (bytes "number|null") (utf8 "主队进球数。")
      ∷ field (bytes "response[].goals.away") (bytes "number|null") (utf8 "客队进球数。")
      ∷ field (bytes "response[].score") (bytes "object") (utf8 "半场、全场、加时、点球比分。")
      ∷ []);
  response_sample = some (
      object (
        member (bytes "get") (text (bytes "fixtures")) (
          member (bytes "parameters")
            (object (
              member (bytes "league") (text (bytes "39")) (
                member (bytes "season") (text (bytes "2023"))
                  (member (bytes "next") (text (bytes "1")) end))))
            (member (bytes "errors") (array nil) (
              member (bytes "results") (number 1) (
                member (bytes "paging")
                  (object
                    (member (bytes "current") (number 1) (member (bytes "total") (number 1) end)))
                  (member (bytes "response")
                    (array (
                      cons
                        (object (
                          member (bytes "fixture")
                            (object (
                              member (bytes "id") (number 868289) (
                                member (bytes "referee") (text (bytes "Michael Oliver")) (
                                  member (bytes "timezone") (text (bytes "UTC")) (
                                    member (bytes "date") (text (bytes "2023-08-12T14:00:00+00:00"))
                                      (member (bytes "timestamp") (number 1691848800) (
                                        member (bytes "status")
                                          (object (
                                            member (bytes "long") (text (bytes "Not Started")) (
                                              member (bytes "short") (text (bytes "NS"))
                                                (member (bytes "elapsed") null end))))
                                          end)))))))
                            (member (bytes "league")
                              (object (
                                member (bytes "id") (number 39) (
                                  member (bytes "name") (text (bytes "Premier League")) (
                                    member (bytes "country") (text (bytes "England")) (
                                      member (bytes "season") (number 2023) (
                                        member (bytes "round") (text (bytes "Regular Season - 1"))
                                          end))))))
                              (member (bytes "teams")
                                (object (
                                  member (bytes "home")
                                    (object (
                                      member (bytes "id") (number 33) (
                                        member (bytes "name") (text (bytes "Manchester United"))
                                          (member (bytes "winner") null end))))
                                    (member (bytes "away")
                                      (object (
                                        member (bytes "id") (number 34) (
                                          member (bytes "name") (text (bytes "Newcastle"))
                                            (member (bytes "winner") null end))))
                                      end)))
                                (member (bytes "goals")
                                  (object
                                    (member (bytes "home") null (member (bytes "away") null end)))
                                  (member (bytes "score")
                                    (object (
                                      member (bytes "halftime")
                                        (object (
                                          member (bytes "home") null
                                            (member (bytes "away") null end)))
                                        (member (bytes "fulltime")
                                          (object (
                                            member (bytes "home") null
                                              (member (bytes "away") null end)))
                                          end)))
                                    end))))))
                        nil))
                    end)))))));
}
