-- ===== src/Gateway/Docs/Basketball/Games.antt =====
-- internal/gateway/manager.go: what basketballDocEndpoints says of /games.
use all2api.Prelude.{false, some, [], ◌∷◌, ◌++◌}
use all2api.Text.{Bytes, bytes}
use all2api.Text.Utf8.{utf8}
use all2api.Gateway.Docs.Types.{
  DocEndpoint, number, text, array, object, nil, cons, end, member, field, query_param,
  envelope_fields,
}

-- GET /games
unfoldable pub basketball_games : Bytes → DocEndpoint
basketball_games prefix = record {
  method = bytes "GET";
  path = prefix ++ bytes "/games";
  summary = utf8 "查询篮球比赛、赛程和比分";
  description = utf8 "返回篮球比赛时间、状态、联赛、赛季、主客队、各节比分和总分。常用于按 date 查询赛程，或按 league+season/team 获取球队比赛。";
  parameters =
      query_param (bytes "id") false (bytes "integer") (bytes "12345") (utf8 "按比赛 ID 查询。")
      ∷ query_param (bytes "date") false (bytes "date") (bytes "2024-01-15")
          (utf8 "按比赛日期查询，格式 YYYY-MM-DD。")
      ∷ query_param (bytes "league") false (bytes "integer") (bytes "12") (utf8 "按联赛 ID 过滤。")
      ∷ query_param (bytes "season") false (bytes "string") (bytes "2023-2024") (utf8 "按赛季过滤。")
      ∷ query_param (bytes "team") false (bytes "integer") (bytes "132") (utf8 "按球队 ID 查询该队比赛。")
      ∷ query_param (bytes "timezone") false (bytes "string") (bytes "Asia/Shanghai")
          (utf8 "返回时间使用的时区。")
      ∷ [];
  response_fields = envelope_fields (
      field (bytes "response[].id") (bytes "number") (utf8 "比赛 ID。")
      ∷ field (bytes "response[].date") (bytes "string") (utf8 "比赛时间，ISO 8601 格式。")
      ∷ field (bytes "response[].time") (bytes "string|null") (utf8 "比赛时间文本。")
      ∷ field (bytes "response[].timestamp") (bytes "number") (utf8 "比赛 Unix 时间戳。")
      ∷ field (bytes "response[].timezone") (bytes "string") (utf8 "响应时区。")
      ∷ field (bytes "response[].stage") (bytes "string|null") (utf8 "比赛阶段。")
      ∷ field (bytes "response[].status.long") (bytes "string") (utf8 "比赛状态完整名称。")
      ∷ field (bytes "response[].status.short") (bytes "string") (utf8 "比赛状态缩写。")
      ∷ field (bytes "response[].league") (bytes "object") (utf8 "联赛 ID、名称、类型、赛季等信息。")
      ∷ field (bytes "response[].teams.home") (bytes "object") (utf8 "主队 ID、名称、Logo。")
      ∷ field (bytes "response[].teams.away") (bytes "object") (utf8 "客队 ID、名称、Logo。")
      ∷ field (bytes "response[].scores.home") (bytes "object") (utf8 "主队各节和总分。")
      ∷ field (bytes "response[].scores.away") (bytes "object") (utf8 "客队各节和总分。")
      ∷ []);
  response_sample = some (
      object (
        member (bytes "get") (text (bytes "games")) (
          member (bytes "parameters")
            (object (
              member (bytes "league") (text (bytes "12")) (
                member (bytes "season") (text (bytes "2023-2024"))
                  (member (bytes "team") (text (bytes "132")) end))))
            (member (bytes "errors") (array nil) (
              member (bytes "results") (number 1) (
                member (bytes "paging")
                  (object
                    (member (bytes "current") (number 1) (member (bytes "total") (number 1) end)))
                  (member (bytes "response")
                    (array (
                      cons
                        (object (
                          member (bytes "id") (number 12345) (
                            member (bytes "date") (text (bytes "2024-01-15T03:30:00+00:00")) (
                              member (bytes "timestamp") (number 1705289400) (
                                member (bytes "timezone") (text (bytes "UTC")) (
                                  member (bytes "status")
                                    (object (
                                      member (bytes "long") (text (bytes "Finished"))
                                        (member (bytes "short") (text (bytes "FT")) end)))
                                    (member (bytes "league")
                                      (object (
                                        member (bytes "id") (number 12) (
                                          member (bytes "name") (text (bytes "NBA")) (
                                            member (bytes "season") (text (bytes "2023-2024"))
                                              end))))
                                      (member (bytes "teams")
                                        (object (
                                          member (bytes "home")
                                            (object (
                                              member (bytes "id") (number 132) (
                                                member (bytes "name")
                                                  (text (bytes "Los Angeles Lakers")) end)))
                                            (member (bytes "away")
                                              (object (
                                                member (bytes "id") (number 134) (
                                                  member (bytes "name")
                                                    (text (bytes "Boston Celtics")) end)))
                                              end)))
                                        (member (bytes "scores")
                                          (object (
                                            member (bytes "home")
                                              (object (
                                                member (bytes "quarter_1") (number 28) (
                                                  member (bytes "quarter_2") (number 31)
                                                    (member (bytes "total") (number 112) end))))
                                              (member (bytes "away")
                                                (object (
                                                  member (bytes "quarter_1") (number 25) (
                                                    member (bytes "quarter_2") (number 30)
                                                      (member (bytes "total") (number 108) end))))
                                                end)))
                                          end)))))))))
                        nil))
                    end)))))));
}
