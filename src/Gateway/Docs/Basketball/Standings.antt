-- ===== src/Gateway/Docs/Basketball/Standings.antt =====
-- internal/gateway/manager.go: what basketballDocEndpoints says of /standings.
use all2api.Prelude.{true, false, some, [], ◌∷◌, ◌++◌}
use all2api.Text.{Bytes, bytes}
use all2api.Text.Utf8.{utf8}
use all2api.Gateway.Docs.Types.{
  DocEndpoint, number, text, array, object, nil, cons, end, member, field, query_param,
  envelope_fields,
}

-- GET /standings
unfoldable pub basketball_standings : Bytes → DocEndpoint
basketball_standings prefix = record {
  method = bytes "GET";
  path = prefix ++ bytes "/standings";
  summary = utf8 "查询篮球联赛积分榜";
  description = utf8 "返回指定联赛和赛季的球队排名、胜负场、分组和胜率等信息。常规用法需要提供 league 与 season。";
  parameters =
      query_param (bytes "league") true (bytes "integer") (bytes "12") (utf8 "联赛 ID。")
      ∷ query_param (bytes "season") true (bytes "string") (bytes "2023-2024") (utf8 "赛季。")
      ∷ query_param (bytes "team") false (bytes "integer") (bytes "132") (utf8 "只返回指定球队的排名记录。")
      ∷ query_param (bytes "group") false (bytes "string") (bytes "Western Conference")
          (utf8 "按分组过滤。")
      ∷ [];
  response_fields = envelope_fields (
      field (bytes "response[].position") (bytes "number") (utf8 "排名。")
      ∷ field (bytes "response[].stage") (bytes "string|null") (utf8 "阶段。")
      ∷ field (bytes "response[].group.name") (bytes "string") (utf8 "分组名称。")
      ∷ field (bytes "response[].team") (bytes "object") (utf8 "球队 ID、名称、Logo。")
      ∷ field (bytes "response[].league") (bytes "object") (utf8 "联赛 ID、名称、赛季。")
      ∷ field (bytes "response[].country") (bytes "object") (utf8 "国家/地区信息。")
      ∷ field (bytes "response[].games.played") (bytes "number") (utf8 "已赛场次。")
      ∷ field (bytes "response[].games.win") (bytes "object") (utf8 "胜场统计。")
      ∷ field (bytes "response[].games.lose") (bytes "object") (utf8 "负场统计。")
      ∷ field (bytes "response[].points.for") (bytes "number") (utf8 "总得分。")
      ∷ field (bytes "response[].points.against") (bytes "number") (utf8 "总失分。")
      ∷ []);
  response_sample = some (
      object (
        member (bytes "get") (text (bytes "standings")) (
          member (bytes "parameters")
            (object (
              member (bytes "league") (text (bytes "12"))
                (member (bytes "season") (text (bytes "2023-2024")) end)))
            (member (bytes "errors") (array nil) (
              member (bytes "results") (number 1) (
                member (bytes "paging")
                  (object
                    (member (bytes "current") (number 1) (member (bytes "total") (number 1) end)))
                  (member (bytes "response")
                    (array (
                      cons
                        (object (
                          member (bytes "position") (number 1) (
                            member (bytes "stage") (text (bytes "Regular Season")) (
                              member (bytes "group")
                                (object
                                  (member (bytes "name") (text (bytes "Western Conference")) end))
                                (member (bytes "team")
                                  (object (
                                    member (bytes "id") (number 132) (
                                      member (bytes "name") (text (bytes "Los Angeles Lakers"))
                                        end)))
                                  (member (bytes "league")
                                    (object (
                                      member (bytes "id") (number 12)
                                        (member (bytes "season") (text (bytes "2023-2024")) end)))
                                    (member (bytes "games")
                                      (object (
                                        member (bytes "played") (number 82) (
                                          member (bytes "win")
                                            (object (member (bytes "total") (number 52) end))
                                            (member (bytes "lose")
                                              (object (member (bytes "total") (number 30) end))
                                              end))))
                                      (member (bytes "points")
                                        (object (
                                          member (bytes "for") (number 9680)
                                            (member (bytes "against") (number 9340) end)))
                                        end))))))))
                        nil))
                    end)))))));
}
