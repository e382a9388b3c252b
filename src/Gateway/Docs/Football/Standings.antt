-- ===== src/Gateway/Docs/Football/Standings.antt =====
-- internal/gateway/manager.go: what footballDocEndpoints says of /standings.
use all2api.Prelude.{true, false, some, [], ◌∷◌, ◌++◌}
use all2api.Text.{Bytes, bytes}
use all2api.Text.Utf8.{utf8}
use all2api.Gateway.Docs.Types.{
  DocEndpoint, number, text, array, object, nil, cons, end, member, field, query_param,
  envelope_fields,
}

-- GET /standings
unfoldable pub football_standings : Bytes → DocEndpoint
football_standings prefix = record {
  method = bytes "GET";
  path = prefix ++ bytes "/standings";
  summary = utf8 "查询足球联赛积分榜";
  description = utf8 "返回指定联赛和赛季的积分榜，包括排名、球队、积分、胜平负、进失球和主客场统计。官方常规用法要求提供 league 与 season。";
  parameters =
      query_param (bytes "league") true (bytes "integer") (bytes "39") (utf8 "联赛 ID。")
      ∷ query_param (bytes "season") true (bytes "integer") (bytes "2023") (utf8 "赛季年份。")
      ∷ query_param (bytes "team") false (bytes "integer") (bytes "33") (utf8 "只返回指定球队的积分榜记录。")
      ∷ [];
  response_fields = envelope_fields (
      field (bytes "response[].league.id") (bytes "number") (utf8 "联赛 ID。")
      ∷ field (bytes "response[].league.name") (bytes "string") (utf8 "联赛名称。")
      ∷ field (bytes "response[].league.season") (bytes "number") (utf8 "赛季年份。")
      ∷ field (bytes "response[].league.standings[][].rank") (bytes "number") (utf8 "球队排名。")
      ∷ field (bytes "response[].league.standings[][].team.id") (bytes "number") (utf8 "球队 ID。")
      ∷ field (bytes "response[].league.standings[][].team.name") (bytes "string") (utf8 "球队名称。")
      ∷ field (bytes "response[].league.standings[][].points") (bytes "number") (utf8 "积分。")
      ∷ field (bytes "response[].league.standings[][].goalsDiff") (bytes "number") (utf8 "净胜球。")
      ∷ field (bytes "response[].league.standings[][].group") (bytes "string") (utf8 "分组名称。")
      ∷ field (bytes "response[].league.standings[][].form") (bytes "string") (utf8 "近期战绩字符串。")
      ∷ field (bytes "response[].league.standings[][].all") (bytes "object") (utf8 "总计场次、胜平负、进失球。")
      ∷ field (bytes "response[].league.standings[][].home") (bytes "object") (utf8 "主场场次、胜平负、进失球。")
      ∷ field (bytes "response[].league.standings[][].away") (bytes "object") (utf8 "客场场次、胜平负、进失球。")
      ∷ []);
  response_sample = some (
      object (
        member (bytes "get") (text (bytes "standings")) (
          member (bytes "parameters")
            (object (
              member (bytes "league") (text (bytes "39"))
                (member (bytes "season") (text (bytes "2023")) end)))
            (member (bytes "errors") (array nil) (
              member (bytes "results") (number 1) (
                member (bytes "paging")
                  (object
                    (member (bytes "current") (number 1) (member (bytes "total") (number 1) end)))
                  (member (bytes "response")
                    (array (
                      cons
                        (object (
                          member (bytes "league")
                            (object (
                              member (bytes "id") (number 39) (
                                member (bytes "name") (text (bytes "Premier League")) (
                                  member (bytes "season") (number 2023) (
                                    member (bytes "standings")
                                      (array (
                                        cons
                                          (array (
                                            cons
                                              (object (
                                                member (bytes "rank") (number 1) (
                                                  member (bytes "team")
                                                    (object (
                                                      member (bytes "id") (number 33) (
                                                        member (bytes "name")
                                                          (text (bytes "Manchester United")) end)))
                                                    (member (bytes "points") (number 88) (
                                                      member (bytes "goalsDiff") (number 42) (
                                                        member (bytes "form") (text (bytes "WWDWW"))
                                                          (member (bytes "all")
                                                            (object (
                                                            member (bytes "played") (number 38) (
                                                            member (bytes "win") (number 28) (
                                                            member (bytes "draw") (number 4) (
                                                            member (bytes "lose") (number 6)
                                                            end)))))
                                                            end)))))))
                                              nil))
                                          nil))
                                      end)))))
                            end))
                        nil))
                    end)))))));
}
