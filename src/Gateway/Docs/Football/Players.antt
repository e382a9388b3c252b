-- ===== src/Gateway/Docs/Football/Players.antt =====
-- internal/gateway/manager.go: what footballDocEndpoints says of /players.
use all2api.Prelude.{false, some, [], ◌∷◌, ◌++◌}
use all2api.Text.{Bytes, bytes}
use all2api.Text.Utf8.{utf8}
use all2api.Gateway.Docs.Types.{
  DocEndpoint, boolean, number, text, array, object, nil, cons, end, member, field, query_param,
  envelope_fields,
}

-- GET /players
unfoldable pub football_players : Bytes → DocEndpoint
football_players prefix = record {
  method = bytes "GET";
  path = prefix ++ bytes "/players";
  summary = utf8 "查询足球球员资料和赛季统计";
  description =
      utf8
        "返回球员基础资料及其在球队/联赛/赛季下的统计数据。常用于按 team+season 或 league+season 获取球员列表，也可按 id 或 search 定位球员。";
  parameters =
      query_param (bytes "id") false (bytes "integer") (bytes "276") (utf8 "按球员 ID 查询。")
      ∷ query_param (bytes "team") false (bytes "integer") (bytes "33") (utf8 "按球队 ID 过滤。")
      ∷ query_param (bytes "league") false (bytes "integer") (bytes "39") (utf8 "按联赛 ID 过滤。")
      ∷ query_param (bytes "season") false (bytes "integer") (bytes "2023") (utf8 "赛季年份。")
      ∷ query_param (bytes "search") false (bytes "string") (bytes "messi")
          (utf8 "按球员名称搜索，至少 4 个字符。")
      ∷ query_param (bytes "page") false (bytes "integer") (bytes "2") (utf8 "分页页码。")
      ∷ [];
  response_fields = envelope_fields (
      field (bytes "response[].player.id") (bytes "number") (utf8 "球员 ID。")
      ∷ field (bytes "response[].player.name") (bytes "string") (utf8 "球员名称。")
      ∷ field (bytes "response[].player.firstname") (bytes "string") (utf8 "名。")
      ∷ field (bytes "response[].player.lastname") (bytes "string") (utf8 "姓。")
      ∷ field (bytes "response[].player.age") (bytes "number") (utf8 "年龄。")
      ∷ field (bytes "response[].player.nationality") (bytes "string") (utf8 "国籍。")
      ∷ field (bytes "response[].player.height") (bytes "string") (utf8 "身高。")
      ∷ field (bytes "response[].player.weight") (bytes "string") (utf8 "体重。")
      ∷ field (bytes "response[].player.injured") (bytes "boolean") (utf8 "是否受伤。")
      ∷ field (bytes "response[].statistics[].team") (bytes "object") (utf8 "统计所属球队。")
      ∷ field (bytes "response[].statistics[].league") (bytes "object") (utf8 "统计所属联赛。")
      ∷ field (bytes "response[].statistics[].games") (bytes "object") (utf8 "出场、首发、位置、评分等比赛统计。")
      ∷ field (bytes "response[].statistics[].goals") (bytes "object") (utf8 "进球、助攻、失球等进攻统计。")
      ∷ field (bytes "response[].statistics[].cards") (bytes "object") (utf8 "黄牌、红牌统计。")
      ∷ []);
  response_sample = some (
      object (
        member (bytes "get") (text (bytes "players")) (
          member (bytes "parameters")
            (object (
              member (bytes "team") (text (bytes "33"))
                (member (bytes "season") (text (bytes "2023")) end)))
            (member (bytes "errors") (array nil) (
              member (bytes "results") (number 1) (
                member (bytes "paging")
                  (object
                    (member (bytes "current") (number 1) (member (bytes "total") (number 3) end)))
                  (member (bytes "response")
                    (array (
                      cons
                        (object (
                          member (bytes "player")
                            (object (
                              member (bytes "id") (number 276) (
                                member (bytes "name") (text (bytes "Player Name")) (
                                  member (bytes "age") (number 28) (
                                    member (bytes "nationality") (text (bytes "England"))
                                      (member (bytes "injured") (boolean false) end))))))
                            (member (bytes "statistics")
                              (array (
                                cons
                                  (object (
                                    member (bytes "team")
                                      (object (
                                        member (bytes "id") (number 33) (
                                          member (bytes "name") (text (bytes "Manchester United"))
                                            end)))
                                      (member (bytes "league")
                                        (object (
                                          member (bytes "id") (number 39)
                                            (member (bytes "season") (number 2023) end)))
                                        (member (bytes "games")
                                          (object (
                                            member (bytes "appearences") (number 30) (
                                              member (bytes "position") (text (bytes "Attacker"))
                                                end)))
                                          (member (bytes "goals")
                                            (object (
                                              member (bytes "total") (number 12)
                                                (member (bytes "assists") (number 5) end)))
                                            end)))))
                                  nil))
                              end)))
                        nil))
                    end)))))));
}
