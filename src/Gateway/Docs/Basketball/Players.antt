-- ===== src/Gateway/Docs/Basketball/Players.antt =====
-- internal/gateway/manager.go: what basketballDocEndpoints says of /players.
use all2api.Prelude.{true, false, some, [], ◌∷◌, ◌++◌}
use all2api.Text.{Bytes, bytes}
use all2api.Text.Utf8.{utf8}
use all2api.Gateway.Docs.Types.{
  DocEndpoint, boolean, number, text, array, object, nil, cons, end, member, field, query_param,
  envelope_fields,
}

-- GET /players
unfoldable pub basketball_players : Bytes → DocEndpoint
basketball_players prefix = record {
  method = bytes "GET";
  path = prefix ++ bytes "/players";
  summary = utf8 "查询篮球球员";
  description = utf8 "返回篮球球员基础资料，可按球队、比赛、赛季或名称搜索。适合先定位 player id，再与比赛或统计接口组合使用。";
  parameters =
      query_param (bytes "id") false (bytes "integer") (bytes "1046") (utf8 "按球员 ID 查询。")
      ∷ query_param (bytes "team") false (bytes "integer") (bytes "132") (utf8 "按球队 ID 过滤。")
      ∷ query_param (bytes "game") false (bytes "integer") (bytes "12345") (utf8 "按比赛 ID 过滤。")
      ∷ query_param (bytes "season") false (bytes "string") (bytes "2023-2024") (utf8 "按赛季过滤。")
      ∷ query_param (bytes "search") false (bytes "string") (bytes "james") (utf8 "按球员名称搜索。")
      ∷ [];
  response_fields = envelope_fields (
      field (bytes "response[].id") (bytes "number") (utf8 "球员 ID。")
      ∷ field (bytes "response[].firstname") (bytes "string") (utf8 "名。")
      ∷ field (bytes "response[].lastname") (bytes "string") (utf8 "姓。")
      ∷ field (bytes "response[].birth.date") (bytes "string|null") (utf8 "出生日期。")
      ∷ field (bytes "response[].birth.country") (bytes "string|null") (utf8 "出生国家/地区。")
      ∷ field (bytes "response[].nba.start") (bytes "number|null") (utf8 "NBA 起始年份。")
      ∷ field (bytes "response[].nba.pro") (bytes "number|null") (utf8 "职业年限。")
      ∷ field (bytes "response[].height") (bytes "object") (utf8 "英制/公制身高。")
      ∷ field (bytes "response[].weight") (bytes "object") (utf8 "英制/公制体重。")
      ∷ field (bytes "response[].college") (bytes "string|null") (utf8 "大学。")
      ∷ field (bytes "response[].affiliation") (bytes "string|null") (utf8 "隶属信息。")
      ∷ field (bytes "response[].leagues") (bytes "object") (utf8 "不同联赛下的球衣号、位置和活跃状态。")
      ∷ []);
  response_sample = some (
      object (
        member (bytes "get") (text (bytes "players")) (
          member (bytes "parameters") (object (member (bytes "search") (text (bytes "james")) end))
            (member (bytes "errors") (array nil) (
              member (bytes "results") (number 1) (
                member (bytes "paging")
                  (object
                    (member (bytes "current") (number 1) (member (bytes "total") (number 1) end)))
                  (member (bytes "response")
                    (array (
                      cons
                        (object (
                          member (bytes "id") (number 1046) (
                            member (bytes "firstname") (text (bytes "LeBron")) (
                              member (bytes "lastname") (text (bytes "James")) (
                                member (bytes "birth")
                                  (object (
                                    member (bytes "date") (text (bytes "1984-12-30"))
                                      (member (bytes "country") (text (bytes "USA")) end)))
                                  (member (bytes "nba")
                                    (object (
                                      member (bytes "start") (number 2003)
                                        (member (bytes "pro") (number 20) end)))
                                    (member (bytes "height")
                                      (object (member (bytes "meters") (text (bytes "2.06")) end))
                                      (member (bytes "weight")
                                        (object
                                          (member (bytes "kilograms") (text (bytes "113.4")) end))
                                        (member (bytes "leagues")
                                          (object (
                                            member (bytes "standard")
                                              (object (
                                                member (bytes "jersey") (number 23) (
                                                  member (bytes "active") (boolean true)
                                                    (member (bytes "pos") (text (bytes "F")) end))))
                                              end))
                                          end)))))))))
                        nil))
                    end)))))));
}
