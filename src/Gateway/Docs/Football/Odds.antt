-- ===== src/Gateway/Docs/Football/Odds.antt =====
-- internal/gateway/manager.go: what footballDocEndpoints says of /odds.
use all2api.Prelude.{false, some, [], ◌∷◌, ◌++◌}
use all2api.Text.{Bytes, bytes}
use all2api.Text.Utf8.{utf8}
use all2api.Gateway.Docs.Types.{
  DocEndpoint, number, text, array, object, nil, cons, end, member, field, query_param,
  envelope_fields,
}

-- GET /odds
unfoldable pub football_odds : Bytes → DocEndpoint
football_odds prefix = record {
  method = bytes "GET";
  path = prefix ++ bytes "/odds";
  summary = utf8 "查询足球比赛赔率";
  description = utf8 "返回指定比赛、联赛或日期范围内的博彩公司、投注项和赔率值。赔率覆盖取决于 API-Football 订阅计划、联赛覆盖能力和数据供应情况。";
  parameters =
      query_param (bytes "fixture") false (bytes "integer") (bytes "868289") (utf8 "按比赛 ID 查询赔率。")
      ∷ query_param (bytes "league") false (bytes "integer") (bytes "39") (utf8 "按联赛 ID 过滤。")
      ∷ query_param (bytes "season") false (bytes "integer") (bytes "2023") (utf8 "赛季年份。")
      ∷ query_param (bytes "date") false (bytes "date") (bytes "2023-08-12") (utf8 "按日期过滤。")
      ∷ query_param (bytes "timezone") false (bytes "string") (bytes "Asia/Shanghai")
          (utf8 "返回时间使用的时区。")
      ∷ query_param (bytes "bookmaker") false (bytes "integer") (bytes "6") (utf8 "按博彩公司 ID 过滤。")
      ∷ query_param (bytes "bet") false (bytes "integer") (bytes "1") (utf8 "按投注项 ID 过滤。")
      ∷ query_param (bytes "page") false (bytes "integer") (bytes "2") (utf8 "分页页码。")
      ∷ [];
  response_fields = envelope_fields (
      field (bytes "response[].league") (bytes "object") (utf8 "联赛 ID、名称、国家、赛季等信息。")
      ∷ field (bytes "response[].fixture") (bytes "object") (utf8 "比赛 ID、时区、开赛时间等信息。")
      ∷ field (bytes "response[].update") (bytes "string") (utf8 "赔率最后更新时间。")
      ∷ field (bytes "response[].bookmakers[].id") (bytes "number") (utf8 "博彩公司 ID。")
      ∷ field (bytes "response[].bookmakers[].name") (bytes "string") (utf8 "博彩公司名称。")
      ∷ field (bytes "response[].bookmakers[].bets[].id") (bytes "number") (utf8 "投注项 ID。")
      ∷ field (bytes "response[].bookmakers[].bets[].name") (bytes "string") (utf8 "投注项名称。")
      ∷ field (bytes "response[].bookmakers[].bets[].values[].value") (bytes "string")
          (utf8 "投注选项。")
      ∷ field (bytes "response[].bookmakers[].bets[].values[].odd") (bytes "string") (utf8 "赔率值。")
      ∷ []);
  response_sample = some (
      object (
        member (bytes "get") (text (bytes "odds")) (
          member (bytes "parameters")
            (object (member (bytes "fixture") (text (bytes "868289")) end))
            (member (bytes "errors") (array nil) (
              member (bytes "results") (number 1) (
                member (bytes "paging")
                  (object
                    (member (bytes "current") (number 1) (member (bytes "total") (number 1) end)))
                  (member (bytes "response")
                    (array (
                      cons
                        (object (
                          member (bytes "league")
                            (object (
                              member (bytes "id") (number 39) (
                                member (bytes "name") (text (bytes "Premier League"))
                                  (member (bytes "season") (number 2023) end))))
                            (member (bytes "fixture")
                              (object (
                                member (bytes "id") (number 868289) (
                                  member (bytes "date") (text (bytes "2023-08-12T14:00:00+00:00"))
                                    end)))
                              (member (bytes "update") (text (bytes "2023-08-12T08:00:00+00:00")) (
                                member (bytes "bookmakers")
                                  (array (
                                    cons
                                      (object (
                                        member (bytes "id") (number 6) (
                                          member (bytes "name") (text (bytes "Bwin")) (
                                            member (bytes "bets")
                                              (array (
                                                cons
                                                  (object (
                                                    member (bytes "id") (number 1) (
                                                      member (bytes "name")
                                                        (text (bytes "Match Winner"))
                                                        (member (bytes "values")
                                                          (array (
                                                            cons
                                                            (object (
                                                            member (bytes "value")
                                                            (text (bytes "Home"))
                                                            (member (bytes "odd")
                                                            (text (bytes "1.85")) end)))
                                                            nil))
                                                          end))))
                                                  nil))
                                              end))))
                                      nil))
                                  end)))))
                        nil))
                    end)))))));
}
