-- ===== src/Gateway/Docs/Football.antt =====
-- internal/gateway/manager.go: footballDocEndpoints.
pub mod Account
pub mod Leagues
pub mod Teams
pub mod Fixtures
pub mod Standings
pub mod Players
pub mod Odds
use all2api.Prelude.{List, [], ◌∷◌}
use all2api.Text.{Bytes}
use all2api.Gateway.Docs.Types.{DocEndpoint}
use all2api.Gateway.Docs.Football.Account.{football_status, football_countries}
use all2api.Gateway.Docs.Football.Leagues.{football_leagues}
use all2api.Gateway.Docs.Football.Teams.{football_teams}
use all2api.Gateway.Docs.Football.Fixtures.{football_fixtures}
use all2api.Gateway.Docs.Football.Standings.{football_standings}
use all2api.Gateway.Docs.Football.Players.{football_players}
use all2api.Gateway.Docs.Football.Odds.{football_odds}

unfoldable pub football_doc_endpoints : Bytes → List DocEndpoint
unfolding football_status football_countries football_leagues football_teams football_fixtures
    football_standings football_players football_odds
football_doc_endpoints prefix =
    football_status prefix
    ∷ football_countries prefix
    ∷ football_leagues prefix
    ∷ football_teams prefix
    ∷ football_fixtures prefix
    ∷ football_standings prefix
    ∷ football_players prefix
    ∷ football_odds prefix
    ∷ []
