-- ===== src/Gateway/Docs/Basketball.antt =====
-- internal/gateway/manager.go: basketballDocEndpoints.
pub mod Account
pub mod Competitions
pub mod Games
pub mod Standings
pub mod Players
use all2api.Prelude.{List, [], ◌∷◌}
use all2api.Text.{Bytes}
use all2api.Gateway.Docs.Types.{DocEndpoint}
use all2api.Gateway.Docs.Basketball.Account.{basketball_status, basketball_countries}
use all2api.Gateway.Docs.Basketball.Competitions.{basketball_leagues, basketball_teams}
use all2api.Gateway.Docs.Basketball.Games.{basketball_games}
use all2api.Gateway.Docs.Basketball.Standings.{basketball_standings}
use all2api.Gateway.Docs.Basketball.Players.{basketball_players}

unfoldable pub basketball_doc_endpoints : Bytes → List DocEndpoint
unfolding basketball_status basketball_countries basketball_leagues basketball_teams
    basketball_games basketball_standings basketball_players
basketball_doc_endpoints prefix =
    basketball_status prefix
    ∷ basketball_countries prefix
    ∷ basketball_leagues prefix
    ∷ basketball_teams prefix
    ∷ basketball_games prefix
    ∷ basketball_standings prefix
    ∷ basketball_players prefix
    ∷ []
