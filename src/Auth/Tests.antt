-- ===== src/Auth/Tests.antt =====
-- A gateway with one client token.
use all2api.Prelude.{◌≡◌, ◌≢◌, ◌↔◌, ◌⊎◌, [], ◌∷◌, none, some, List, true, false}
use all2api.Text.{Bytes, bytes}
use all2api.Header.{Header}
use all2api.Auth.{authorize, new_with_header, new, tokens_of}
use all2api.Auth.Whitelist.{Listed, read_token, authorize-eq-none_iff}
use all2api.Auth.Rewrap.{authorize-tokens_of}

abbrev tokens : List Bytes
tokens = bytes " client-token " ∷ []

abbrev request_header : Header
request_header = (bytes "Authorization", bytes "Bearer client-token" ∷ []) ∷ []

authorize-eq-none_iff_example :
    (authorize (some (new_with_header true tokens [])) request_header ≡ none) ↔ (
      (◌≡◌ {A = _} true false)
      ⊎ ((read_token true tokens [] request_header ≢ [])
          × Listed tokens (read_token true tokens [] request_header)))
authorize-eq-none_iff_example = authorize-eq-none_iff true tokens [] request_header

authorize-tokens_of_example :
    authorize
      (some (new_with_header true (tokens_of (some (new false tokens))) (bytes "X-Apisports-Key")))
      request_header
    ≡ authorize (some (new_with_header true tokens (bytes "X-Apisports-Key"))) request_header
authorize-tokens_of_example =
    authorize-tokens_of true false tokens (bytes "X-Apisports-Key") request_header
