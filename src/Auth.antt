-- ===== src/Auth.antt =====
-- internal/auth/auth.go: the tokens of the gateway's clients. A nil pointer is `none`; the set of
-- tokens is a list without repetitions, and Tokens may list it in any order.
pub mod Whitelist
pub mod Rewrap
mod Tests
use all2api.Prelude.{
  Bool, true, false, Option, none, some, List, [], ◌∷◌, ◌++◌, if◌then◌else◌, is_empty,
}
use all2api.Text.{Bytes, bytes, text_eq, trim_space, equal_fold, cut_before}
use all2api.Header
use all2api.Header.{Header}

pub data AuthError : Type 0 where
  unauthorized : AuthError

pub record Authenticator : Type 0 where
  pub enabled : Bool
  pub tokens : List Bytes
  pub token_header : Bytes

-- The test whether a map has a key.
unfoldable pub has_token : List Bytes → Bytes → Bool
has_token [] t = false
has_token (s ∷ ts) t = if text_eq s t then true else has_token ts t

-- set[t] = struct{}{}
unfoldable pub add_token : List Bytes → Bytes → List Bytes
unfolding has_token
add_token ts t = if has_token ts t then ts else ts ++ t ∷ []

-- The loop that collects the trimmed tokens that are not empty.
unfoldable pub collect : List Bytes → List Bytes → List Bytes
unfolding add_token
collect set [] = set
collect set (t ∷ ts) =
    let trimmed = trim_space t in
    collect (if is_empty trimmed then set else add_token set trimmed) ts

-- NewWithHeader
unfoldable pub new_with_header : Bool → List Bytes → Bytes → Authenticator
unfolding collect
new_with_header enabled tokens token_header = record {
  enabled = enabled;
  tokens = collect [] tokens;
  token_header = trim_space token_header;
}

-- New
unfoldable pub new : Bool → List Bytes → Authenticator
unfolding new_with_header
new enabled tokens = new_with_header enabled tokens []

-- Enabled
unfoldable pub is_enabled : Option Authenticator → Bool
is_enabled none = false
is_enabled (some a) = a.enabled

-- Tokens
unfoldable pub tokens_of : Option Authenticator → List Bytes
tokens_of none = []
tokens_of (some a) = a.tokens

-- The text behind the byte at which SplitN cuts, if it cuts at all.
unfoldable pub bearer_parts : Option Bytes × Bytes → Bytes
bearer_parts (none, rest) = []
bearer_parts (some scheme, []) = []
bearer_parts (some scheme, space ∷ token) =
    if equal_fold scheme (bytes "Bearer") then trim_space token else []

-- extractBearer
unfoldable pub extract_bearer : Bytes → Bytes
unfolding bearer_parts cut_before equal_fold
extract_bearer header = bearer_parts (cut_before b' ' header)

-- stripConfiguredPrefix
unfoldable pub strip_configured_prefix : Bytes → Bytes → Bytes
unfolding extract_bearer
strip_configured_prefix header value =
    let token = extract_bearer value in
    if equal_fold (trim_space header) (bytes "Authorization")
    then (if is_empty token then trim_space value else token)
    else trim_space value

-- The function extractClientToken, for requests to a gateway without a configured header.
unfoldable pub extract_default_token : Header → Bytes
unfolding extract_bearer
extract_default_token h =
    let token = extract_bearer (Header.get h (bytes "Authorization")) in
    if is_empty token then trim_space (Header.get h (bytes "x-apisports-key")) else token

-- The method extractClientToken
unfoldable pub extract_client_token : Bytes → Header → Bytes
unfolding extract_default_token strip_configured_prefix
extract_client_token token_header h =
    if is_empty token_header
    then extract_default_token h
    else strip_configured_prefix token_header (trim_space (Header.get h token_header))

-- Authorize; `none` is the nil error.
unfoldable pub authorize : Option Authenticator → Header → Option AuthError
unfolding extract_client_token has_token
authorize none h = none
authorize (some a) h =
    let token = extract_client_token a.token_header h in
    if a.enabled
    then (if is_empty token
        then some unauthorized
        else if has_token a.tokens token
        then none
        else some unauthorized)
    else none
