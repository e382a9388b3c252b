-- ===== src/Gateway/Docs/Credential.antt =====
-- APIDocs: the header that a client is told to send, and the token that the gateway reads from it.
use all2api.Prelude.{
  ◌≡◌, ◌≢◌, ◌↔◌, ap, ◌∙◌, inl, inr, Bool, true, ◌&&◌, ◌||◌, none, some, List, [], ◌∷◌, ◌++◌,
  if◌then◌else◌, is_empty, is_empty-of_ne, arith, Bool-cases,
}
use all2api.Text.{Bytes, bytes, text_eq, trim_space, equal_fold}
use all2api.Text.Cut.{Lacks, cut_before-Lacks, cut_before-append}
use all2api.Text.Trim.{trim_space-trim_space}
use all2api.Header
use all2api.Header.{Header}
use all2api.Auth.{
  extract_bearer, strip_configured_prefix, extract_client_token, authorize, new_with_header,
}
use all2api.Auth.Whitelist.{Listed, read_token, authorize-eq-none_iff}
use all2api.Provider.{type_generic_http}
use all2api.Config.{PlatformConfig}
use all2api.Gateway.Docs.{auth_value_for_platform}

-- A text that folds to one without spaces has none.
equal_fold-Lacks : (s t : Bytes) → equal_fold s t ≡ true → Lacks b' ' t → Lacks b' ' s
unfolding equal_fold
equal_fold-Lacks [] t h l = tt
equal_fold-Lacks (a ∷ s) [] h l = cc
equal_fold-Lacks (a ∷ s) (b ∷ t) h (l, ls) =
    (λ e. l (ground arith), equal_fold-Lacks s t (ground arith) ls)

extract_bearer-Lacks : (s : Bytes) → Lacks b' ' s → extract_bearer s ≡ []
unfolding extract_bearer
extract_bearer-Lacks s h = rw (cut_before-Lacks b' ' s h)

-- A word and a key behind a space: the key is read if the word is Bearer.
extract_bearer-append :
    (word key : Bytes)
    → Lacks b' ' word
    → extract_bearer (word ++ b' ' ∷ key)
      ≡ (if equal_fold word (bytes "Bearer") then trim_space key else [])
unfolding extract_bearer
extract_bearer-append word key h = rw (cut_before-append b' ' word key h)

-- What the gateway reads where a client follows the documentation: its key, or all that stands in
-- the header, where that has a prefix other than Bearer in the header Authorization.
abbrev pub reads_key : Bytes → Bytes → Bool
reads_key header prefix =
    is_empty prefix
    || (equal_fold (trim_space header) (bytes "Authorization")
        && equal_fold prefix (bytes "Bearer"))

abbrev value_with : Bytes → Bytes → Bytes
value_with prefix key = if is_empty prefix then key else prefix ++ (bytes " " ++ key)

module _ (header key : Bytes) (one : Lacks b' ' key) (some_key : key ≢ [])
    (trimmed : trim_space key ≡ key) where
  strip-bare : strip_configured_prefix header key ≡ key
  unfolding strip_configured_prefix
  strip-bare = rw (extract_bearer-Lacks key one, trimmed) (ground arith)

  module _ (word : Bytes) (lacks : Lacks b' ' word)
      (clean : trim_space (word ++ b' ' ∷ key) ≡ word ++ b' ' ∷ key) where
    strip-word : strip_configured_prefix header (word ++ b' ' ∷ key) ≡ (
        if equal_fold (trim_space header) (bytes "Authorization")
          && equal_fold word (bytes "Bearer")
        then key
        else word ++ b' ' ∷ key)
    unfolding strip_configured_prefix
    strip-word =
        rw (extract_bearer-append word key lacks, trimmed, clean)
          (elim (Bool-cases (equal_fold word (bytes "Bearer"))) [
            | inl bearer ↦ rw (bearer, is_empty-of_ne key some_key) (ground arith)
            | inr other ↦ rw other (ground arith)
          ])

  strip-documented :
      (prefix : Bytes)
      → Lacks b' ' prefix
      → trim_space (value_with prefix key) ≡ value_with prefix key
      → strip_configured_prefix header (value_with prefix key)
        ≡ (if reads_key header prefix then key else value_with prefix key)
  strip-documented [] lacks clean = strip-bare
  strip-documented (b ∷ word) lacks clean = strip-word (b ∷ word) lacks clean

-- The prefix that is documented for the platform: that of the generic type.
abbrev pub documented_prefix : PlatformConfig → Bytes
documented_prefix p = if text_eq p.typ type_generic_http then p.auth.prefix else []

auth_value_lem :
    (p : PlatformConfig) (key : Bytes)
    → auth_value_for_platform p key ≡ value_with (documented_prefix p) key
unfolding auth_value_for_platform
auth_value_lem p key = ground arith

-- What the gateway reads where a client follows the documentation.
abbrev pub documented_token : PlatformConfig → Bytes → Bytes → Bytes
documented_token p header key =
    if reads_key header (documented_prefix p) then key else auth_value_for_platform p key

value_with-ne : (prefix key : Bytes) → key ≢ [] → value_with prefix key ≢ []
value_with-ne [] key h = h
value_with-ne (b ∷ prefix) key h = cc

documented_token-ne :
    (p : PlatformConfig) (header key : Bytes) → key ≢ [] → documented_token p header key ≢ []
documented_token-ne p header key h = elim (Bool-cases (reads_key header (documented_prefix p))) [
  | inl reads ↦ rw reads h
  | inr other ↦ rw (other, auth_value_lem p key) (value_with-ne (documented_prefix p) key h)
]

authorize-of_token :
    (header : Bytes) (tokens : List Bytes) (h : Header) (t : Bytes)
    → t ≢ []
    → read_token true tokens header h ≡ t
    → (authorize (some (new_with_header true tokens header)) h ≡ none) ↔ Listed tokens t
authorize-of_token header tokens h t ne e =
    let (to, from) = authorize-eq-none_iff true tokens header h in
    (
      λ allowed.
          let listed : Listed tokens (read_token true tokens header h) = elim (to allowed) [
            | inl off ↦ cc
            | inr (_, l) ↦ l
          ] in
          rw e at listed,
      λ listed. from (inr (rw e ne, rw e listed)),
    )

extract-named :
    (header : Bytes) (h : Header)
    → header ≢ []
    → extract_client_token header h
      ≡ strip_configured_prefix header (trim_space (Header.get h header))
unfolding extract_client_token
extract-named header h ne = rw (is_empty-of_ne header ne)

-- A client that puts the documented value with its key into the header that the gateway reads for the
-- platform is let through exactly when its key is one of the configured tokens, or, if the platform
-- has a prefix other than Bearer in the header Authorization, when prefix and key together are one:
-- where authentication is on, and prefix and key are words without white space around them.
pub authorize-documented :
    (p : PlatformConfig) (header key : Bytes) (tokens : List Bytes) (h : Header)
    → trim_space header ≢ []
    → key ≢ []
    → trim_space key ≡ key
    → Lacks b' ' key
    → Lacks b' ' (documented_prefix p)
    → trim_space (auth_value_for_platform p key) ≡ auth_value_for_platform p key
    → Header.get h (trim_space header) ≡ auth_value_for_platform p key
    → (authorize (some (new_with_header true tokens header)) h ≡ none)
      ↔ Listed tokens (documented_token p header key)
authorize-documented p header key tokens h some_header some_key trimmed one word clean sent =
    let value = auth_value_for_platform p key in
    let prefix = documented_prefix p in
    let token : read_token true tokens header h ≡ documented_token p header key =
      extract-named (trim_space header) h some_header
      ∙ ap (λ v. strip_configured_prefix (trim_space header) (trim_space v)) sent
      ∙ ap (strip_configured_prefix (trim_space header)) (clean ∙ auth_value_lem p key)
      ∙ strip-documented (trim_space header) key one some_key trimmed prefix word
          (rw (auth_value_lem p key) at clean)
      ∙ rw (trim_space-trim_space header, auth_value_lem p key) in
    authorize-of_token header tokens h (documented_token p header key)
      (documented_token-ne p header key some_key) token
