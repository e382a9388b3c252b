-- ===== src/Provider/Inject.antt =====
-- InjectCredential: the upstream credential takes the place of whatever stood in its header.
use all2api.Prelude.{◌≡◌, [], ◌∷◌, if◌then◌else◌, refl}
use all2api.Text.{Bytes, text_eq}
use all2api.Header.{Header, canonical, values, set}
use all2api.Header.Laws.{canonical-canonical, values-set}
use all2api.Provider.{Provider, credential_header, with_prefix, inject_credential}

pub credential_header-canonical :
    (p : Provider) → canonical (credential_header p) ≡ credential_header p
unfolding credential_header
credential_header-canonical p = canonical-canonical p.auth.header

inject_lem :
    (p : Provider) (h : Header) (credential : Bytes)
    → inject_credential p h credential
      ≡ set h (credential_header p) (with_prefix p.auth.prefix credential)
unfolding inject_credential
inject_lem p h credential = refl

-- After InjectCredential the credential header holds the prefixed credential and nothing else, and
-- every other header is as it was.
pub values-inject_credential :
    (p : Provider) (h : Header) (credential name : Bytes)
    → values (inject_credential p h credential) name ≡ (
        if text_eq (credential_header p) name
        then with_prefix p.auth.prefix credential ∷ []
        else values h name)
values-inject_credential p h credential name = rw (
  inject_lem p h credential,
  values-set h (credential_header p) (with_prefix p.auth.prefix credential) name,
  credential_header-canonical p,
)
