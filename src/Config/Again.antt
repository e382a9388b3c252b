-- ===== src/Config/Again.antt =====
-- The parts of Validate on what they have made: each leaves it as it is.
use all2api.Prelude.{
  is_empty-of_ne, ℕ, suc, ◌≡◌, ◌≢◌, refl, ap, ◌∙◌, ◌⊎◌, inl, inr, false, List, [], ◌∷◌,
  if◌then◌else◌, is_empty, arith, All, All-mono, Bool-cases, ℤ, pos, ◌≤ℤ◌, ok,
}
use all2api.Text.{Bytes, text_eq}
use all2api.Text.Cut.{Lacks}
use all2api.Config.{
  WorkspaceConfig, PlatformConfig, KeyConfig, CredentialPoolConfig, default_credential_pool,
}
use all2api.Config.Validate.{has_slash, or_numbered, label_keys, validate_keys, fill_workspace}
use all2api.Config.Usable.{IsUsableKey, IsUsablePool, IsUsablePlatform, or_numbered-ne}

or_numbered-same : (i : ℕ) (label : Bytes) → label ≢ [] → or_numbered i label ≡ label
unfolding or_numbered
or_numbered-same i [] h = absurd (h refl)
or_numbered-same i (b ∷ label) h = refl

pub Lacks-has_slash : (s : Bytes) → Lacks b'/' s → has_slash s ≡ false
unfolding has_slash
Lacks-has_slash [] h = refl
Lacks-has_slash (b ∷ s) h = ground (arith, Lacks-has_slash s)

abbrev pub AllLabelled : List KeyConfig → Type 0
AllLabelled = All (λ k. k.label ≢ [])

pub label_keys-AllLabelled : (i : ℕ) (ks : List KeyConfig) → AllLabelled (label_keys i ks)
unfolding label_keys
label_keys-AllLabelled i [] = tt
label_keys-AllLabelled i (k ∷ ks) = (or_numbered-ne i k.label, label_keys-AllLabelled (suc i) ks)

pub label_keys-same : (i : ℕ) (ks : List KeyConfig) → AllLabelled ks → label_keys i ks ≡ ks
unfolding label_keys
label_keys-same i [] h = refl
label_keys-same i (k ∷ ks) (l, h) = rw (or_numbered-same i k.label l, label_keys-same (suc i) ks h)

pub validate_keys-same :
    (pool : Bytes) (i : ℕ) (ks : List KeyConfig)
    → All IsUsableKey ks
    → validate_keys pool i ks ≡ ok ks
unfolding validate_keys
validate_keys-same pool i [] h = refl
validate_keys-same pool i (k ∷ ks) ((l, v), h) =
    let value : is_empty k.key ≡ false = is_empty-of_ne k.key v in
    rw value (
      rw (validate_keys-same pool (suc i) ks h)
        (ap (λ x. ok (record k { label = x } ∷ ks)) (or_numbered-same i k.label l)))

-- What the keys of the legacy form become.
abbrev pub last_keys : List KeyConfig → List (Bytes × CredentialPoolConfig) → List KeyConfig
last_keys keys [] = keys
last_keys keys ((name, p) ∷ ps) =
    last_keys (if text_eq name default_credential_pool then p.keys else keys) ps

last_keys-cases :
    (ps : List (Bytes × CredentialPoolConfig))
    → ((ks : List KeyConfig) → last_keys ks ps ≡ ks)
      ⊎ ((ks ls : List KeyConfig) → last_keys ks ps ≡ last_keys ls ps)
last_keys-cases [] = inl (λ ks. refl)
last_keys-cases ((name, p) ∷ ps) = elim (Bool-cases (text_eq name default_credential_pool)) [
  | inl hit ↦ inr (λ ks ls. rw hit)
  | inr miss ↦ elim (last_keys-cases ps) [
    | inl same ↦ inl (λ ks. rw miss (same ks))
    | inr const ↦ inr (λ ks ls. rw miss (const ks ls))
  ]
]

pub last_keys-again :
    (ks : List KeyConfig) (ps : List (Bytes × CredentialPoolConfig))
    → last_keys (last_keys ks ps) ps ≡ last_keys ks ps
last_keys-again ks ps = elim (last_keys-cases ps) [
  | inl same ↦ same (last_keys ks ps)
  | inr const ↦ const (last_keys ks ps) ks
]

pub last_keys-AllLabelled :
    (ks : List KeyConfig) (ps : List (Bytes × CredentialPoolConfig))
    → AllLabelled ks
    → All IsUsablePool ps
    → AllLabelled (last_keys ks ps)
last_keys-AllLabelled ks [] h u = h
last_keys-AllLabelled ks ((name, p) ∷ ps) h ((_, _, keys), us) =
    elim (Bool-cases (text_eq name default_credential_pool)) [
      | inl hit ↦
          rw hit
            (last_keys-AllLabelled p.keys ps (All-mono IsUsableKey _ (λ k u. u.0) p.keys keys) us)
      | inr miss ↦ rw miss (last_keys-AllLabelled ks ps h us)
    ]

-- The first workspace of the name, if there is one, has a time limit.
abbrev pub IsFilled : Bytes → List (Bytes × WorkspaceConfig) → Type 0
IsFilled name [] = Unit {0}
IsFilled name ((n, ws) ∷ m) =
    if text_eq n name then pos 1 ≤ℤ ws.timeout_seconds else IsFilled name m

fill_workspace-IsFilled :
    (name : Bytes) (t : ℤ) (m : List (Bytes × WorkspaceConfig))
    → pos 1 ≤ℤ t
    → IsFilled name (fill_workspace name t m)
unfolding fill_workspace
fill_workspace-IsFilled name t [] h = tt
fill_workspace-IsFilled name t ((n, ws) ∷ m) h = elim (Bool-cases (text_eq n name)) [
  | inl hit ↦ rw hit (rw hit (ground arith))
  | inr miss ↦ rw miss (rw miss (fill_workspace-IsFilled name t m h))
]

fill_workspace-keeps :
    (name other : Bytes) (t : ℤ) (m : List (Bytes × WorkspaceConfig))
    → pos 1 ≤ℤ t
    → IsFilled other m
    → IsFilled other (fill_workspace name t m)
unfolding fill_workspace
fill_workspace-keeps name other t [] h f = tt
fill_workspace-keeps name other t ((n, ws) ∷ m) h f = elim (Bool-cases (text_eq n name)) [
  | inl hit ↦ rw hit (elim (Bool-cases (text_eq n other)) [
    | inl same ↦ rw same (ground arith)
    | inr differs ↦ rw differs (rw differs at f)
  ])
  | inr miss ↦ rw miss (elim (Bool-cases (text_eq n other)) [
    | inl same ↦ rw same (rw same at f)
    | inr differs ↦ rw differs (fill_workspace-keeps name other t m h (rw differs at f))
  ])
]

fill_workspace-same :
    (name : Bytes) (t : ℤ) (m : List (Bytes × WorkspaceConfig))
    → IsFilled name m
    → fill_workspace name t m ≡ m
unfolding fill_workspace
fill_workspace-same name t [] f = refl
fill_workspace-same name t ((n, ws) ∷ m) f = elim (Bool-cases (text_eq n name)) [
  | inl hit ↦ rw hit (ground arith)
  | inr miss ↦ rw miss (ap (λ l. (n, ws) ∷ l) (fill_workspace-same name t m (rw miss at f)))
]

-- What the workspaces become.
abbrev pub fill_all :
    List (Bytes × WorkspaceConfig) → List (Bytes × PlatformConfig) → List (Bytes × WorkspaceConfig)
fill_all m [] = m
fill_all m ((name, p) ∷ ps) = fill_all (fill_workspace name p.timeout_seconds m) ps

abbrev HasLimit : Bytes × PlatformConfig → Type 0
HasLimit e = pos 1 ≤ℤ e.1.timeout_seconds

fill_all-keeps :
    (other : Bytes) (m : List (Bytes × WorkspaceConfig)) (ps : List (Bytes × PlatformConfig))
    → All HasLimit ps
    → IsFilled other m
    → IsFilled other (fill_all m ps)
fill_all-keeps other m [] h f = f
fill_all-keeps other m ((name, p) ∷ ps) (l, h) f =
    fill_all-keeps other (fill_workspace name p.timeout_seconds m) ps h
      (fill_workspace-keeps name other p.timeout_seconds m l f)

fill_all-IsFilled :
    (m : List (Bytes × WorkspaceConfig)) (ps : List (Bytes × PlatformConfig))
    → All HasLimit ps
    → All (λ e. IsFilled e.0 (fill_all m ps)) ps
fill_all-IsFilled m [] h = tt
fill_all-IsFilled m ((name, p) ∷ ps) (l, h) =
    let m' = fill_workspace name p.timeout_seconds m in
    (
      fill_all-keeps name m' ps h (fill_workspace-IsFilled name p.timeout_seconds m l),
      fill_all-IsFilled m' ps h,
    )

fill_all-same :
    (m : List (Bytes × WorkspaceConfig)) (ps : List (Bytes × PlatformConfig))
    → All (λ e. IsFilled e.0 m) ps
    → fill_all m ps ≡ m
fill_all-same m [] f = refl
fill_all-same m ((name, p) ∷ ps) (f, fs) =
    ap (λ l. fill_all l ps) (fill_workspace-same name p.timeout_seconds m f) ∙ fill_all-same m ps fs

pub fill_all-again :
    (pools : List (Bytes × CredentialPoolConfig)) (m : List (Bytes × WorkspaceConfig))
    (ps : List (Bytes × PlatformConfig))
    → All (IsUsablePlatform pools) ps
    → fill_all (fill_all m ps) ps ≡ fill_all m ps
fill_all-again pools m ps u =
    fill_all-same (fill_all m ps) ps
      (fill_all-IsFilled m ps (All-mono (IsUsablePlatform pools) HasLimit (λ e v. v.3) ps u))
