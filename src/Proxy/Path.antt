-- ===== src/Proxy/Path.antt =====
-- splitPlatform
use all2api.Prelude.{
  ℕ, ◌≡◌, ◌≢◌, refl, ap, sym, ◌∙◌, ◌⊎◌, inl, inr, none, some, Option, [], ◌∷◌, ◌++◌,
}
use all2api.Text.{Bytes, bytes, cut_before}
use all2api.Text.Cut.{Lacks, cut_before-Lacks, cut_before-append, cut_before_sound, cut_before-none}
use all2api.Proxy.{trim_slash, split_at, split_platform}

split_lem :
    (path : Bytes) (b : ℕ) (s : Bytes)
    → trim_slash path ≡ b ∷ s
    → split_platform path ≡ split_at (b ∷ s) (cut_before b'/' (b ∷ s))
unfolding split_platform
split_lem path b s e = rw e

-- A namespace is a text without slashes that is not empty.
abbrev pub IsNamespace : Bytes → Type 0
IsNamespace name = (name ≢ []) × Lacks b'/' name

-- A path of a namespace and a rest behind a slash is split into these two, and a path of a
-- namespace alone has the rest "/".
pub split_platform-join :
    (name rest : Bytes)
    → IsNamespace name
    → (split_platform (b'/' ∷ (name ++ b'/' ∷ rest)) ≡ (name, b'/' ∷ rest))
      × (split_platform (b'/' ∷ name) ≡ (name, bytes "/"))
split_platform-join [] rest (ne, h) = absurd (ne refl)
split_platform-join (b ∷ name) rest (ne, h) = (
  split_lem (b'/' ∷ ((b ∷ name) ++ b'/' ∷ rest)) b (name ++ b'/' ∷ rest) refl
      ∙ ap (split_at (b ∷ (name ++ b'/' ∷ rest))) (cut_before-append b'/' (b ∷ name) rest h),
  split_lem (b'/' ∷ (b ∷ name)) b name refl
      ∙ ap (split_at (b ∷ name)) (cut_before-Lacks b'/' (b ∷ name) h),
)

abbrev pub IsSplit : Bytes → Bytes × Bytes → Type 0
IsSplit trimmed (name, rest) =
    Lacks b'/' name
    × ((r : Bytes) × (rest ≡ b'/' ∷ r) × ((trimmed ≡ name ++ rest) ⊎ ((trimmed ≡ name) × (r ≡ []))))

split_at-IsSplit :
    (trimmed : Bytes) (o : Option Bytes) (c : Bytes)
    → cut_before b'/' trimmed ≡ (o, c)
    → IsSplit trimmed (split_at trimmed (o, c))
split_at-IsSplit trimmed none c e = (
  cut_before-none b'/' trimmed (ap (λ (p : Option Bytes × Bytes). p.0) e),
  ([], refl, inr (refl, refl)),
)
split_at-IsSplit trimmed (some before) c e =
    let (r, cut, same, lacks) =
      cut_before_sound b'/' trimmed before (ap (λ (p : Option Bytes × Bytes). p.0) e) in
    let rest : c ≡ b'/' ∷ r = sym (ap (λ (p : Option Bytes × Bytes). p.1) e) ∙ cut in
    (lacks, (r, rest, inl (same ∙ ap (λ t. before ++ t) (sym rest))))

split_platform_nil : (path : Bytes) → trim_slash path ≡ [] → split_platform path ≡ ([], bytes "/")
unfolding split_platform
split_platform_nil path e = rw e

IsSplit-trimmed :
    (path trimmed : Bytes) → trim_slash path ≡ trimmed → IsSplit trimmed (split_platform path)
IsSplit-trimmed path [] e = rw (split_platform_nil path e) (tt, ([], refl, inr (refl, refl)))
IsSplit-trimmed path (b ∷ s) e = rw (split_lem path b s e) (split_at-IsSplit (b ∷ s) _ _ refl)

-- Whatever the path: the namespace has no slash, the rest begins with one, and the two together
-- are the path without a leading slash, or the namespace is all of that and the rest is "/".
pub split_platform-IsSplit : (path : Bytes) → IsSplit (trim_slash path) (split_platform path)
split_platform-IsSplit path = IsSplit-trimmed path (trim_slash path) refl
