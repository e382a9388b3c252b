-- ===== src/Auth/Rewrap.antt =====
-- The authenticator that the proxy makes anew for each request, from the tokens of the first.
use all2api.Prelude.{
  ◌≡◌, refl, ap, sym, ◌∙◌, ◌↔◌, inl, inr, Bool, true, false, some, List, [], ◌∷◌, Bool-cases, All,
  All-append,
}
use all2api.Text.{Bytes, trim_space}
use all2api.Text.Trim.{trim_space-trim_space}
use all2api.Header.{Header}
use all2api.Auth.{has_token, add_token, collect, new_with_header, new, tokens_of, authorize}
use all2api.Auth.Whitelist.{
  InSet, Listed, has_token_iff, InSet-collect, collect_skip, collect_add, collect_nil, iff_trans,
  is_empty_cases, decision, read_token, authorize_lem,
}

-- Every text of the list is as TrimSpace leaves it.
abbrev AreTrimmed : List Bytes → Type 0
AreTrimmed = All (λ s. trim_space s ≡ s)

AreTrimmed-add_token :
    (ts : List Bytes) (s : Bytes) → AreTrimmed ts → AreTrimmed (add_token ts (trim_space s))
unfolding add_token
AreTrimmed-add_token ts s h = elim (Bool-cases (has_token ts (trim_space s))) [
  | inl old ↦ rw old h
  | inr new ↦ rw new (All-append _ ts (trim_space s ∷ []) h (trim_space-trim_space s, tt))
]

AreTrimmed-collect : (set ts : List Bytes) → AreTrimmed set → AreTrimmed (collect set ts)
AreTrimmed-collect set [] h = rw (collect_nil set) h
AreTrimmed-collect set (s ∷ ts) h = elim (is_empty_cases (trim_space s)) [
  | inl e ↦ rw (collect_skip set s ts e) (AreTrimmed-collect set ts h)
  | inr (e, ne) ↦
      rw (collect_add set s ts e)
        (AreTrimmed-collect (add_token set (trim_space s)) ts (AreTrimmed-add_token set s h))
]

Listed-iff : (ts : List Bytes) (t : Bytes) → AreTrimmed ts → Listed ts t ↔ InSet ts t
Listed-iff [] t h = (λ x. x, λ x. x)
Listed-iff (s ∷ ts) t (e, h) =
    let (to, from) = Listed-iff ts t h in
    (
      elim [ inl a ↦ inl (sym e ∙ a) | inr a ↦ inr (to a) ],
      elim [ inl a ↦ inl (e ∙ a) | inr a ↦ inr (from a) ],
    )

-- Collecting the tokens of a set once more gives the same set.
collect_again :
    (ts : List Bytes) (t : Bytes) → InSet (collect [] (collect [] ts)) t ↔ InSet (collect [] ts) t
collect_again ts t =
    let (to, from) = Listed-iff (collect [] ts) t (AreTrimmed-collect [] ts tt) in
    let (to', from') = InSet-collect [] ts t in
    iff_trans (InSet-collect [] (collect [] ts) t) (
      elim [ inl x ↦ absurd x | inr (n, l) ↦ to l ],
      λ i. elim (to' i) [ inl x ↦ absurd x | inr (n, l) ↦ inr (n, from i) ],
    )

Bool-ext : (a b : Bool) → ((a ≡ true) ↔ (b ≡ true)) → a ≡ b
Bool-ext true true h = refl
Bool-ext true false h = cc (h.0 refl)
Bool-ext false true h = cc (h.1 refl)
Bool-ext false false h = refl

tokens_of-new :
    (again : Bool) (tokens : List Bytes) → tokens_of (some (new again tokens)) ≡ collect [] tokens
unfolding tokens_of new
tokens_of-new again tokens = refl

has_token_back : (ts : List Bytes) (t : Bytes) → InSet ts t ↔ (has_token ts t ≡ true)
has_token_back ts t = let (to, from) = has_token_iff ts t in (from, to)

-- An authenticator that is made from the tokens of another lets through the same requests as one
-- that is made from the configured tokens.
pub authorize-tokens_of :
    (enabled again : Bool) (tokens : List Bytes) (header : Bytes) (h : Header)
    → authorize (some (new_with_header enabled (tokens_of (some (new again tokens))) header)) h
      ≡ authorize (some (new_with_header enabled tokens header)) h
authorize-tokens_of enabled again tokens header h =
    let read = read_token enabled tokens header h in
    rw
      (
        tokens_of-new again tokens,
        authorize_lem enabled (collect [] tokens) header h,
        authorize_lem enabled tokens header h,
      )
      (ap (decision enabled read) (
        Bool-ext _ _ (
          iff_trans (has_token_iff (collect [] (collect [] tokens)) read)
            (iff_trans (collect_again tokens read) (has_token_back (collect [] tokens) read)))))
