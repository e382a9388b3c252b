-- ===== src/Auth/Whitelist.antt =====
-- Which requests an authenticator lets through.
use all2api.Prelude.{
  ◌≡◌, ◌≢◌, refl, sym, ◌∙◌, ◌⊎◌, ◌↔◌, inl, inr, Bool, true, false, Option, none, some, List, [],
  ◌∷◌, ◌++◌, arith, is_empty, if◌then◌else◌, Bool-cases,
}
use all2api.Text.{Bytes, trim_space}
use all2api.Text.Equality.{text_eq_iff}
use all2api.Header.{Header}
use all2api.Auth.{
  AuthError, unauthorized, has_token, add_token, collect, new_with_header, new,
  extract_client_token, authorize,
}

-- A token of the list is this one, but for white space around it.
abbrev pub Listed : List Bytes → Bytes → Type 0
Listed [] t = ⊥
Listed (s ∷ ts) t = (trim_space s ≡ t) ⊎ Listed ts t

-- The token is in the set.
abbrev pub InSet : List Bytes → Bytes → Type 0
InSet [] t = ⊥
InSet (s ∷ ts) t = (s ≡ t) ⊎ InSet ts t

pub has_token_iff : (ts : List Bytes) (t : Bytes) → (has_token ts t ≡ true) ↔ InSet ts t
unfolding has_token
has_token_iff [] t = ground arith
has_token_iff (s ∷ ts) t = ground (arith, text_eq_iff s t, has_token_iff ts t)

InSet-concat : (ts : List Bytes) (s t : Bytes) → InSet (ts ++ s ∷ []) t ↔ (InSet ts t ⊎ (s ≡ t))
InSet-concat [] s t = ground arith
InSet-concat (r ∷ ts) s t = ground (arith, InSet-concat ts s t)

InSet-add_token :
    (ts : List Bytes) (s t : Bytes) → InSet (add_token ts s) t ↔ (InSet ts t ⊎ (s ≡ t))
unfolding add_token
InSet-add_token ts s t = elim (Bool-cases (has_token ts s)) [
  | inl old ↦
      rw old (λ i. inl i, elim [ inl i ↦ i | inr e ↦ rw (← e) ((has_token_iff ts s).0 old) ])
  | inr new ↦ rw new (InSet-concat ts s t)
]

pub is_empty_cases : (s : Bytes) → (s ≡ []) ⊎ ((is_empty s ≡ false) × (s ≢ []))
is_empty_cases [] = inl refl
is_empty_cases (b ∷ s) = inr (refl, λ e. cc)

-- What the loop adds to the set: the trimmed tokens, so far as they are not empty.
abbrev Added : List Bytes → List Bytes → Bytes → Type 0
Added set ts t = InSet set t ⊎ ((t ≢ []) × Listed ts t)

Added-skip :
    (set : List Bytes) (s : Bytes) (ts : List Bytes) (t : Bytes)
    → trim_space s ≡ []
    → Added set ts t ↔ Added set (s ∷ ts) t
Added-skip set s ts t e = (
  elim [ inl i ↦ inl i | inr (n, l) ↦ inr (n, inr l) ],
  elim [
    | inl i ↦ inl i
    | inr (n, inl same) ↦ absurd (n (sym same ∙ e))
    | inr (n, inr l) ↦ inr (n, l)
  ],
)

Added-cons :
    (set : List Bytes) (s : Bytes) (ts : List Bytes) (t : Bytes)
    → trim_space s ≢ []
    → Added (add_token set (trim_space s)) ts t ↔ Added set (s ∷ ts) t
Added-cons set s ts t ne =
    let (to, from) = InSet-add_token set (trim_space s) t in
    (
      elim [
        | inl i ↦ elim (to i) [ inl j ↦ inl j | inr same ↦ inr (λ z. ne (same ∙ z), inl same) ]
        | inr (n, l) ↦ inr (n, inr l)
      ],
      elim [
        | inl i ↦ inl (from (inl i))
        | inr (n, inl same) ↦ inl (from (inr same))
        | inr (n, inr l) ↦ inr (n, l)
      ],
    )

pub collect_skip :
    (set : List Bytes) (s : Bytes) (ts : List Bytes)
    → trim_space s ≡ []
    → collect set (s ∷ ts) ≡ collect set ts
unfolding collect
collect_skip set s ts e = rw e

pub collect_add :
    (set : List Bytes) (s : Bytes) (ts : List Bytes)
    → is_empty (trim_space s) ≡ false
    → collect set (s ∷ ts) ≡ collect (add_token set (trim_space s)) ts
unfolding collect
collect_add set s ts e = rw e

pub collect_nil : (set : List Bytes) → collect set [] ≡ set
unfolding collect
collect_nil set = refl

pub iff_trans : {A B C : Type 0} → A ↔ B → B ↔ C → A ↔ C
iff_trans p q = (λ a. q.0 (p.0 a), λ c. p.1 (q.1 c))

pub InSet-collect : (set ts : List Bytes) (t : Bytes) → InSet (collect set ts) t ↔ Added set ts t
InSet-collect set [] t =
    rw (collect_nil set) (λ i. inl i, elim [ inl i ↦ i | inr (n, l) ↦ absurd l ])
InSet-collect set (s ∷ ts) t = elim (is_empty_cases (trim_space s)) [
  | inl e ↦
      rw (collect_skip set s ts e) (iff_trans (InSet-collect set ts t) (Added-skip set s ts t e))
  | inr (e, ne) ↦
      rw (collect_add set s ts e)
        (iff_trans (InSet-collect (add_token set (trim_space s)) ts t) (Added-cons set s ts t ne))
]

-- The tests of Authorize, over the three facts that they read.
abbrev pub decision : Bool → Bytes → Bool → Option AuthError
decision enabled token hit =
    if enabled
    then (if is_empty token then some unauthorized else if hit then none else some unauthorized)
    else none

decision-eq-none_iff :
    {L : Type 0} (enabled : Bool) (token : Bytes) (hit : Bool)
    → (hit ≡ true) ↔ (⊥ ⊎ ((token ≢ []) × L))
    → (decision enabled token hit ≡ none) ↔ ((enabled ≡ false) ⊎ ((token ≢ []) × L))
decision-eq-none_iff false token hit d = (λ _. inl refl, λ _. refl)
decision-eq-none_iff true [] hit d = (λ e. cc, elim [ inl e ↦ cc | inr (n, l) ↦ absurd (n refl) ])
decision-eq-none_iff true (b ∷ token) true d =
    (λ _. elim (d.0 refl) [ inl x ↦ absurd x | inr l ↦ inr l ], λ _. refl)
decision-eq-none_iff true (b ∷ token) false d =
    (λ e. cc, elim [ inl e ↦ cc | inr l ↦ cc (d.1 (inr l)) ])

module _ (enabled : Bool) (tokens : List Bytes) (header : Bytes) (h : Header) where
  -- The token that the authenticator reads from the request.
  abbrev pub read_token : Bytes
  read_token = extract_client_token (trim_space header) h

  pub authorize_lem :
      authorize (some (new_with_header enabled tokens header)) h
      ≡ decision enabled read_token (has_token (collect [] tokens) read_token)
  unfolding authorize new_with_header
  authorize_lem = refl

  -- A request is let through exactly when authentication is off, or the token that is read from it
  -- is not empty and is one of the configured tokens, but for white space around that.
  pub authorize-eq-none_iff :
      (authorize (some (new_with_header enabled tokens header)) h ≡ none)
      ↔ ((enabled ≡ false) ⊎ ((read_token ≢ []) × Listed tokens read_token))
  authorize-eq-none_iff = rw authorize_lem (
      decision-eq-none_iff enabled read_token _ (
        iff_trans (has_token_iff (collect [] tokens) read_token)
          (InSet-collect [] tokens read_token)))
