-- ===== src/Header/Laws.antt =====
-- Canonical names, and what is found in a header after a write.
use all2api.Prelude.{
  ℕ, ◌≡◌, refl, Bool, true, false, inl, inr, List, [], ◌∷◌, ◌++◌, arith, ◌==◌, Bool-cases,
  and-eq-true_iff, if◌then◌else◌, append-nil, append_assoc,
}
use all2api.Text.{Bytes, text_eq, to_lower, to_upper}
use all2api.Text.Equality.{text_eq_iff}
use all2api.Header.{
  Header, is_token_byte, is_token, canonical_from, canonical, values, put, set, add, add_all,
}

abbrev case_of : Bool → ℕ → ℕ
case_of upper b = if upper then to_upper b else to_lower b

case_of_twice : (u : Bool) (b : ℕ) → case_of u (case_of u b) ≡ case_of u b
case_of_twice true b = ground arith
case_of_twice false b = ground arith

is_token_byte-case_of :
    (u : Bool) (b : ℕ) → is_token_byte b ≡ true → is_token_byte (case_of u b) ≡ true
unfolding is_token_byte
is_token_byte-case_of true b h = ground arith
is_token_byte-case_of false b h = ground arith

is_token-canonical_from :
    (u : Bool) (s : Bytes) → is_token s ≡ true → is_token (canonical_from u s) ≡ true
unfolding is_token canonical_from
is_token-canonical_from u [] h = refl
is_token-canonical_from u (b ∷ s) h =
    let (head, tail) = (and-eq-true_iff (is_token_byte b) (is_token s)).0 h in
    (and-eq-true_iff _ _).1
      (is_token_byte-case_of u b head, is_token-canonical_from (case_of u b == b'-') s tail)

canonical_from_twice :
    (u : Bool) (s : Bytes) → canonical_from u (canonical_from u s) ≡ canonical_from u s
unfolding canonical_from
canonical_from_twice u [] = refl
canonical_from_twice u (b ∷ s) =
    rw (case_of_twice u b, canonical_from_twice (case_of u b == b'-') s)

canonical_lem : (s : Bytes) → canonical s ≡ (if is_token s then canonical_from true s else s)
unfolding canonical
canonical_lem s = refl

-- The canonical form of a canonical name is the name itself.
pub canonical-canonical : (s : Bytes) → canonical (canonical s) ≡ canonical s
canonical-canonical s = elim (Bool-cases (is_token s)) [
  | inl token ↦
      rw (canonical_lem s, token, canonical_lem, is_token-canonical_from true s token)
        (canonical_from_twice true s)
  | inr other ↦ rw (canonical_lem s, other, canonical_lem s, other)
]

pub values-put :
    (h : Header) (name other : Bytes) (vs : List Bytes)
    → values (put h name vs) other ≡ (if text_eq name other then vs else values h other)
unfolding values put
values-put [] name other vs = refl
values-put ((n, ws) ∷ h) name other vs = ground (
  arith,
  text_eq_iff n name,
  text_eq_iff name other,
  text_eq_iff n other,
  values-put h name other vs,
)

set_lem : (h : Header) (name v : Bytes) → set h name v ≡ put h (canonical name) (v ∷ [])
unfolding set
set_lem h name v = refl

pub values-set :
    (h : Header) (name v other : Bytes)
    → values (set h name v) other
      ≡ (if text_eq (canonical name) other then v ∷ [] else values h other)
values-set h name v other = rw (set_lem h name v) (values-put h (canonical name) other (v ∷ []))

add_lem :
    (h : Header) (name v : Bytes)
    → add h name v ≡ put h (canonical name) (values h (canonical name) ++ v ∷ [])
unfolding add
add_lem h name v = refl

values-add :
    (h : Header) (name v other : Bytes)
    → values (add h name v) other
      ≡ (if text_eq (canonical name) other then values h other ++ v ∷ [] else values h other)
values-add h name v other =
    rw (add_lem h name v, values-put h (canonical name) other (values h (canonical name) ++ v ∷ []))
      (ground (arith, text_eq_iff (canonical name) other))

add_all_cons :
    (h : Header) (name v : Bytes) (vs : List Bytes)
    → add_all h name (v ∷ vs) ≡ add_all (add h name v) name vs
unfolding add_all
add_all_cons h name v vs = refl

add_all_nil : (h : Header) (name : Bytes) → add_all h name [] ≡ h
unfolding add_all
add_all_nil h name = refl

-- The values that a loop of Add leaves under a name.
pub values-add_all :
    (h : Header) (name : Bytes) (vs : List Bytes) (other : Bytes)
    → values (add_all h name vs) other
      ≡ (if text_eq (canonical name) other then values h other ++ vs else values h other)
values-add_all h name [] other =
    rw (add_all_nil h name) (ground (arith, append-nil (values h other)))
values-add_all h name (v ∷ vs) other =
    rw
      (
        add_all_cons h name v vs,
        values-add_all (add h name v) name vs other,
        values-add h name v other,
      )
      (ground (arith, append_assoc (values h other) (v ∷ []) vs))
