-- ===== src/Text/Trim.antt =====
-- strings.TrimSpace: what it leaves begins and ends with no white space.
use mathlib.Core.List.{reverse, reverse-reverse, reverse-append}
use all2api.Prelude.{
  ℕ, zero, suc, ◌<◌, ◌≤◌, ◌≡◌, refl, sym, ap, ◌∙◌, inl, inr, none, some, List, [], ◌∷◌, ◌++◌, arith,
  length, All, Option-cases, append_assoc, length-append,
}
use all2api.Text.{
  Bytes, strip_prefix, strip_any, trim_from, trim_left, trim_right, reverse_all, spaces, trim_space,
}

-- A prefix of a text is a prefix of each longer text.
strip_prefix-append :
    (p s t : Bytes) {r : Bytes}
    → strip_prefix p s ≡ some r
    → strip_prefix p (s ++ t) ≡ some (r ++ t)
unfolding strip_prefix
strip_prefix-append [] s t h = ground arith
strip_prefix-append (a ∷ p) [] t h = cc
strip_prefix-append (a ∷ p) (b ∷ s) t {r} h = ground (arith, strip_prefix-append p s t {r = r})

strip_prefix-eq-append : (p s : Bytes) {r : Bytes} → strip_prefix p s ≡ some r → s ≡ p ++ r
unfolding strip_prefix
strip_prefix-eq-append [] s h = ground arith
strip_prefix-eq-append (a ∷ p) [] h = cc
strip_prefix-eq-append (a ∷ p) (b ∷ s) {r} h = ground (arith, strip_prefix-eq-append p s {r = r})

strip_any-append_none :
    (ps : List Bytes) (s t : Bytes) → strip_any ps (s ++ t) ≡ none → strip_any ps s ≡ none
unfolding strip_any
strip_any-append_none [] s t h = refl
strip_any-append_none (p ∷ ps) s t h = elim (Option-cases (strip_prefix p s)) [
  | inl e ↦ ground (arith, strip_any-append_none ps s t)
  | inr (r, e) ↦ ground (arith, strip_prefix-append p s t {r = r} e)
]

abbrev IsProper : List Bytes → Type 0
IsProper = All (λ p. 0 < length p)

-- What is stripped is a text that is not empty.
strip_any-eq-append :
    (ps : List Bytes) (s : Bytes) {r : Bytes}
    → IsProper ps
    → strip_any ps s ≡ some r
    → (p : Bytes) × (0 < length p) × (s ≡ p ++ r)
unfolding strip_any
strip_any-eq-append [] s v h = cc
strip_any-eq-append (p ∷ ps) s {r} v h = elim (Option-cases (strip_prefix p s)) [
  | inl e ↦ strip_any-eq-append ps s {r = r} v.1 (ground arith)
  | inr (r', e) ↦ (p, v.0, strip_prefix-eq-append p s (ground arith))
]

trim_from-none :
    (ps : List Bytes) (fuel : ℕ) (s : Bytes) → strip_any ps s ≡ none → trim_from ps fuel s ≡ s
unfolding trim_from
trim_from-none ps zero s h = refl
trim_from-none ps (suc fuel) s h = ground arith

trim_none_nil : (ps : List Bytes) → IsProper ps → strip_any ps [] ≡ none
unfolding strip_any strip_prefix
trim_none_nil [] v = refl
trim_none_nil ([] ∷ ps) v = absurd (omega arith)
trim_none_nil ((a ∷ p) ∷ ps) v = trim_none_nil ps v.1

-- With the text's length for fuel the loop ends where no prefix fits any more.
strip_any-trim_from :
    (ps : List Bytes) (fuel : ℕ) (s : Bytes)
    → IsProper ps
    → length s ≤ fuel
    → strip_any ps (trim_from ps fuel s) ≡ none
unfolding trim_from
strip_any-trim_from ps zero [] v h = trim_none_nil ps v
strip_any-trim_from ps zero (b ∷ s) v h = absurd (omega arith)
strip_any-trim_from ps (suc fuel) s v h = elim (Option-cases (strip_any ps s)) [
  | inl e ↦ rw (e, trim_from) e
  | inr (r, e) ↦
      let (p, positive, same) = strip_any-eq-append ps s v e in
      rw (e, trim_from)
        (strip_any-trim_from ps fuel r v (omega (arith, ap length same, length-append p r)))
]

-- What is trimmed on the left is a text in front of the result.
trim_from-eq-append :
    (ps : List Bytes) (fuel : ℕ) (s : Bytes)
    → IsProper ps
    → (p : Bytes) × (s ≡ p ++ trim_from ps fuel s)
unfolding trim_from
trim_from-eq-append ps zero s v = ([], refl)
trim_from-eq-append ps (suc fuel) s v = elim (Option-cases (strip_any ps s)) [
  | inl e ↦ ([], rw (e, trim_from))
  | inr (r, e) ↦
      let (p, _, same) = strip_any-eq-append ps s v e in
      let (q, rest) = trim_from-eq-append ps fuel r v in
      (p ++ q, rw (e, trim_from) (same ∙ ap (λ t. p ++ t) rest ∙ sym (append_assoc p q _)))
]

module _ (ps : List Bytes) (s : Bytes) (v : IsProper ps) where
  strip_any-trim_left : strip_any ps (trim_left ps s) ≡ none
  unfolding trim_left
  strip_any-trim_left = strip_any-trim_from ps (length s) s v (omega arith)

  trim_left-eq-append : (p : Bytes) × (s ≡ p ++ trim_left ps s)
  unfolding trim_left
  trim_left-eq-append = trim_from-eq-append ps (length s) s v

module _ (ps : List Bytes) (s : Bytes) (v : IsProper (reverse_all ps)) where
  strip_any-trim_right : strip_any (reverse_all ps) (reverse (trim_right ps s)) ≡ none
  unfolding trim_right
  strip_any-trim_right =
      rw (reverse-reverse (trim_left (reverse_all ps) (reverse s)))
        (strip_any-trim_left (reverse_all ps) (reverse s) v)

  -- The text on the right that is trimmed.
  trim_right-eq-append : (q : Bytes) × (s ≡ trim_right ps s ++ q)
  unfolding trim_right
  trim_right-eq-append =
      let (p, same) = trim_left-eq-append (reverse_all ps) (reverse s) v in
      (reverse p, sym (reverse-reverse s) ∙ ap reverse same ∙ reverse-append p _)

spaces-IsProper : IsProper spaces
spaces-IsProper = omega arith

spaces_reversed-IsProper : IsProper (reverse_all spaces)
unfolding reverse_all
spaces_reversed-IsProper = omega arith

-- The trimmed text begins with no white space.
strip_any-trim_space : (s : Bytes) → strip_any spaces (trim_space s) ≡ none
unfolding trim_space
strip_any-trim_space s =
    let l = trim_left spaces s in
    let (q, same) = trim_right-eq-append spaces l spaces_reversed-IsProper in
    strip_any-append_none spaces (trim_right spaces l) q
      (rw (← same) (strip_any-trim_left spaces s spaces-IsProper))

trim_right-none :
    (ps : List Bytes) (s : Bytes)
    → strip_any (reverse_all ps) (reverse s) ≡ none
    → trim_right ps s ≡ s
unfolding trim_right trim_left
trim_right-none ps s h = rw (trim_from-none (reverse_all ps) _ (reverse s) h) (reverse-reverse s)

trim_left-none : (ps : List Bytes) (s : Bytes) → strip_any ps s ≡ none → trim_left ps s ≡ s
unfolding trim_left
trim_left-none ps s h = trim_from-none ps (length s) s h

-- Trimming a second time changes nothing.
pub trim_space-trim_space : (s : Bytes) → trim_space (trim_space s) ≡ trim_space s
unfolding trim_space
trim_space-trim_space s =
    ap (trim_right spaces) (trim_left-none spaces (trim_space s) (strip_any-trim_space s))
    ∙ trim_right-none spaces (trim_space s)
        (strip_any-trim_right spaces (trim_left spaces s) spaces_reversed-IsProper)
