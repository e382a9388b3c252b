-- ===== src/Text/Cut.antt =====
-- strings.IndexByte: where a text is cut at a byte.
use all2api.Prelude.{
  ℕ, ◌≡◌, refl, ◌≢◌, inl, inr, true, none, some, [], ◌∷◌, ◌++◌, arith, All, ◌==◌, Bool-cases,
  Option-cases,
}
use all2api.Text.{Bytes, cut_before}

-- The byte does not occur in the text.
abbrev pub Lacks : ℕ → Bytes → Type 0
Lacks c = All (λ b. b ≢ c)

pub cut_before-Lacks : (c : ℕ) (s : Bytes) → Lacks c s → cut_before c s ≡ (none, [])
unfolding cut_before
cut_before-Lacks c [] h = refl
cut_before-Lacks c (b ∷ s) h = ground (arith, cut_before-Lacks c s h.1)

-- A text is cut at the byte's first place.
pub cut_before-append :
    (c : ℕ) (p r : Bytes) → Lacks c p → cut_before c (p ++ c ∷ r) ≡ (some p, c ∷ r)
unfolding cut_before
cut_before-append c [] r h = ground arith
cut_before-append c (b ∷ p) r h = ground (arith, cut_before-append c p r h.1)

cut_at_head :
    (c b : ℕ) (s p : Bytes)
    → (b == c) ≡ true
    → (cut_before c (b ∷ s)).0 ≡ some p
    → (r : Bytes) × ((cut_before c (b ∷ s)).1 ≡ c ∷ r) × (b ∷ s ≡ p ++ c ∷ r) × Lacks c p
unfolding cut_before
cut_at_head c b s [] hit h = (s, ground arith, ground arith, tt)
cut_at_head c b s (a ∷ p) hit h = absurd (ground arith)

-- The two parts are the text, and the first lacks the byte.
pub cut_before_sound :
    (c : ℕ) (s p : Bytes)
    → (cut_before c s).0 ≡ some p
    → (r : Bytes) × ((cut_before c s).1 ≡ c ∷ r) × (s ≡ p ++ c ∷ r) × Lacks c p
unfolding cut_before
cut_before_sound c [] p h = cc
cut_before_sound c (b ∷ s) p h = elim (Bool-cases (b == c)) [
  | inl hit ↦ cut_at_head c b s p hit h
  | inr miss ↦ elim (Option-cases (cut_before c s).0) [
    | inl e ↦ absurd (ground arith)
    | inr (q, e) ↦
        let (r, cut, same, lacks) = cut_before_sound c s q e in
        (r, ground arith, ground arith, ground arith)
  ]
]

pub cut_before-none : (c : ℕ) (s : Bytes) → (cut_before c s).0 ≡ none → Lacks c s
unfolding cut_before
cut_before-none c [] h = tt
cut_before-none c (b ∷ s) h = ground (arith, cut_before-none c s)
