-- ===== src/Text/Equality.antt =====
-- The test of two byte strings for equality decides their equality.
use all2api.Prelude.{◌≡◌, ◌≢◌, refl, ◌↔◌, true, false, [], ◌∷◌, arith}
use all2api.Text.{Bytes, text_eq}

pub text_eq_refl : (s : Bytes) → text_eq s s ≡ true
unfolding text_eq
text_eq_refl [] = refl
text_eq_refl (a ∷ s) = ground (arith, text_eq_refl s)

pub eq_of_text_eq : (s t : Bytes) → text_eq s t ≡ true → s ≡ t
unfolding text_eq
eq_of_text_eq [] [] h = refl
eq_of_text_eq [] (b ∷ t) h = cc
eq_of_text_eq (a ∷ s) [] h = cc
eq_of_text_eq (a ∷ s) (b ∷ t) h = ground (arith, eq_of_text_eq s t)

pub text_eq_iff : (s t : Bytes) → (text_eq s t ≡ true) ↔ (s ≡ t)
text_eq_iff s t = (eq_of_text_eq s t, λ e. rw e (text_eq_refl t))

pub text_eq-false : (s t : Bytes) → text_eq s t ≡ false → s ≢ t
text_eq-false s t h e = cc ((text_eq_iff s t).1 e)
