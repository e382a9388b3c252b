-- ===== src/Keypool/Recovery.antt =====
-- EarliestRecoverySeconds: 0 with an active key, and else the least value that the switch over the
-- status of a key gives.
use all2api.Prelude.{
  ◌≡◌, refl, ◌⊎◌, inl, inr, true, false, List, [], ◌∷◌, arith, All, ℤ, pos, negsuc, ◌≤ℤ◌,
  if◌then◌else◌, ◌||◌, eq_ℤ, ltb_ℤ, Bool-cases, ◌∙◌, sym, ap,
}
use mathlib.Core.Path.{subst}
use all2api.Clock.{Time}
use all2api.Keypool.{KeyState, Pool, is_active}
use all2api.Keypool.Mark.{key_recovery, recovery_from, earliest_recovery_seconds}

abbrev pub AnyActive : List KeyState → Type 0
AnyActive [] = ⊥
AnyActive (k ∷ ks) = (is_active k.status ≡ true) ⊎ AnyActive ks

abbrev pub NoneActive : List KeyState → Type 0
NoneActive = All (λ k. is_active k.status ≡ false)

-- Some key recovers after just these seconds.
abbrev pub Attains : Time → ℤ → List KeyState → Type 0
Attains now r [] = ⊥
Attains now r (k ∷ ks) = (key_recovery now k ≡ r) ⊎ Attains now r ks

-- `r` is the least of the values.
abbrev pub IsEarliest : Time → ℤ → List KeyState → Type 0
IsEarliest now r ks = (pos 1 ≤ℤ r) × All (λ k. r ≤ℤ key_recovery now k) ks × Attains now r ks

one-le-key_recovery :
    (now : Time) (k : KeyState) → is_active k.status ≡ false → pos 1 ≤ℤ key_recovery now k
unfolding key_recovery
one-le-key_recovery now k h = ground arith

recovery_from_active :
    (now : Time) (best : ℤ) (ks : List KeyState) → AnyActive ks → recovery_from now best ks ≡ pos 0
unfolding recovery_from
recovery_from_active now best [] h = absurd h
recovery_from_active now best (k ∷ ks) (inl h) = rw h
recovery_from_active now best (k ∷ ks) (inr h) = ground (
  arith,
  recovery_from_active now
      (if eq_ℤ best (negsuc 0) || ltb_ℤ (key_recovery now k) best then key_recovery now k else best)
      ks h,
)

recovery_from_nil : (now : Time) (best : ℤ) → pos 1 ≤ℤ best → recovery_from now best [] ≡ best
unfolding recovery_from
recovery_from_nil now best b = ground arith

recovery_from_none : (now : Time) → recovery_from now (negsuc 0) [] ≡ pos 300
unfolding recovery_from
recovery_from_none now = refl

-- One round of the loop, with a best value that some key has reached.
recovery_from-cons :
    (now : Time) (best : ℤ) (k : KeyState) (ks : List KeyState)
    → is_active k.status ≡ false
    → recovery_from now best (k ∷ ks)
      ≡ recovery_from now
          (if eq_ℤ best (negsuc 0) || ltb_ℤ (key_recovery now k) best
            then key_recovery now k
            else best)
          ks
unfolding recovery_from
recovery_from-cons now best k ks h = rw h

abbrev IsLeastFrom : Time → ℤ → ℤ → List KeyState → Type 0
IsLeastFrom now best r ks =
    (r ≤ℤ best)
    × (pos 1 ≤ℤ r)
    × All (λ k. r ≤ℤ key_recovery now k) ks
    × ((r ≡ best) ⊎ Attains now r ks)

module _ (now : Time) (best r : ℤ) (k : KeyState) (ks : List KeyState) where
  take_less :
      ltb_ℤ (key_recovery now k) best ≡ true
      → IsLeastFrom now (key_recovery now k) r ks
      → IsLeastFrom now best r (k ∷ ks)
  take_less less (below, one, all, reached) =
      (ground arith, one, (below, all), inr (attained reached))
    where
      attained : (r ≡ key_recovery now k) ⊎ Attains now r ks → Attains now r (k ∷ ks)
      attained (inl here) = inl (sym here)
      attained (inr there) = inr there

  keep_best :
      ltb_ℤ (key_recovery now k) best ≡ false
      → IsLeastFrom now best r ks
      → IsLeastFrom now best r (k ∷ ks)
  keep_best more (below, one, all, reached) = (below, one, (ground arith, all), attained reached)
    where
      attained : (r ≡ best) ⊎ Attains now r ks → (r ≡ best) ⊎ Attains now r (k ∷ ks)
      attained (inl here) = inl here
      attained (inr there) = inr (inr there)

  next_less :
      pos 1 ≤ℤ best
      → is_active k.status ≡ false
      → ltb_ℤ (key_recovery now k) best ≡ true
      → recovery_from now best (k ∷ ks) ≡ recovery_from now (key_recovery now k) ks
  next_less b h less =
      recovery_from-cons now best k ks h ∙ ap (λ v. recovery_from now v ks) (ground arith)

  next_best :
      pos 1 ≤ℤ best
      → is_active k.status ≡ false
      → ltb_ℤ (key_recovery now k) best ≡ false
      → recovery_from now best (k ∷ ks) ≡ recovery_from now best ks
  next_best b h more =
      recovery_from-cons now best k ks h ∙ ap (λ v. recovery_from now v ks) (ground arith)

recovery_from-IsLeastFrom :
    (now : Time) (best : ℤ) (ks : List KeyState)
    → pos 1 ≤ℤ best
    → NoneActive ks
    → IsLeastFrom now best (recovery_from now best ks) ks
recovery_from-IsLeastFrom now best [] b h =
    rw (recovery_from_nil now best b) (omega arith, omega arith, tt, inl refl)
recovery_from-IsLeastFrom now best (k ∷ ks) b (h, hs) =
    elim (Bool-cases (ltb_ℤ (key_recovery now k) best)) [
      | inl less ↦
          subst (λ r. IsLeastFrom now best r (k ∷ ks)) (sym (next_less now best best k ks b h less))
            (take_less now best _ k ks less (
              recovery_from-IsLeastFrom now (key_recovery now k) ks (one-le-key_recovery now k h)
                hs))
      | inr more ↦
          subst (λ r. IsLeastFrom now best r (k ∷ ks)) (sym (next_best now best best k ks b h more))
            (keep_best now best _ k ks more (recovery_from-IsLeastFrom now best ks b hs))
    ]

first_round :
    (now : Time) (k : KeyState) (ks : List KeyState)
    → is_active k.status ≡ false
    → recovery_from now (negsuc 0) (k ∷ ks) ≡ recovery_from now (key_recovery now k) ks
first_round now k ks h = recovery_from-cons now (negsuc 0) k ks h

from_first :
    (now : Time) (k : KeyState) (ks : List KeyState) (r : ℤ)
    → IsLeastFrom now (key_recovery now k) r ks
    → IsEarliest now r (k ∷ ks)
from_first now k ks r (below, one, all, inl here) = (one, (below, all), inl (sym here))
from_first now k ks r (below, one, all, inr there) = (one, (below, all), inr there)

no_active :
    (now : Time) (ks : List KeyState)
    → NoneActive ks
    → ((ks ≡ []) × (recovery_from now (negsuc 0) ks ≡ pos 300))
      ⊎ IsEarliest now (recovery_from now (negsuc 0) ks) ks
no_active now [] h = inl (refl, recovery_from_none now)
no_active now (k ∷ ks) (h, hs) = inr (
    subst (λ r. IsEarliest now r (k ∷ ks)) (sym (first_round now k ks h))
      (from_first now k ks _
        (recovery_from-IsLeastFrom now (key_recovery now k) ks (one-le-key_recovery now k h) hs)))

pub earliest_recovery_seconds-least :
    (now : Time) (p : Pool)
    → (AnyActive p.keys → earliest_recovery_seconds now p ≡ pos 0)
      × (NoneActive p.keys
          → ((p.keys ≡ []) × (earliest_recovery_seconds now p ≡ pos 300))
            ⊎ IsEarliest now (earliest_recovery_seconds now p) p.keys)
unfolding earliest_recovery_seconds
earliest_recovery_seconds-least now p =
    (recovery_from_active now (negsuc 0) p.keys, no_active now p.keys)
