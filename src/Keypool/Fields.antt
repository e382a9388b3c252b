-- ===== src/Keypool/Fields.antt =====
-- What a write to one key and a search for an active key keep of the list of keys.
use all2api.Prelude.{◌≡◌, refl, List, [], ◌∷◌, map, All, Bool-cases, inl, inr}
use all2api.Text.{Bytes, text_eq}
use all2api.Clock.{Time}
use all2api.Keypool.{KeyState, is_active, refresh, acquire_from, at_label}

module _ {ℓ} (P : KeyState → Type ℓ) where
  pub at_label-All :
      (label : Bytes) (f : KeyState → KeyState) (ks : List KeyState)
      → ((k : KeyState) → P k → P (f k))
      → All P ks
      → All P (at_label label f ks)
  unfolding at_label
  at_label-All label f [] keep h = tt
  at_label-All label f (k ∷ ks) keep (p, h) = elim (Bool-cases (text_eq k.label label)) [
    | inl hit ↦ rw hit (keep k p, h)
    | inr miss ↦ rw miss (p, at_label-All label f ks keep h)
  ]

  pub acquire_from-All :
      (now : Time) (ks : List KeyState)
      → ((k : KeyState) → P k → P (refresh now k))
      → All P ks
      → All P (acquire_from now ks).0
  unfolding acquire_from
  acquire_from-All now [] keep h = tt
  acquire_from-All now (k ∷ ks) keep (p, h) = elim (Bool-cases (is_active (refresh now k).status)) [
    | inl found ↦ rw found (keep k p, h)
    | inr later ↦ rw later (keep k p, acquire_from-All now ks keep h)
  ]

module _ {ℓ} {A : Type ℓ} (g : KeyState → A) where
  pub map-at_label :
      (label : Bytes) (f : KeyState → KeyState) (ks : List KeyState)
      → ((k : KeyState) → g (f k) ≡ g k)
      → map g (at_label label f ks) ≡ map g ks
  unfolding at_label
  map-at_label label f [] same = refl
  map-at_label label f (k ∷ ks) same = elim (Bool-cases (text_eq k.label label)) [
    | inl hit ↦ rw hit (rw (same k))
    | inr miss ↦ rw miss (rw (map-at_label label f ks same))
  ]

  pub map-acquire_from :
      (now : Time) (ks : List KeyState)
      → ((k : KeyState) → g (refresh now k) ≡ g k)
      → map g (acquire_from now ks).0 ≡ map g ks
  unfolding acquire_from
  map-acquire_from now [] same = refl
  map-acquire_from now (k ∷ ks) same = elim (Bool-cases (is_active (refresh now k).status)) [
    | inl found ↦ rw found (rw (same k))
    | inr later ↦ rw later (rw (same k, map-acquire_from now ks same))
  ]
