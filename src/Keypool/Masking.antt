-- ===== src/Keypool/Masking.antt =====
-- Snapshot shows nothing of a secret but its last four bytes, and those only of a longer secret.
use all2api.Prelude.{
  ℕ, ◌-◌, ◌≤◌, ◌<◌, ◌≡◌, refl, ◌⊎◌, inl, inr, List, [], ◌∷◌, ◌++◌, arith, length, length-append,
  drop-append, ap, leb, true, false, ◌∙◌, sym, map,
}
use all2api.Text.{Bytes, bytes}
use all2api.Keypool.{KeyState, Pool, KeyStateView, mask_key, view, snapshot}

leb-true : (m n : ℕ) → m ≤ n → leb m n ≡ true
leb-true m n h = ground arith

leb-false : (m n : ℕ) → n < m → leb m n ≡ false
leb-false m n h = ground arith

mask_key_short : (k : Bytes) → length k ≤ 4 → mask_key k ≡ bytes "****"
unfolding mask_key
mask_key_short k h = rw (leb-true (length k) 4 h)

mask_key_long : (p t : Bytes) → length t ≡ 4 → 0 < length p → mask_key (p ++ t) ≡ bytes "****" ++ t
unfolding mask_key
mask_key_long p t four some_more =
    let whole = length-append p t in
    let cut : length (p ++ t) - 4 ≡ length p = omega arith in
    rw (leb-false (length (p ++ t)) 4 (omega arith), cut)
      (ap (λ s. bytes "****" ++ s) (drop-append p t))

-- Two secrets of at most four bytes, or two longer ones that end in the same four bytes.
abbrev pub LookAlike : Bytes → Bytes → Type 0
LookAlike k j =
    ((length k ≤ 4) × (length j ≤ 4))
    ⊎ ((p : Bytes) × (q : Bytes) × (t : Bytes) × (length t ≡ 4)
        × (0 < length p)
        × (0 < length q)
        × (k ≡ p ++ t)
        × (j ≡ q ++ t))

mask_key-LookAlike : (k j : Bytes) → LookAlike k j → mask_key k ≡ mask_key j
mask_key-LookAlike k j (inl (a, b)) = mask_key_short k a ∙ sym (mask_key_short j b)
mask_key-LookAlike k j (inr (p, q, t, four, a, b, same, same')) =
    rw (same, same', mask_key_long p t four a, mask_key_long q t four b)

-- The two keys differ in their secrets alone, and these look alike.
abbrev pub AreTwins : KeyState → KeyState → Type 0
AreTwins k j = (j ≡ record k { key = j.key }) × LookAlike k.key j.key

abbrev pub AllTwins : List KeyState → List KeyState → Type 0
AllTwins [] [] = Unit
AllTwins [] (j ∷ js) = ⊥
AllTwins (k ∷ ks) [] = ⊥
AllTwins (k ∷ ks) (j ∷ js) = AreTwins k j × AllTwins ks js

view-twin : (k j : KeyState) → AreTwins k j → view k ≡ view j
unfolding view
view-twin k j (same, alike) =
    ap {B = KeyStateView} (λ m. record (view k) { masked_key = m })
      (mask_key-LookAlike k.key j.key alike)
    ∙ sym (ap view same)

views-twins : (ks js : List KeyState) → AllTwins ks js → map view ks ≡ map view js
views-twins [] [] h = refl
views-twins [] (j ∷ js) h = absurd h
views-twins (k ∷ ks) [] h = absurd h
views-twins (k ∷ ks) (j ∷ js) (h, hs) = rw (view-twin k j h, views-twins ks js hs)

-- Snapshots of two pools are equal if their keys differ in their secrets alone, and each two
-- secrets have at most four bytes, or are longer and end in the same four bytes.
pub snapshot-twins : (p q : Pool) → AllTwins p.keys q.keys → snapshot p ≡ snapshot q
unfolding snapshot
snapshot-twins p q h = views-twins p.keys q.keys h
