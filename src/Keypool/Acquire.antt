-- ===== src/Keypool/Acquire.antt =====
-- Acquire: which key is handed out.
use all2api.Prelude.{
  ◌≡◌, refl, ap, ◌↔◌, true, false, none, some, List, [], ◌∷◌, ◌++◌, arith, All, Bool-cases, inl,
  inr,
}
use all2api.Clock.{Time}
use all2api.Keypool.{KeyState, Pool, Handle, is_active, refresh, acquire_from, acquire}
use all2api.Keypool.Available.{
  IsAvailable, refresh_available, IsAvailable-of_refresh, refresh_waiting,
}

-- The list of keys before a call of Acquire and behind it, when it hands out `h`.
abbrev pub Chooses : Time → List KeyState → Handle → List KeyState → Type 0
Chooses now ks h ks' =
    (before : List KeyState) × (k : KeyState) × (later : List KeyState) × (ks ≡ before ++ k ∷ later)
    × (ks' ≡ before ++ h.state ∷ later)
    × All (λ j. ¬ IsAvailable now j) before
    × IsAvailable now k
    × (h.state ≡ refresh now k)

acquire_from_nil : (now : Time) → acquire_from now [] ≡ ([], none)
unfolding acquire_from
acquire_from_nil now = refl

module _ (now : Time) (k : KeyState) (ks : List KeyState) where
  pub acquire_from_found :
      is_active (refresh now k).status ≡ true
      → acquire_from now (k ∷ ks) ≡ (refresh now k ∷ ks, some (record { state = refresh now k }))
  unfolding acquire_from
  acquire_from_found h = rw h

  -- A key that waits is not changed.
  acquire_from_later :
      is_active (refresh now k).status ≡ false
      → acquire_from now (k ∷ ks) ≡ (k ∷ (acquire_from now ks).0, (acquire_from now ks).1)
  unfolding acquire_from
  acquire_from_later h = rw h (rw (refresh_waiting now k h))

pub not-IsAvailable :
    (now : Time) (k : KeyState) → is_active (refresh now k).status ≡ false → ¬ IsAvailable now k
not-IsAvailable now k h a = cc (refresh_available now k a)

Chooses-here :
    (now : Time) (k : KeyState) (ks : List KeyState) {h : Handle}
    → IsAvailable now k
    → some (record { state = refresh now k }) ≡ some h
    → Chooses now (k ∷ ks) h (refresh now k ∷ ks)
Chooses-here now k ks a e = ([], k, ks, refl, ap (λ j. j ∷ ks) (ground arith), tt, a, ground arith)

Chooses-cons :
    (now : Time) (k : KeyState) {ks ks' : List KeyState} {h : Handle}
    → ¬ IsAvailable now k
    → Chooses now ks h ks'
    → Chooses now (k ∷ ks) h (k ∷ ks')
Chooses-cons now k waits (before, j, later, same, same', rest, a, state) =
    (k ∷ before, j, later, ap (λ l. k ∷ l) same, ap (λ l. k ∷ l) same', (waits, rest), a, state)

acquire_from-Chooses :
    (now : Time) (ks : List KeyState) (h : Handle)
    → (acquire_from now ks).1 ≡ some h
    → Chooses now ks h (acquire_from now ks).0
acquire_from-Chooses now [] h e = cc (rw (acquire_from_nil now) at e)
acquire_from-Chooses now (k ∷ ks) h e = elim (Bool-cases (is_active (refresh now k).status)) [
  | inl found ↦
      let same = acquire_from_found now k ks found in
      rw same (Chooses-here now k ks (IsAvailable-of_refresh now k found) (rw same at e))
  | inr later ↦
      let same = acquire_from_later now k ks later in
      rw same (
        Chooses-cons now k (not-IsAvailable now k later)
          (acquire_from-Chooses now ks h (rw same at e)))
]

-- A handle is for the first key, in the configured order, that is available: all keys before it
-- wait and are left as they were, and the chosen key alone is refreshed.
pub acquire-Chooses :
    (now : Time) (p : Pool) (h : Handle)
    → (acquire now p).1 ≡ some h
    → Chooses now p.keys h (acquire now p).0.keys
unfolding acquire
acquire-Chooses now p h e = acquire_from-Chooses now p.keys h e

acquire_from-eq-none_iff :
    (now : Time) (ks : List KeyState)
    → ((acquire_from now ks).1 ≡ none) ↔ All (λ k. ¬ IsAvailable now k) ks
acquire_from-eq-none_iff now [] = (λ _. tt, λ _. rw (acquire_from_nil now))
acquire_from-eq-none_iff now (k ∷ ks) = elim (Bool-cases (is_active (refresh now k).status)) [
  | inl found ↦ (
    λ e. cc (rw (acquire_from_found now k ks found) at e),
    λ (waits, _). absurd (waits (IsAvailable-of_refresh now k found)),
  )
  | inr later ↦
      let same = acquire_from_later now k ks later in
      let (to, from) = acquire_from-eq-none_iff now ks in
      (λ e. (not-IsAvailable now k later, to (rw same at e)), λ (_, rest). rw same (from rest))
]

-- Acquire fails exactly when no key of the pool is available.
pub acquire-eq-none_iff :
    (now : Time) (p : Pool) → ((acquire now p).1 ≡ none) ↔ All (λ k. ¬ IsAvailable now k) p.keys
unfolding acquire
acquire-eq-none_iff now p = acquire_from-eq-none_iff now p.keys
