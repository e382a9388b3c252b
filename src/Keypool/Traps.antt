-- ===== src/Keypool/Traps.antt =====
-- internal/keypool/keypool.go: the keys of a pool that stay out of use until a deadline, and the number
-- of keys that the upstream would still refuse.
use all2api.Prelude.{
  ℕ, suc, ◌+◌, ◌≤◌, ◌≡◌, ◌≢◌, refl, sym, ap, ◌∙◌, ◌⊎◌, inl, inr, Bool, true, false, not, ◌&&◌, some,
  List, [], ◌∷◌, leb, if◌then◌else◌, arith, Bool-cases,
}
use all2api.Text.{Bytes, text_eq}
use all2api.Text.Equality.{text_eq_iff, text_eq-false}
use all2api.Clock.{Time}
use all2api.Keypool.{
  KeyState, active, exhausted, rate_limited, error, Handle, is_active, refresh, acquire_from,
  at_label,
}
use all2api.Keypool.Blocked.{HasDistinctLabels}
use all2api.Keypool.Distinct.{Holds, Holds-label, label_of}

module _ (deadline : Time) (good : Bytes → Bool) where
  -- The key's cooldown lasts until the deadline at least.
  abbrev pub is_cooling : KeyState → Bool
  is_cooling k = elim k.status [
    | active ↦ false
    | exhausted ↦ false
    | rate_limited ↦ leb deadline k.cooldown_until
    | error ↦ leb deadline k.cooldown_until
  ]

  -- A key that the upstream refuses and that may still be handed out.
  abbrev pub is_trap : KeyState → Bool
  is_trap k = not (good k.key) && not (is_cooling k)

  unfoldable pub count_traps : List KeyState → ℕ
  count_traps [] = 0
  count_traps (k ∷ ks) = (if is_trap k then 1 else 0) + count_traps ks

  abbrev pub IsGood : KeyState → Type 0
  IsGood k = (good k.key ≡ true) × (k.status ≡ active)

  -- A key is there that the upstream accepts and that is active.
  abbrev pub HasGood : List KeyState → Type 0
  HasGood [] = ⊥
  HasGood (k ∷ ks) = IsGood k ⊎ HasGood ks

  is_cooling-refresh :
      (now : Time) (k : KeyState) → now ≤ deadline → is_cooling (refresh now k) ≡ is_cooling k
  unfolding refresh
  is_cooling-refresh now k h = ground arith

  key-refresh : (now : Time) (k : KeyState) → (refresh now k).key ≡ k.key
  unfolding refresh
  key-refresh now k = ground arith

  refresh-active : (now : Time) (k : KeyState) → k.status ≡ active → refresh now k ≡ k
  unfolding refresh
  refresh-active now k h = ground arith

  is_cooling-active : (k : KeyState) → is_active k.status ≡ true → is_cooling k ≡ false
  is_cooling-active k h = ground arith

  is_trap-refresh :
      (now : Time) (k : KeyState) → now ≤ deadline → is_trap (refresh now k) ≡ is_trap k
  is_trap-refresh now k h = rw (is_cooling-refresh now k h, key-refresh now k)

  -- What a call of Acquire comes to where a good key is active: a key, which is not cooling.
  pub record IsHanded (now : Time) (ks : List KeyState) (handle : Handle) : Type 0 where
    pub found : (acquire_from now ks).1 ≡ some handle
    pub holds : Holds handle.state (acquire_from now ks).0
    pub has_good : HasGood (acquire_from now ks).0
    pub traps : count_traps (acquire_from now ks).0 ≡ count_traps ks
    pub warm : is_cooling handle.state ≡ false

  IsHanded-found :
      (now : Time) (k : KeyState) (ks : List KeyState)
      → now ≤ deadline
      → HasGood (refresh now k ∷ ks)
      → is_active (refresh now k).status ≡ true
      → IsHanded now (k ∷ ks) (record { state = refresh now k })
  unfolding acquire_from count_traps
  IsHanded-found now k ks h good_there hit = record {
    found = rw hit;
    holds = rw hit (inl refl);
    has_good = rw hit good_there;
    traps = rw hit (rw (is_trap-refresh now k h));
    warm = is_cooling-active (refresh now k) hit;
  }

  IsHanded-later :
      (now : Time) (k : KeyState) (ks : List KeyState) (handle : Handle)
      → now ≤ deadline
      → is_active (refresh now k).status ≡ false
      → IsHanded now ks handle
      → IsHanded now (k ∷ ks) handle
  unfolding acquire_from count_traps
  IsHanded-later now k ks handle h miss rest = record {
    found = rw miss rest.found;
    holds = rw miss (inr rest.holds);
    has_good = rw miss (inr rest.has_good);
    traps = rw miss (rw (is_trap-refresh now k h, rest.traps));
    warm = rest.warm;
  }

  pub acquire_from-IsHanded :
      (now : Time) (ks : List KeyState)
      → now ≤ deadline
      → HasGood ks
      → (handle : Handle) × IsHanded now ks handle
  acquire_from-IsHanded now [] h g = elim g [ ]
  acquire_from-IsHanded now (k ∷ ks) h (inl g) =
      let same = refresh-active now k g.1 in
      let g' : IsGood (refresh now k) = rw same g in
      (record { state = refresh now k }, IsHanded-found now k ks h (inl g') (rw (g'.1) refl))
  acquire_from-IsHanded now (k ∷ ks) h (inr gs) =
      elim (Bool-cases (is_active (refresh now k).status)) [
        | inl hit ↦ (record { state = refresh now k }, IsHanded-found now k ks h (inr gs) hit)
        | inr miss ↦
            let (handle, rest) = acquire_from-IsHanded now ks h gs in
            (handle, IsHanded-later now k ks handle h miss rest)
      ]

  -- A mark that keeps the refused key out of use until the deadline.
  module _ (f : KeyState → KeyState) (cools : (k : KeyState) → is_cooling (f k) ≡ true)
      (j : KeyState) (refused : good j.key ≡ false) (warm : is_cooling j ≡ false) where
    -- The key with the label at the head is the refused one, since the labels are distinct.
    head_is :
        (k : KeyState) (ks : List KeyState)
        → HasDistinctLabels (k ∷ ks)
        → Holds j (k ∷ ks)
        → k.label ≡ j.label
        → k ≡ j
    head_is k ks (other, d) (inl e) same = e
    head_is k ks (other, d) (inr m) same = absurd (Holds-label k.label j ks m other (sym same))

    not_head :
        (k : KeyState) (ks : List KeyState) → Holds j (k ∷ ks) → k.label ≢ j.label → Holds j ks
    not_head k ks (inl e) other = absurd (other (ap label_of e))
    not_head k ks (inr m) other = m

    HasGood-replace :
        (k : KeyState) (ks : List KeyState) → k ≡ j → HasGood (k ∷ ks) → HasGood (f k ∷ ks)
    HasGood-replace k ks e (inl g) =
        let bad : good k.key ≡ false = ap (λ (i : KeyState). good i.key) e ∙ refused in cc
    HasGood-replace k ks e (inr gs) = inr gs

    HasGood-keep :
        (k : KeyState) (ks js : List KeyState)
        → (HasGood ks → HasGood js)
        → HasGood (k ∷ ks)
        → HasGood (k ∷ js)
    HasGood-keep k ks js go (inl g) = inl g
    HasGood-keep k ks js go (inr gs) = inr (go gs)

    pub at_label-HasGood :
        (ks : List KeyState)
        → HasDistinctLabels ks
        → Holds j ks
        → HasGood ks
        → HasGood (at_label j.label f ks)
    unfolding at_label
    at_label-HasGood [] d m g = g
    at_label-HasGood (k ∷ ks) (other, d) m g = elim (Bool-cases (text_eq k.label j.label)) [
      | inl hit ↦
          rw hit (
            HasGood-replace k ks (head_is k ks (other, d) m ((text_eq_iff k.label j.label).0 hit))
              g)
      | inr miss ↦ rw miss (
          HasGood-keep k ks (at_label j.label f ks)
            (at_label-HasGood ks d (not_head k ks m (text_eq-false k.label j.label miss))) g)
    ]

    trap_gone : (k : KeyState) → k ≡ j → (is_trap k ≡ true) × (is_trap (f k) ≡ false)
    trap_gone k e = (rw (e, refused, warm), ground (arith, cools k))

    pub count_traps-at_label :
        (ks : List KeyState)
        → HasDistinctLabels ks
        → Holds j ks
        → suc (count_traps (at_label j.label f ks)) ≡ count_traps ks
    unfolding at_label count_traps
    count_traps-at_label [] d m = elim m [ ]
    count_traps-at_label (k ∷ ks) (other, d) m = elim (Bool-cases (text_eq k.label j.label)) [
      | inl hit ↦
          let (was, gone) =
            trap_gone k (head_is k ks (other, d) m ((text_eq_iff k.label j.label).0 hit)) in
          rw hit (rw (was, gone) (omega arith))
      | inr miss ↦
          let rest =
            count_traps-at_label ks d (not_head k ks m (text_eq-false k.label j.label miss)) in
          rw miss (omega (arith, rest))
    ]
