-- ===== src/Keypool/Blocked.antt =====
-- A key that has been taken out of use is not handed out before its time, whatever other requests
-- do to the other keys of the pool in the meantime.
use all2api.Prelude.{
  ◌≡◌, ◌≢◌, refl, some, List, [], ◌∷◌, ◌++◌, All, All-mono, Bool-cases, inl, inr, ap, sym, ◌∙◌,
}
use all2api.Text.{Bytes, text_eq}
use all2api.Text.Equality.{text_eq_iff}
use all2api.Clock.{Time}
use all2api.Keypool.{KeyState, Pool, Handle, refresh, acquire, at_label, is_active}
use all2api.Keypool.Mark.{exhaust, limit_rate, count_error, invalidate, apply_snapshot}
use all2api.Keypool.Fields.{acquire_from-All}
use all2api.Keypool.Identity.{label-refresh, label-count_error}
use all2api.Keypool.Available.{IsAvailable, IsAvailable-of_refresh, refresh_waiting}
use all2api.Keypool.Acquire.{acquire-Chooses}
use all2api.Keypool.Step.{
  Call, acquires, exhausts, rate_limits, errors, invalidates, updates, step, run,
}

-- No key of this label is available at any time of the window.
abbrev pub Waits : (Time → Type 0) → Bytes → KeyState → Type 0
Waits W label k = k.label ≡ label → (t : Time) → W t → ¬ IsAvailable t k

abbrev pub Blocked : (Time → Type 0) → Bytes → Pool → Type 0
Blocked W label p = All (Waits W label) p.keys

-- The call does not report on the key of this label. (Acquire names no key.)
abbrev pub Spares : Bytes → Call → Type 0
Spares label acquires = Unit
Spares label (exhausts l) = l ≢ label
Spares label (rate_limits l) = l ≢ label
Spares label (errors l reason) = l ≢ label
Spares label (invalidates l reason) = l ≢ label
Spares label (updates l snap) = l ≢ label

-- No two keys have one label.
abbrev pub HasDistinctLabels : List KeyState → Type 0
HasDistinctLabels [] = Unit
HasDistinctLabels (k ∷ ks) = All (λ j. j.label ≢ k.label) ks × HasDistinctLabels ks

module _ (W : Time → Type 0) (label : Bytes) where
  refresh-Waits :
      (now : Time) → W now → (k : KeyState) → Waits W label k → Waits W label (refresh now k)
  refresh-Waits now w k h = elim (Bool-cases (is_active (refresh now k).status)) [
    | inl found ↦
        λ e t _ _. h (sym (label-refresh now k) ∙ e) now w (IsAvailable-of_refresh now k found)
    | inr later ↦ rw (refresh_waiting now k later) h
  ]

  at_label-Waits :
      (l : Bytes) (f : KeyState → KeyState) (ks : List KeyState)
      → l ≢ label
      → ((k : KeyState) → (f k).label ≡ k.label)
      → All (Waits W label) ks
      → All (Waits W label) (at_label l f ks)
  unfolding at_label
  at_label-Waits l f [] other same h = tt
  at_label-Waits l f (k ∷ ks) other same (p, h) = elim (Bool-cases (text_eq k.label l)) [
    | inl hit ↦
        rw hit (λ e _ _ _. other (sym ((text_eq_iff k.label l).0 hit) ∙ sym (same k) ∙ e), h)
    | inr miss ↦ rw miss (p, at_label-Waits l f ks other same h)
  ]

  pub step-Blocked :
      (p : Pool) (c : Time × Call)
      → W c.0
      → Spares label c.1
      → Blocked W label p
      → Blocked W label (step p c)
  unfolding step
  step-Blocked p (now, acquires) w s h =
      acquire_from-All (Waits W label) now p.keys (refresh-Waits now w) h
  step-Blocked p (now, exhausts l) w s h = at_label-Waits l (exhaust now) p.keys s (λ k. refl) h
  step-Blocked p (now, rate_limits l) w s h =
      at_label-Waits l (limit_rate p.opts now) p.keys s (λ k. refl) h
  step-Blocked p (now, errors l reason) w s h =
      at_label-Waits l (count_error p.opts now reason) p.keys s
        (label-count_error p.opts now reason) h
  step-Blocked p (now, invalidates l reason) w s h =
      at_label-Waits l (invalidate p.opts now reason) p.keys s (λ k. refl) h
  step-Blocked p (now, updates l snap) w s h =
      at_label-Waits l (apply_snapshot p.opts now snap) p.keys s (λ k. refl) h

  abbrev pub Elsewhere : Time × Call → Type 0
  Elsewhere c = W c.0 × Spares label c.1

  run-Blocked :
      (p : Pool) (cs : List (Time × Call))
      → All Elsewhere cs
      → Blocked W label p
      → Blocked W label (run p cs)
  unfolding run
  run-Blocked p [] s h = h
  run-Blocked p (c ∷ cs) (now, s) h = run-Blocked (step p c) cs s (step-Blocked p c now.0 now.1 h)

  Waits-middle :
      (before : List KeyState) (k : KeyState) (rest : List KeyState)
      → All (Waits W label) (before ++ k ∷ rest)
      → Waits W label k
  Waits-middle [] k rest h = h.0
  Waits-middle (j ∷ before) k rest h = Waits-middle before k rest h.1

  -- While a label is blocked, no handle is for it.
  pub acquire-Blocked :
      (now : Time) (p : Pool) (h : Handle)
      → W now
      → Blocked W label p
      → (acquire now p).1 ≡ some h
      → h.state.label ≢ label
  acquire-Blocked now p h w blocked e same =
      let (before, k, later, split, _, _, available, state) = acquire-Chooses now p h e in
      Waits-middle before k later (rw split at blocked)
        (sym (label-refresh now k) ∙ ap (λ (j : KeyState). j.label) (sym state) ∙ same) now w
        available

  pub at_label-Blocked :
      (f : KeyState → KeyState) (ks : List KeyState)
      → HasDistinctLabels ks
      → ((k : KeyState) → Waits W label (f k))
      → All (Waits W label) (at_label label f ks)
  unfolding at_label
  at_label-Blocked f [] d blocks = tt
  at_label-Blocked f (k ∷ ks) (other, d) blocks = elim (Bool-cases (text_eq k.label label)) [
    | inl hit ↦
        let same = (text_eq_iff k.label label).0 hit in
        rw hit (blocks k, All-mono _ _ (λ j ne e _ _ _. ne (e ∙ sym same)) ks other)
    | inr miss ↦
        rw miss (λ e _ _ _. cc ((text_eq_iff k.label label).1 e), at_label-Blocked f ks d blocks)
  ]

  -- A mark that blocks, calls of other requests within the window, and a call of Acquire.
  pub stays_blocked :
      (f : KeyState → KeyState) (p : Pool) (cs : List (Time × Call)) (now : Time) (h : Handle)
      → HasDistinctLabels p.keys
      → ((k : KeyState) → Waits W label (f k))
      → All Elsewhere cs
      → W now
      → (acquire now (run (record p { keys = at_label label f p.keys }) cs)).1 ≡ some h
      → h.state.label ≢ label
  stays_blocked f p cs now h d blocks s w e =
      acquire-Blocked now (run (record p { keys = at_label label f p.keys }) cs) h w
        (run-Blocked (record p { keys = at_label label f p.keys }) cs s
          (at_label-Blocked f p.keys d blocks))
        e
