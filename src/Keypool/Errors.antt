-- ===== src/Keypool/Errors.antt =====
-- MarkError: failures are counted, and only the last of a row takes the key out of use.
use all2api.Prelude.{
  ℕ, zero, suc, ◌+◌, ◌^◌, ◌≤◌, ◌<◌, ◌≡◌, refl, ap, ◌∙◌, ◌⊎◌, some, none, Option, List, [], ◌∷◌,
  arith, pos, ◌<ℤ◌, ◌≤ℤ◌, increment, increment-pos, Bool-cases, inl, inr, if◌then◌else◌,
}
use all2api.Text.{Bytes, text_eq}
use all2api.Clock.{Time}
use all2api.Keypool.{
  error, Options, KeyState, Pool, Handle, is_active, refresh, acquire, acquire_from, at_label, find,
}
use all2api.Keypool.Mark.{count_error, mark_error}
use all2api.Keypool.Identity.{label-refresh, label-count_error}

-- The label of the key that Acquire hands out.
abbrev pub chosen_label : Option Handle → Option Bytes
chosen_label none = none
chosen_label (some h) = some h.state.label

-- One more failure of the key stays below the limit, or there is no limit.
abbrev pub IsBelow : Options → KeyState → Type 0
IsBelow opts k = (opts.max_error_count ≤ℤ pos 0) ⊎ (increment k.error_count <ℤ opts.max_error_count)

refresh-count_error :
    (opts : Options) (now u : Time) (reason : Bytes) (k : KeyState)
    → IsBelow opts k
    → is_active (refresh now (count_error opts u reason k)).status
      ≡ is_active (refresh now k).status
unfolding refresh count_error
refresh-count_error opts now u reason k (inl h) = ground arith
refresh-count_error opts now u reason k (inr h) = ground arith

chosen_label-cons :
    (now : Time) (k : KeyState) (ks : List KeyState)
    → chosen_label (acquire_from now (k ∷ ks)).1 ≡ (
        if is_active (refresh now k).status
        then some k.label
        else chosen_label (acquire_from now ks).1)
unfolding acquire_from
chosen_label-cons now k ks = elim (Bool-cases (is_active (refresh now k).status)) [
  | inl found ↦ rw found (ap some (label-refresh now k))
  | inr later ↦ rw later
]

module _ (opts : Options) (now u : Time) (reason : Bytes) where
  same_choice_head :
      (k : KeyState) (ks : List KeyState)
      → IsBelow opts k
      → chosen_label (acquire_from now (count_error opts u reason k ∷ ks)).1
        ≡ chosen_label (acquire_from now (k ∷ ks)).1
  same_choice_head k ks b = rw (
    chosen_label-cons now k ks,
    chosen_label-cons now (count_error opts u reason k) ks,
    refresh-count_error opts now u reason k b,
    label-count_error opts u reason k,
  )

  same_choice :
      (label : Bytes) (ks : List KeyState) {k : KeyState}
      → find label ks ≡ some k
      → IsBelow opts k
      → chosen_label (acquire_from now (at_label label (count_error opts u reason) ks)).1
        ≡ chosen_label (acquire_from now ks).1
  unfolding find at_label
  same_choice label [] e b = cc
  same_choice label (j ∷ ks) {k} e b = elim (Bool-cases (text_eq j.label label)) [
    | inl hit ↦ let same : j ≡ k = ground arith in rw hit (same_choice_head j ks (rw same b))
    | inr miss ↦ rw miss (
        rw (chosen_label-cons now j ks, chosen_label-cons now j _)
          (ap (λ o. if is_active (refresh now j).status then some j.label else o)
            (same_choice label ks (rw miss at e) b)))
  ]

-- A failure below the limit does not change which key Acquire hands out, at any time.
pub acquire-mark_error :
    (p : Pool) (now u : Time) (label reason : Bytes) {k : KeyState}
    → find label p.keys ≡ some k
    → IsBelow p.opts k
    → chosen_label (acquire now (mark_error u label reason p)).1 ≡ chosen_label (acquire now p).1
unfolding acquire mark_error
acquire-mark_error p now u label reason e b = same_choice p.opts now u reason label p.keys e b

-- `n` failures of a key in a row.
abbrev pub count_errors : Options → Time → Bytes → ℕ → KeyState → KeyState
count_errors opts now reason zero k = k
count_errors opts now reason (suc n) k =
    count_error opts now reason (count_errors opts now reason n k)

module _ (opts : Options) (now : Time) (reason : Bytes) (k : KeyState) (m : ℕ)
    (limit : opts.max_error_count ≡ pos m) (fits : m < 2 ^ 63) where
  count_one :
      (j : KeyState) (n : ℕ)
      → j.error_count ≡ pos n
      → n < m
      → ((count_error opts now reason j).error_count ≡ pos (suc n))
        × (suc n < m → (count_error opts now reason j).status ≡ j.status)
        × (suc n ≡ m → (count_error opts now reason j).status ≡ error)
  unfolding count_error
  count_one j n e h =
      let counted : increment j.error_count ≡ pos (n + 1) =
        ap increment e ∙ increment-pos n (omega arith) in
      (ground arith, λ l. ground arith, λ l. ground arith)

  -- Failures in a row of a key without failures leave its status as it is up to the limit, and the
  -- one that reaches the limit sets it to error; the limit is a positive int.
  pub count_errors_lem :
      k.error_count ≡ pos 0
      → (n : ℕ) → n ≤ m
      → ((count_errors opts now reason n k).error_count ≡ pos n)
        × (n < m → (count_errors opts now reason n k).status ≡ k.status)
        × (n ≡ m → 0 < n → (count_errors opts now reason n k).status ≡ error)
  count_errors_lem e zero h = (e, λ _. refl, λ _ b. absurd (omega arith))
  count_errors_lem e (suc n) h =
      let (count, below, _) = count_errors_lem e n (omega arith) in
      let (next, stays, fails) =
        count_one (count_errors opts now reason n k) n count (omega arith) in
      (next, λ l. stays l ∙ below (omega arith), λ l _. fails l)
