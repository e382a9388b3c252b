-- ===== src/Keypool/Earliest.antt =====
-- EarliestRecoverySeconds in terms of the clock: how long the keys of a pool keep a client waiting.
use all2api.Prelude.{
  ℕ, ◌+◌, ◌*◌, ◌^◌, ◌<◌, ◌≤◌, ◌≡◌, refl, ◌∙◌, ◌⊎◌, inl, inr, List, [], ◌∷◌, All, arith, ℤ, pos,
  pos_part, ap, ◌≤ℤ◌, ltb_ℤ, if◌then◌else◌, ltb, Bool-cases,
}
use mathlib.Core.Path.{subst}
use all2api.Clock.{Time, second, sub_time, whole_seconds}
use all2api.Clock.Seconds.{whole_seconds-until, whole_seconds-over}
use all2api.Keypool.{KeyStatus, active, exhausted, rate_limited, error, KeyState, Pool}
use all2api.Keypool.Mark.{key_recovery, earliest_recovery_seconds}
use all2api.Keypool.Recovery.{AnyActive, NoneActive, Attains, earliest_recovery_seconds-least}

-- The seconds until an instant: they end at most two microseconds behind it, and one more reaches
-- beyond it; or they are 1, and less than a second is left.
abbrev pub AreSecondsUntil : Time → Time → ℤ → Type 0
AreSecondsUntil now until r =
    (n : ℕ) × (r ≡ pos n)
    × (1 ≤ n)
    × (((n ≡ 1) × (until < now + second))
        ⊎ ((now + n * second ≤ until + 2000) × (until < now + (n + 1) * second)))

-- How long a key of this status waits, with the end of its cooldown: up to that end, and 300 seconds
-- if there is none or the key is exhausted.
abbrev pub IsWait : KeyStatus → Time → Time → ℤ → Type 0
IsWait active now until r = r ≡ pos 0
IsWait exhausted now until r = r ≡ pos 300
IsWait rate_limited now until r =
    ((until ≡ 0) × (r ≡ pos 300)) ⊎ ((0 < until) × AreSecondsUntil now until r)
IsWait error now until r =
    ((until ≡ 0) × (r ≡ pos 300)) ⊎ ((0 < until) × AreSecondsUntil now until r)

abbrev pub Waits : Time → ℤ → KeyState → Type 0
Waits now r k = IsWait k.status now k.cooldown_until r

abbrev pub AnyWaits : Time → ℤ → List KeyState → Type 0
AnyWaits now r [] = ⊥
AnyWaits now r (k ∷ ks) = Waits now r k ⊎ AnyWaits now r ks

abbrev at_least_one : ℤ → ℤ
at_least_one d = if ltb_ℤ d (pos 1) then pos 1 else d

at_least_one_low : (d : ℤ) → pos_part d ≡ 0 → at_least_one d ≡ pos 1
at_least_one_low d h = ground arith

at_least_one_pos : (s : ℕ) → 1 ≤ s → at_least_one (pos s) ≡ pos s
at_least_one_pos s h = ground arith

cooling-AreSecondsUntil :
    (now until : Time)
    → until < now + 2 ^ 63
    → AreSecondsUntil now until (at_least_one (whole_seconds (sub_time until now)))
cooling-AreSecondsUntil now until near = elim (Bool-cases (ltb until now)) [
  | inl over ↦ (
    1,
    at_least_one_low (whole_seconds (sub_time until now))
        (whole_seconds-over now until (ground arith)),
    omega arith,
    inl (refl, ground arith),
  )
  | inr later ↦
      let (s, e, low, high) = whole_seconds-until now until (ground arith) near in
      elim (Bool-cases (ltb s 1)) [
        | inl less ↦ (
          1,
          at_least_one_low (whole_seconds (sub_time until now)) (rw e (ground arith)),
          omega arith,
          inl (refl, ground arith),
        )
        | inr more ↦ (
          s,
          ap at_least_one e ∙ at_least_one_pos s (ground arith),
          ground arith,
          inr (low, high),
        )
      ]
]

key_recovery-Waits :
    (now : Time) (k : KeyState) → k.cooldown_until < now + 2 ^ 63 → Waits now (key_recovery now k) k
unfolding key_recovery
key_recovery-Waits now k near = ground (arith, cooling-AreSecondsUntil now k.cooldown_until near)

-- Each key waits for as long or longer, and some key waits just as long.
abbrev pub IsEarliestWait : Time → ℤ → List KeyState → Type 0
IsEarliestWait now r ks =
    (pos 1 ≤ℤ r) × All (λ k. (w : ℤ) × Waits now w k × (r ≤ℤ w)) ks × AnyWaits now r ks

Attains-AnyWaits :
    (now : Time) (r : ℤ) (ks : List KeyState)
    → All (λ k. k.cooldown_until < now + 2 ^ 63) ks
    → Attains now r ks
    → AnyWaits now r ks
Attains-AnyWaits now r [] near a = a
Attains-AnyWaits now r (k ∷ ks) (near, rest) (inl here) =
    inl (subst (λ w. Waits now w k) here (key_recovery-Waits now k near))
Attains-AnyWaits now r (k ∷ ks) (near, rest) (inr there) =
    inr (Attains-AnyWaits now r ks rest there)

All-Waits :
    (now : Time) (r : ℤ) (ks : List KeyState)
    → All (λ k. k.cooldown_until < now + 2 ^ 63) ks
    → All (λ k. r ≤ℤ key_recovery now k) ks
    → All (λ k. (w : ℤ) × Waits now w k × (r ≤ℤ w)) ks
All-Waits now r [] near h = tt
All-Waits now r (k ∷ ks) (near, rest) (h, hs) =
    ((key_recovery now k, key_recovery-Waits now k near, h), All-Waits now r ks rest hs)

-- EarliestRecoverySeconds is 0 if some key is active. If none is, it is 300 for a pool without keys,
-- and otherwise at least 1 and the least that a key waits: the seconds until the end of its cooldown,
-- and 300 if there is no such end or the key is exhausted; if no cooldown ends 292 years from now or
-- later.
pub earliest_recovery_seconds_lem :
    (now : Time) (p : Pool)
    → All (λ k. k.cooldown_until < now + 2 ^ 63) p.keys
    → (AnyActive p.keys → earliest_recovery_seconds now p ≡ pos 0)
      × (NoneActive p.keys
          → ((p.keys ≡ []) × (earliest_recovery_seconds now p ≡ pos 300))
            ⊎ IsEarliestWait now (earliest_recovery_seconds now p) p.keys)
earliest_recovery_seconds_lem now p near =
    let (some_active, none_active) = earliest_recovery_seconds-least now p in
    (
      some_active,
      λ h. elim (none_active h) [
        | inl empty ↦ inl empty
        | inr (one, all, attained) ↦ inr (
          one,
          All-Waits now (earliest_recovery_seconds now p) p.keys near all,
          Attains-AnyWaits now (earliest_recovery_seconds now p) p.keys near attained,
        )
      ],
    )
