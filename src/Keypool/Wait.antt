-- ===== src/Keypool/Wait.antt =====
-- EarliestRecoverySeconds as a promise: who waits so long, and a second more, gets a key.
use all2api.Prelude.{
  ℕ, ◌+◌, ◌*◌, ◌^◌, ◌<◌, ◌≡◌, ◌≢◌, ◌⊎◌, inl, inr, some, Option-cases, List, [], ◌∷◌, All, arith, ℤ,
  pos_part, ltb, Bool-cases,
}
use all2api.Clock.Seconds.{whole_seconds-until, whole_seconds-over}
use all2api.Clock.{Time, second, sub_time, whole_seconds}
use all2api.Keypool.{rate_limited, error, KeyState, Pool, Handle, acquire}
use all2api.Keypool.Mark.{key_recovery, earliest_recovery_seconds}
use all2api.Keypool.Available.{IsAvailable}
use all2api.Keypool.Acquire.{acquire-eq-none_iff}
use all2api.Keypool.Recovery.{NoneActive, Attains, earliest_recovery_seconds-least}

-- The key waits for the end of a cooldown, which is less than 292 years away.
abbrev pub IsCooling : Time → KeyState → Type 0
IsCooling now k =
    ((k.status ≡ rate_limited) ⊎ (k.status ≡ error))
    × (0 < k.cooldown_until)
    × (k.cooldown_until < now + 2 ^ 63)

-- The reading of the clock after so many seconds and one more.
abbrev pub wait : Time → ℤ → Time
wait now r = now + (pos_part r + 1) * second

cooling_seconds :
    (now until : ℕ)
    → until < now + 2 ^ 63
    → until < now + (pos_part (whole_seconds (sub_time until now)) + 1) * second
cooling_seconds now until h = elim (Bool-cases (ltb until now)) [
  | inl over ↦ ground (arith, whole_seconds-over now until (ground arith))
  | inr later ↦
      let (s, e, _, high) = whole_seconds-until now until (ground arith) h in rw e (omega arith)
]

IsCooling-IsAvailable :
    (now : Time) (k : KeyState) → IsCooling now k → IsAvailable (wait now (key_recovery now k)) k
unfolding key_recovery
IsCooling-IsAvailable now k (s, z, h) = ground (arith, cooling_seconds now k.cooldown_until)

None-of_cooling : (now : Time) (ks : List KeyState) → All (IsCooling now) ks → NoneActive ks
None-of_cooling now [] h = tt
None-of_cooling now (k ∷ ks) ((s, _, _), h) = (ground arith, None-of_cooling now ks h)

Attains-absurd :
    (now : Time) (r : ℤ) (ks : List KeyState)
    → All (IsCooling now) ks
    → Attains now r ks
    → All (λ k. ¬ IsAvailable (wait now r) k) ks
    → ⊥
Attains-absurd now r [] h a waits = a
Attains-absurd now r (k ∷ ks) (c, h) (inl here) (w, ws) =
    w (rw (← here) (IsCooling-IsAvailable now k c))
Attains-absurd now r (k ∷ ks) (c, h) (inr there) (w, ws) = Attains-absurd now r ks h there ws

-- If all keys of a pool that has some wait for the end of a cooldown, less than 292 years away, then
-- Acquire succeeds after the seconds that EarliestRecoverySeconds returns and one second more.
pub earliest_recovery_seconds-acquire :
    (now : Time) (p : Pool)
    → p.keys ≢ []
    → All (IsCooling now) p.keys
    → (h : Handle) × ((acquire (wait now (earliest_recovery_seconds now p)) p).1 ≡ some h)
earliest_recovery_seconds-acquire now p some_key cooling =
    let then_at = wait now (earliest_recovery_seconds now p) in
    elim ((earliest_recovery_seconds-least now p).1 (None-of_cooling now p.keys cooling)) [
      | inl (empty, _) ↦ absurd (some_key empty)
      | inr (_, _, attained) ↦ elim (Option-cases (acquire then_at p).1) [
        | inr found ↦ found
        | inl e ↦ absurd (
            Attains-absurd now (earliest_recovery_seconds now p) p.keys cooling attained
              ((acquire-eq-none_iff then_at p).0 e))
      ]
    ]
