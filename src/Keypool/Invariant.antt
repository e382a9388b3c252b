-- ===== src/Keypool/Invariant.antt =====
-- What every history of calls establishes of each key, and that no key stays out of use for ever.
use all2api.Prelude.{ℕ, ◌+◌, ◌≤◌, ◌<◌, ◌≡◌, refl, List, [], ◌∷◌, arith, All, pos, map}
use all2api.Text.{Bytes}
use all2api.Clock.{Time, add_duration}
use all2api.RateLimit.{RateLimitSnapshot}
use all2api.Keypool.{
  KeyStatus, active, exhausted, rate_limited, error, KeyEntry, Options, KeyState, Pool, new_key,
  new, refresh,
}
use all2api.Keypool.Mark.{exhaust, limit_rate, count_error, invalidate, apply_snapshot}
use all2api.Keypool.Fields.{at_label-All, acquire_from-All}
use all2api.Keypool.Identity.{opts-step}
use all2api.Keypool.Step.{
  Call, acquires, exhausts, rate_limits, errors, invalidates, updates, step, run,
}

-- A key that is out of use has the time that ends it.
abbrev pub HasEnd : KeyStatus → Time → Time → Type 0
HasEnd active last_updated cooldown_until = Unit {0}
HasEnd exhausted last_updated cooldown_until = 0 < last_updated
HasEnd rate_limited last_updated cooldown_until = 0 < cooldown_until
HasEnd error last_updated cooldown_until = 0 < cooldown_until

-- The cooldowns are not negative, and at most `limit` nanoseconds.
pub record HasCooldowns (limit : ℕ) (opts : Options) : Type 0 where
  pub rate : ℕ
  pub failure : ℕ
  pub rate_limit_cooldown : opts.rate_limit_cooldown ≡ pos rate
  pub error_cooldown : opts.error_cooldown ≡ pos failure
  pub rate_le : rate ≤ limit
  pub failure_le : failure ≤ limit

-- `last` is the time of the last call, `limit` the longest cooldown.
pub record IsValid (last limit : ℕ) (k : KeyState) : Type 0 where
  pub has_end : HasEnd k.status k.last_updated k.cooldown_until
  pub updated_le : k.last_updated ≤ last
  pub cooldown_le : k.cooldown_until ≤ last + limit

module _ {last limit : ℕ} (now : Time) (after_zero : 0 < now) (in_time : now ≤ last) where
  refresh-IsValid : (k : KeyState) → IsValid last limit k → IsValid last limit (refresh now k)
  unfolding refresh
  refresh-IsValid k v = ground arith

  exhaust-IsValid : (k : KeyState) → IsValid last limit k → IsValid last limit (exhaust now k)
  unfolding exhaust
  exhaust-IsValid k v = ground arith

  apply_snapshot-IsValid :
      (opts : Options) (snap : RateLimitSnapshot) (k : KeyState)
      → IsValid last limit k
      → IsValid last limit (apply_snapshot opts now snap k)
  unfolding apply_snapshot
  apply_snapshot-IsValid opts snap k v = ground arith

  module _ (opts : Options) (c : HasCooldowns limit opts) where
    limit_rate-IsValid :
        (k : KeyState) → IsValid last limit k → IsValid last limit (limit_rate opts now k)
    unfolding limit_rate add_duration
    limit_rate-IsValid k v = ground (arith, c.rate_limit_cooldown)

    count_error-IsValid :
        (reason : Bytes) (k : KeyState)
        → IsValid last limit k
        → IsValid last limit (count_error opts now reason k)
    unfolding count_error add_duration
    count_error-IsValid reason k v = ground (arith, c.error_cooldown)

    invalidate-IsValid :
        (reason : Bytes) (k : KeyState)
        → IsValid last limit k
        → IsValid last limit (invalidate opts now reason k)
    unfolding invalidate add_duration
    invalidate-IsValid reason k v = ground (arith, c.error_cooldown)

abbrev pub IsCall : ℕ → Time × Call → Type 0
IsCall last c = (0 < c.0) × (c.0 ≤ last)

abbrev pub AllValid : ℕ → ℕ → Pool → Type 0
AllValid last limit p = All (IsValid last limit) p.keys

-- Each method keeps the invariant.
pub step-AllValid :
    (last limit : ℕ) (p : Pool) (c : Time × Call)
    → HasCooldowns limit p.opts
    → IsCall last c
    → AllValid last limit p
    → AllValid last limit (step p c)
unfolding step
step-AllValid last limit p (now, acquires) cd (z, t) v =
    acquire_from-All _ now p.keys (refresh-IsValid now z t) v
step-AllValid last limit p (now, exhausts label) cd (z, t) v =
    at_label-All _ label _ p.keys (exhaust-IsValid now z t) v
step-AllValid last limit p (now, rate_limits label) cd (z, t) v =
    at_label-All _ label _ p.keys (limit_rate-IsValid now z t p.opts cd) v
step-AllValid last limit p (now, errors label reason) cd (z, t) v =
    at_label-All _ label _ p.keys (count_error-IsValid now z t p.opts cd reason) v
step-AllValid last limit p (now, invalidates label reason) cd (z, t) v =
    at_label-All _ label _ p.keys (invalidate-IsValid now z t p.opts cd reason) v
step-AllValid last limit p (now, updates label snap) cd (z, t) v =
    at_label-All _ label _ p.keys (apply_snapshot-IsValid now z t p.opts snap) v

run-AllValid :
    (last limit : ℕ) (p : Pool) (cs : List (Time × Call))
    → HasCooldowns limit p.opts
    → All (IsCall last) cs
    → AllValid last limit p
    → AllValid last limit (run p cs)
unfolding run
run-AllValid last limit p [] cd h v = v
run-AllValid last limit p (c ∷ cs) cd (t, h) v =
    run-AllValid last limit (step p c) cs (rw (opts-step p c) cd) h
      (step-AllValid last limit p c cd t v)

new_key-IsValid : (last limit : ℕ) (es : List KeyEntry) → All (IsValid last limit) (map new_key es)
unfolding new_key
new_key-IsValid last limit [] = tt
new_key-IsValid last limit (e ∷ es) = (
  record { has_end = tt; updated_le = omega arith; cooldown_le = omega arith },
  new_key-IsValid last limit es,
)

opts-new : (es : List KeyEntry) (opts : Options) → (new es opts).opts ≡ opts
unfolding new
opts-new es opts = refl

new-AllValid :
    (last limit : ℕ) (es : List KeyEntry) (opts : Options) → AllValid last limit (new es opts)
unfolding new
new-AllValid last limit es opts = new_key-IsValid last limit es

-- Whatever the calls on a new pool, with clock readings from 1 to `last` and cooldowns from 0 to
-- `limit`: each key that is exhausted has the time of its last update, each key that is rate
-- limited or failing has the end of its cooldown, and neither lies behind `last` or `last + limit`.
pub run-new-AllValid :
    (last limit : ℕ) (es : List KeyEntry) (opts : Options) (cs : List (Time × Call))
    → HasCooldowns limit opts
    → All (IsCall last) cs
    → AllValid last limit (run (new es opts) cs)
run-new-AllValid last limit es opts cs cd h =
    run-AllValid last limit (new es opts) cs (rw (opts-new es opts) cd) h
      (new-AllValid last limit es opts)
