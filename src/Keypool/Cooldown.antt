-- ===== src/Keypool/Cooldown.antt =====
-- MarkRateLimited, MarkKeyInvalid and UpdateFromUpstream take a key out of use until a time.
use all2api.Prelude.{◌≤◌, ◌≡◌, ◌≢◌, true, some, List, arith, All, ◌≤ℤ◌}
use all2api.Text.{Bytes}
use all2api.Clock.{Time, add_duration, day_number}
use all2api.RateLimit.{RateLimitSnapshot}
use all2api.Keypool.{Options, KeyState, Pool, Handle, acquire}
use all2api.Keypool.Mark.{
  limit_rate, invalidate, apply_snapshot, mark_rate_limited, mark_key_invalid, update_from_upstream,
}
use all2api.Keypool.Available.{IsAvailable}
use all2api.Keypool.Blocked.{Spares, HasDistinctLabels, stays_blocked}
use all2api.Keypool.Step.{Call, run}

-- The calls lie at times of the window and report on other keys.
abbrev pub OthersWithin : (Time → Type 0) → Bytes → List (Time × Call) → Type 0
OthersWithin W label = All (λ c. W c.0 × Spares label c.1)

abbrev pub Until : Time → Time → Type 0
Until end t = t ≤ end

abbrev pub SameDay : Time → Time → Type 0
SameDay now t = day_number t ≡ day_number now

spends-waits :
    (opts : Options) (marked : Time) (snap : RateLimitSnapshot) (k : KeyState)
    → snap.has_daily ≡ true
    → snap.daily_remaining ≤ℤ opts.switch_threshold
    → (t : Time) → SameDay marked t
    → ¬ IsAvailable t (apply_snapshot opts marked snap k)
unfolding apply_snapshot
spends-waits opts marked snap k daily low t same a = ground arith

module _ (p : Pool) (d : HasDistinctLabels p.keys) (label : Bytes) (marked : Time) where
  -- After MarkRateLimited no handle is for that label until the cooldown is over, if the labels are
  -- distinct and the calls in between report on other keys.
  pub rate_limited-not_acquired :
      (cs : List (Time × Call)) (now : Time) (h : Handle)
      → OthersWithin (Until (add_duration marked p.opts.rate_limit_cooldown)) label cs
      → now ≤ add_duration marked p.opts.rate_limit_cooldown
      → (acquire now (run (mark_rate_limited marked label p) cs)).1 ≡ some h
      → h.state.label ≢ label
  unfolding mark_rate_limited
  rate_limited-not_acquired cs now h s t e =
      stays_blocked (Until (add_duration marked p.opts.rate_limit_cooldown)) label
        (limit_rate p.opts marked) p cs now h d (λ k _ u w a. omega arith) s t e

  -- After MarkKeyInvalid no handle is for that label until the cooldown is over, if the labels are
  -- distinct and the calls in between report on other keys.
  pub invalid-not_acquired :
      (reason : Bytes) (cs : List (Time × Call)) (now : Time) (h : Handle)
      → OthersWithin (Until (add_duration marked p.opts.error_cooldown)) label cs
      → now ≤ add_duration marked p.opts.error_cooldown
      → (acquire now (run (mark_key_invalid marked label reason p) cs)).1 ≡ some h
      → h.state.label ≢ label
  unfolding mark_key_invalid
  invalid-not_acquired reason cs now h s t e =
      stays_blocked (Until (add_duration marked p.opts.error_cooldown)) label
        (invalidate p.opts marked reason) p cs now h d (λ k _ u w a. omega arith) s t e

  -- After a response that reports a daily quota with no more requests left than the threshold, no
  -- handle is for that label on the same UTC day, if the labels are distinct and the calls in between
  -- report on other keys that day.
  pub exhausted-not_acquired :
      (snap : RateLimitSnapshot) (cs : List (Time × Call)) (now : Time) (h : Handle)
      → snap.has_daily ≡ true
      → snap.daily_remaining ≤ℤ p.opts.switch_threshold
      → OthersWithin (SameDay marked) label cs
      → SameDay marked now
      → (acquire now (run (update_from_upstream marked label snap p).0 cs)).1 ≡ some h
      → h.state.label ≢ label
  unfolding update_from_upstream
  exhausted-not_acquired snap cs now h daily low s t e =
      stays_blocked (SameDay marked) label (apply_snapshot p.opts marked snap) p cs now h d
        (λ k _ u w a. spends-waits p.opts marked snap k daily low u w a) s t e
