-- ===== src/Keypool/Mark.antt =====
-- internal/keypool/keypool.go: the methods that record how a key fared, and the recovery time.
use all2api.Prelude.{
  Bool, ◌&&◌, ◌||◌, List, [], ◌∷◌, if◌then◌else◌, ℤ, pos, negsuc, leb_ℤ, ltb_ℤ, eq_ℤ, increment,
  is_some,
}
use all2api.Text.{Bytes}
use all2api.Clock.{Time, is_zero, add_duration, sub_time, whole_seconds}
use all2api.RateLimit.{RateLimitSnapshot}
use all2api.Keypool.{
  Options, active, exhausted, rate_limited, error, KeyState, Pool, is_active, find, at_label,
}

unfoldable pub exhaust : Time → KeyState → KeyState
exhaust now k = record k {
  status = exhausted;
  last_updated = if is_zero k.last_updated then now else k.last_updated;
}

-- MarkExhausted
unfoldable pub mark_exhausted : Time → Bytes → Pool → Pool
unfolding at_label exhaust
mark_exhausted now label p = record p { keys = at_label label (exhaust now) p.keys }

unfoldable pub limit_rate : Options → Time → KeyState → KeyState
limit_rate opts now k = record k {
  status = rate_limited;
  cooldown_until = add_duration now opts.rate_limit_cooldown;
}

-- MarkRateLimited
unfoldable pub mark_rate_limited : Time → Bytes → Pool → Pool
unfolding at_label limit_rate
mark_rate_limited now label p = record p { keys = at_label label (limit_rate p.opts now) p.keys }

unfoldable pub count_error : Options → Time → Bytes → KeyState → KeyState
count_error opts now reason k =
    let counted = record k { error_count = increment k.error_count; last_error = reason } in
    if ltb_ℤ (pos 0) opts.max_error_count && leb_ℤ opts.max_error_count counted.error_count
    then record counted { status = error; cooldown_until = add_duration now opts.error_cooldown }
    else counted

-- MarkError
unfoldable pub mark_error : Time → Bytes → Bytes → Pool → Pool
unfolding at_label count_error
mark_error now label reason p = record p {
  keys = at_label label (count_error p.opts now reason) p.keys;
}

unfoldable pub invalidate : Options → Time → Bytes → KeyState → KeyState
invalidate opts now reason k = record k {
  status = error;
  last_error = reason;
  cooldown_until = add_duration now opts.error_cooldown;
}

-- MarkKeyInvalid
unfoldable pub mark_key_invalid : Time → Bytes → Bytes → Pool → Pool
unfolding at_label invalidate
mark_key_invalid now label reason p = record p {
  keys = at_label label (invalidate p.opts now reason) p.keys;
}

-- The quota of the response is at the threshold or below it.
abbrev pub spends : Options → RateLimitSnapshot → Bool
spends opts snap = snap.has_daily && leb_ℤ snap.daily_remaining opts.switch_threshold

unfoldable pub apply_snapshot : Options → Time → RateLimitSnapshot → KeyState → KeyState
apply_snapshot opts now snap k = record k {
  daily_limit = if snap.has_daily then snap.daily_limit else k.daily_limit;
  daily_remaining = if snap.has_daily then snap.daily_remaining else k.daily_remaining;
  minute_limit = if snap.has_minute then snap.minute_limit else k.minute_limit;
  minute_remaining = if snap.has_minute then snap.minute_remaining else k.minute_remaining;
  last_updated = now;
  error_count = pos 0;
  status = if spends opts snap then exhausted else active;
}

-- UpdateFromUpstream; the result says whether the key is now exhausted.
unfoldable pub update_from_upstream : Time → Bytes → RateLimitSnapshot → Pool → Pool × Bool
unfolding find at_label apply_snapshot
update_from_upstream now label snap p = (
  record p { keys = at_label label (apply_snapshot p.opts now snap) p.keys },
  is_some (find label p.keys) && spends p.opts snap,
)

abbrev default_retry_after_seconds : ℤ
default_retry_after_seconds = pos 300

-- The seconds until a key that is not active may be used again.
unfoldable pub key_recovery : Time → KeyState → ℤ
key_recovery now k = elim k.status [
  | active ↦ pos 0
  | exhausted ↦ default_retry_after_seconds
  | rate_limited ↦ cooldown_seconds
  | error ↦ cooldown_seconds
]
  where
    cooldown_seconds : ℤ
    cooldown_seconds =
        if is_zero k.cooldown_until
        then default_retry_after_seconds
        else let d = whole_seconds (sub_time k.cooldown_until now) in
          if ltb_ℤ d (pos 1) then pos 1 else d

-- The loop over the keys with `best` so far, -1 before the first key, and the statement behind it.
unfoldable pub recovery_from : Time → ℤ → List KeyState → ℤ
unfolding key_recovery
recovery_from now best [] = if ltb_ℤ best (pos 1) then default_retry_after_seconds else best
recovery_from now best (k ∷ ks) =
    let secs = key_recovery now k in
    let rest =
      recovery_from now (if eq_ℤ best (negsuc 0) || ltb_ℤ secs best then secs else best) ks in
    if is_active k.status then pos 0 else rest

-- EarliestRecoverySeconds
unfoldable pub earliest_recovery_seconds : Time → Pool → ℤ
unfolding recovery_from
earliest_recovery_seconds now p = recovery_from now (negsuc 0) p.keys
