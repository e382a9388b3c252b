-- ===== src/Keypool/Samples.antt =====
-- A pool of two keys, and some seconds of its life.
use all2api.Prelude.{ℕ, ◌+◌, ◌*◌, List, [], ◌∷◌, true, false, pos}
use all2api.Text.{bytes}
use all2api.Clock.{Time, second, nanos_per_day}
use all2api.RateLimit.{RateLimitSnapshot}
use all2api.Keypool.{exhausted, rate_limited, KeyEntry, Options, Pool, new_key}
use all2api.Keypool.Step.{Call, acquires, rate_limits, updates}

abbrev pub opts : Options
opts = record {
  switch_threshold = pos 5;
  rate_limit_cooldown = pos (60 * second);
  error_cooldown = pos (30 * second);
  max_error_count = pos 3;
}

abbrev pub first : KeyEntry
first = record { label = bytes "first"; key = bytes "secret-0001" }

abbrev pub other : KeyEntry
other = record { label = bytes "other"; key = bytes "secret-0002" }

abbrev pub two_keys : Pool
two_keys = record { keys = new_key first ∷ new_key other ∷ []; opts = opts }

-- The clock's readings, in seconds of a day.
abbrev pub at : ℕ → Time
at s = 738000 * nanos_per_day + s * second

abbrev pub spent : RateLimitSnapshot
spent = record {
  daily_limit = pos 100;
  daily_remaining = pos 5;
  minute_limit = pos 0;
  minute_remaining = pos 0;
  has_daily = true;
  has_minute = false;
}

abbrev pub history : List (Time × Call)
history =
    (at 1, acquires)
    ∷ (at 2, rate_limits (bytes "first"))
    ∷ (at 3, acquires)
    ∷ (at 4, updates (bytes "other") spent)
    ∷ []

abbrev pub both_waiting : Pool
both_waiting = record {
  keys =
      record (new_key first) { status = rate_limited; cooldown_until = at 62 }
      ∷ record (new_key other) {
        status = exhausted;
        last_updated = at 4;
        daily_limit = pos 100;
        daily_remaining = pos 5;
      }
      ∷ [];
  opts = opts;
}
