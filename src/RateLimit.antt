-- ===== src/RateLimit.antt =====
-- internal/keypool/ratelimit.go: the quota that an upstream response reports.
use all2api.Prelude.{Bool, false, ◌&&◌, ◌||◌, ℤ, pos, Option, none, [], ◌∷◌, get_or, is_some}
use all2api.Text.{Bytes, bytes, atoi}
use all2api.Header
use all2api.Header.{Header}

pub record RateLimitSnapshot : Type 0 where
  pub daily_limit : ℤ
  pub daily_remaining : ℤ
  pub minute_limit : ℤ
  pub minute_remaining : ℤ
  pub has_daily : Bool
  pub has_minute : Bool

-- The value of a result that is not set.
abbrev pub empty_snapshot : RateLimitSnapshot
empty_snapshot = record {
  daily_limit = pos 0;
  daily_remaining = pos 0;
  minute_limit = pos 0;
  minute_remaining = pos 0;
  has_daily = false;
  has_minute = false;
}

-- atoiHeader: a header that is missing is the empty text, which is no number; `none` is (0, false).
unfoldable pub atoi_header : Header → Bytes → Option ℤ
unfolding atoi Header.get
atoi_header h name = elim (Header.get h name) [ [] ↦ none | b ∷ v ↦ atoi (b ∷ v) ]

-- ParseRateLimit
unfoldable pub parse_rate_limit : Header → RateLimitSnapshot × Bool
unfolding atoi_header
parse_rate_limit h =
    let dl = atoi_header h (bytes "x-ratelimit-requests-limit") in
    let dr = atoi_header h (bytes "x-ratelimit-requests-remaining") in
    let ml = atoi_header h (bytes "X-RateLimit-Limit") in
    let mr = atoi_header h (bytes "X-RateLimit-Remaining") in
    (
      record {
        daily_limit = get_or dl (pos 0);
        daily_remaining = get_or dr (pos 0);
        minute_limit = get_or ml (pos 0);
        minute_remaining = get_or mr (pos 0);
        has_daily = is_some dl && is_some dr;
        has_minute = is_some ml && is_some mr;
      },
      is_some dl || is_some dr || is_some ml || is_some mr,
    )
