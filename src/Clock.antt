-- ===== src/Clock.antt =====
-- time.Time and time.Duration, as internal/keypool/keypool.go uses them. An instant counts the
-- nanoseconds since January 1 of the year 1, 00:00 UTC, which is Go's zero time; a duration is a
-- signed number of nanoseconds. The clock of the program never reads a time before the zero time,
-- nor one within 292 years of it, so adding an int64 duration to a reading does not fall below it.
pub mod Calendar
pub mod Seconds
use all2api.Prelude.{
  ℕ, zero, suc, ◌+◌, ◌-◌, ◌*◌, ◌/◌, ◌%◌, ◌^◌, Bool, ◌&&◌, ltb, leb, ◌==◌, if◌then◌else◌, ℤ, pos,
  negsuc, sub_ℕ, leb_ℤ, max_int, min_int,
}
use Prim.Native.Nat.{min}

abbrev pub Time : Type 0
Time = ℕ

abbrev pub Duration : Type 0
Duration = ℤ

abbrev pub zero_time : Time
zero_time = 0

abbrev pub second : ℕ
second = 1000000000

abbrev pub nanos_per_day : ℕ
nanos_per_day = 86400 * 1000000000

-- t.IsZero()
abbrev pub is_zero : Time → Bool
is_zero t = t == 0

-- a.After(b)
abbrev pub after : Time → Time → Bool
after a b = ltb b a

-- t.Add(d)
unfoldable pub add_duration : Time → Duration → Time
add_duration t (pos d) = t + d
add_duration t (negsuc d) = t - suc d

-- a.Sub(b), which saturates at the bounds of an int64.
unfoldable pub sub_time : Time → Time → Duration
sub_time a b =
    let d = sub_ℕ a b in
    if leb_ℤ d max_int then (if leb_ℤ min_int d then d else min_int) else max_int

-- The greatest power of 2 up to `s`, from `p` on: 34 doublings are enough for the seconds of an int64.
unfoldable power_up_to : ℕ → ℕ → ℕ → ℕ
power_up_to zero p s = p
power_up_to (suc fuel) p s =
    let next = power_up_to fuel (2 * p) s in if leb (2 * p) s then next else p

-- The float64 with the value s + n / 1e9 is s + 1: of the 53 bits of a float64 those behind the point
-- are too few for the distance to s + 1. It is never just half a unit, where Go would round to even.
unfoldable rounds_up : ℕ → ℕ → Bool
unfolding power_up_to
rounds_up s n = leb ((second - n) * 2 ^ 53) (power_up_to 34 1 s * second) && leb 1 s

-- int(d.Seconds()): the conversion to an int drops the fraction.
unfoldable pub whole_seconds : Duration → ℤ
unfolding rounds_up
whole_seconds (pos d) =
    let s = d / second in if rounds_up s (d % second) then pos (suc s) else pos s
whole_seconds (negsuc d) =
    let s = suc d / second in if rounds_up s (suc d % second) then negsuc s else sub_ℕ 0 s

-- The days since January 1 of the year 1.
abbrev pub day_number : Time → ℕ
day_number t = t / nanos_per_day

abbrev day_of_400_years : ℕ → ℕ
day_of_400_years d = d % 146097

abbrev century : ℕ → ℕ
century d = min (day_of_400_years d / 36524) 3

abbrev day_of_century : ℕ → ℕ
day_of_century d = day_of_400_years d - 36524 * century d

abbrev leap_cycle : ℕ → ℕ
leap_cycle d = day_of_century d / 1461

abbrev day_of_cycle : ℕ → ℕ
day_of_cycle d = day_of_century d % 1461

abbrev year_of_cycle : ℕ → ℕ
year_of_cycle d = min (day_of_cycle d / 365) 3

-- t.Year() and t.YearDay() of a day number, in the Gregorian calendar.
unfoldable pub year : ℕ → ℕ
year d = 400 * (d / 146097) + 100 * century d + 4 * leap_cycle d + year_of_cycle d + 1

unfoldable pub year_day : ℕ → ℕ
year_day d = day_of_cycle d - 365 * year_of_cycle d + 1

unfoldable pub same_utc_date : Time → Time → Bool
unfolding year year_day
same_utc_date a b =
    year (day_number a) == year (day_number b) && year_day (day_number a) == year_day (day_number b)
