-- ===== src/Clock/Calendar.antt =====
-- sameUTCDate: two instants have one date just where they lie on one day.
use all2api.Prelude.{ℕ, ◌+◌, ◌*◌, ◌/◌, ◌≡◌, ◌↔◌, true, arith, ap, refl, sym, ◌∙◌, ◌≤◌, ◌==◌, ◌&&◌}
use all2api.Clock.{
  Time, day_number, year, year_day, same_utc_date, century, leap_cycle, year_of_cycle,
}

-- A day number is read back from the digits that the year is made of.
day_of_digits :
    (d : ℕ)
    → d + 1
      ≡ 146097 * (d / 146097)
        + 36524 * century d
        + 1461 * leap_cycle d
        + 365 * year_of_cycle d
        + year_day d
unfolding year_day
day_of_digits d = omega arith

-- Each digit of the year has its place.
digits_unique :
    (a c q y a' c' q' y' : ℕ)
    → 400 * a + 100 * c + 4 * q + y + 1 ≡ 400 * a' + 100 * c' + 4 * q' + y' + 1
    → (c ≤ 3) × (q ≤ 24) × (y ≤ 3)
    → (c' ≤ 3) × (q' ≤ 24) × (y' ≤ 3)
    → (a ≡ a') × (c ≡ c') × (q ≡ q') × (y ≡ y')
digits_unique a c q y a' c' q' y' e h k = (omega arith, omega arith, omega arith, omega arith)

digits_bounds : (d : ℕ) → (century d ≤ 3) × (leap_cycle d ≤ 24) × (year_of_cycle d ≤ 3)
digits_bounds d = (omega arith, omega arith, omega arith)

year_digits :
    (d : ℕ) → year d ≡ 400 * (d / 146097) + 100 * century d + 4 * leap_cycle d + year_of_cycle d + 1
unfolding year
year_digits d = refl

recombine :
    (d e a c q y n a' c' q' y' n' : ℕ)
    → d + 1 ≡ 146097 * a + 36524 * c + 1461 * q + 365 * y + n
    → e + 1 ≡ 146097 * a' + 36524 * c' + 1461 * q' + 365 * y' + n'
    → (a ≡ a') × (c ≡ c') × (q ≡ q') × (y ≡ y')
    → n ≡ n'
    → d ≡ e
recombine d e a c q y n a' c' q' y' n' p p' same same_n = omega arith

year_day-injective : (d e : ℕ) → year d ≡ year e → year_day d ≡ year_day e → d ≡ e
year_day-injective d e same_year same_day =
    recombine d e _ _ _ _ _ _ _ _ _ _ (day_of_digits d) (day_of_digits e)
      (digits_unique _ _ _ _ _ _ _ _ (sym (year_digits d) ∙ same_year ∙ year_digits e)
        (digits_bounds d) (digits_bounds e))
      same_day

both_eq_iff : (w x y z : ℕ) → ((w == x && y == z) ≡ true) ↔ ((w ≡ x) × (y ≡ z))
both_eq_iff w x y z = ground arith

same_utc_date-days :
    (a b : Time)
    → same_utc_date a b ≡ (
        year (day_number a) == year (day_number b)
        && year_day (day_number a) == year_day (day_number b))
unfolding same_utc_date
same_utc_date-days a b = refl

-- Two instants have the same year and the same day of the year exactly when they lie on one day.
pub same_utc_date_iff : (a b : Time) → (same_utc_date a b ≡ true) ↔ (day_number a ≡ day_number b)
same_utc_date_iff a b = (
  λ h.
      let (same_year, same_day) = (both_eq_iff _ _ _ _).0 (sym (same_utc_date-days a b) ∙ h) in
      year_day-injective (day_number a) (day_number b) same_year same_day,
  λ e. same_utc_date-days a b ∙ (both_eq_iff _ _ _ _).1 (ap year e, ap year_day e),
)
