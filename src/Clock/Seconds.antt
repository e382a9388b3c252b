-- ===== src/Clock/Seconds.antt =====
-- int(d.Seconds()) for the time up to an instant: what the rounding of a float64 may add.
use all2api.Prelude.{
  ℕ, zero, suc, ◌+◌, ◌-◌, ◌*◌, ◌%◌, ◌/◌, ◌^◌, ◌≤◌, ◌<◌, ◌≡◌, true, ap, negsuc, pos, pos_part, leb,
  arith, Bool-cases, inl, inr, ◌∙◌,
}
use all2api.Clock.{Time, second, sub_time, whole_seconds, rounds_up, power_up_to}

power_up_to_le : (fuel p s : ℕ) → p ≤ s → power_up_to fuel p s ≤ s
unfolding power_up_to
power_up_to_le zero p s h = h
power_up_to_le (suc fuel) p s h = elim (Bool-cases (leb (2 * p) s)) [
  | inl more ↦ rw more (power_up_to_le fuel (2 * p) s (ground arith))
  | inr last ↦ rw last h
]

-- The rounding adds less than two microseconds.
rounds_up_le : (s n : ℕ) → s < 2 ^ 34 → rounds_up s n ≡ true → second ≤ n + 2000
unfolding rounds_up
rounds_up_le s n few h =
    let p = power_up_to 34 1 s in
    let p_le : p ≤ s = power_up_to_le 34 1 s (ground (arith, h)) in
    let near : (second - n) * 2 ^ 53 ≤ p * second = ground (arith, h) in omega (arith, p_le, near)

whole_seconds-pos :
    (d : ℕ)
    → d < 2 ^ 63
    → (s : ℕ) × (whole_seconds (pos d) ≡ pos s) × (s * second ≤ d + 2000) × (d < (s + 1) * second)
unfolding whole_seconds
whole_seconds-pos d h = elim (Bool-cases (rounds_up (d / second) (d % second))) [
  | inl up ↦
      let near = rounds_up_le (d / second) (d % second) (omega arith) up in
      (suc (d / second), rw up, omega (arith, near), omega arith)
  | inr down ↦ (d / second, rw down, omega arith, omega arith)
]

sub_time-until :
    (now until : Time) → now ≤ until → until < now + 2 ^ 63 → sub_time until now ≡ pos (until - now)
unfolding sub_time
sub_time-until now until h near = ground arith

sub_time-over : (now until : Time) → until < now → (d : ℕ) × (sub_time until now ≡ negsuc d)
unfolding sub_time
sub_time-over now until h = elim (Bool-cases (leb (now - until) (2 ^ 63))) [
  | inl near ↦ (now - until - 1, ground arith)
  | inr far ↦ (2 ^ 63 - 1, ground arith)
]

-- The whole seconds up to an instant less than 292 years away: one more reaches beyond it, and they end
-- at most two microseconds behind it.
pub whole_seconds-until :
    (now until : Time)
    → now ≤ until
    → until < now + 2 ^ 63
    → (s : ℕ) × (whole_seconds (sub_time until now) ≡ pos s)
      × (now + s * second ≤ until + 2000)
      × (until < now + (s + 1) * second)
whole_seconds-until now until h near =
    let (s, e, low, high) = whole_seconds-pos (until - now) (omega arith) in
    (s, ap whole_seconds (sub_time-until now until h near) ∙ e, omega arith, omega arith)

whole_seconds-negsuc : (d : ℕ) → pos_part (whole_seconds (negsuc d)) ≡ 0
unfolding whole_seconds
whole_seconds-negsuc d = ground arith

-- An instant that is over.
pub whole_seconds-over :
    (now until : Time) → until < now → pos_part (whole_seconds (sub_time until now)) ≡ 0
whole_seconds-over now until h =
    let (d, e) = sub_time-over now until h in
    ap (λ t. pos_part (whole_seconds t)) e ∙ whole_seconds-negsuc d
