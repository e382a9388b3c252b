-- ===== src/Keypool/Available.antt =====
-- When a key may serve a request, said without reference to the code: a key that is active, one
-- whose cooldown is over, and one whose quota was spent on an earlier day.
use all2api.Prelude.{◌<◌, ◌≡◌, ◌≢◌, true, false, arith, Bool-cases, inl, inr}
use all2api.Clock.{Time, day_number, same_utc_date}
use all2api.Clock.Calendar.{same_utc_date_iff}
use all2api.Keypool.{
  KeyStatus, active, exhausted, rate_limited, error, KeyState, is_active, refresh,
}

abbrev pub MayServe : KeyStatus → Time → Time → Time → Type 0
MayServe active now last_updated cooldown_until = Unit
MayServe exhausted now last_updated cooldown_until =
    (0 < last_updated) × (day_number last_updated ≢ day_number now)
MayServe rate_limited now last_updated cooldown_until =
    (0 < cooldown_until) × (cooldown_until < now)
MayServe error now last_updated cooldown_until = (0 < cooldown_until) × (cooldown_until < now)

abbrev pub IsAvailable : Time → KeyState → Type 0
IsAvailable now k = MayServe k.status now k.last_updated k.cooldown_until

same_utc_date-false : (a b : Time) → day_number a ≢ day_number b → same_utc_date a b ≡ false
same_utc_date-false a b h = elim (Bool-cases (same_utc_date a b)) [
  | inl same ↦ absurd (h ((same_utc_date_iff a b).0 same))
  | inr other ↦ other
]

-- A refreshed key is active just where the key was available, and only then does it change.
module _ (now : Time) (k : KeyState) where
  pub refresh_available : IsAvailable now k → is_active (refresh now k).status ≡ true
  unfolding refresh
  refresh_available h = ground (arith, same_utc_date-false k.last_updated now)

  pub IsAvailable-of_refresh : is_active (refresh now k).status ≡ true → IsAvailable now k
  unfolding refresh
  IsAvailable-of_refresh h = ground (arith, same_utc_date_iff k.last_updated now)

  pub refresh_waiting : is_active (refresh now k).status ≡ false → refresh now k ≡ k
  unfolding refresh
  refresh_waiting h = ground arith

  pub refresh_status : is_active (refresh now k).status ≡ true → (refresh now k).status ≡ active
  unfolding refresh
  refresh_status h = ground arith
