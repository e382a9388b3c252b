-- ===== src/Provider/Status.antt =====
-- ClassifyStatus
use all2api.Prelude.{ℕ, ◌≤◌, ◌<◌, ◌≡◌, ◌≢◌, ◌↔◌, ◌⊎◌, arith}
use all2api.Provider.{
  Outcome, success, rate_limited, key_invalid, server_error, client_error, classify_status,
}

-- What the class of a status says of it.
abbrev pub Describes : Outcome → ℕ → Type 0
Describes success s = (200 ≤ s) × (s < 300)
Describes rate_limited s = s ≡ 429
Describes key_invalid s = (s ≡ 401) ⊎ (s ≡ 403)
Describes server_error s = 500 ≤ s
Describes client_error s = ((s < 200) ⊎ (300 ≤ s)) × (s < 500) × (s ≢ 401) × (s ≢ 403) × (s ≢ 429)

-- A status is in a class exactly when the description of the class fits: the five classes cover
-- all status codes and do not overlap.
pub classify_status_iff : (s : ℕ) (o : Outcome) → (classify_status s ≡ o) ↔ Describes o s
unfolding classify_status
classify_status_iff s success = ground arith
classify_status_iff s rate_limited = ground arith
classify_status_iff s key_invalid = ground arith
classify_status_iff s server_error = ground arith
classify_status_iff s client_error = ground arith
