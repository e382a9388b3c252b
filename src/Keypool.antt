-- ===== src/Keypool.antt =====
-- internal/keypool/keypool.go: the upstream keys of a pool, their states and which key is next.
-- A method takes the reading of the pool's clock as an argument and returns the new pool; the
-- mutex makes each method one step (Keypool/Step.antt has the steps of concurrent requests).
pub mod Mark
pub mod Step
pub mod Fields
pub mod Identity
pub mod Invariant
pub mod Liveness
pub mod Available
pub mod Acquire
pub mod Blocked
pub mod Cooldown
pub mod Errors
pub mod Recovery
pub mod Earliest
pub mod Wait
pub mod Schedule
pub mod Refines
pub mod Masking
pub mod Distinct
pub mod Traps
pub mod Ready
pub mod Samples
mod Tests
mod MarkTests
use all2api.Prelude.{
  ◌-◌, Bool, true, false, not, ◌&&◌, Option, none, some, List, [], ◌∷◌, ◌++◌, map, leb,
  if◌then◌else◌, length, drop, ℤ, pos,
}
use all2api.Text.{Bytes, bytes, text_eq}
use all2api.Clock.{Time, Duration, zero_time, is_zero, after, same_utc_date}

pub data KeyStatus : Type 0 where
  active exhausted rate_limited error : KeyStatus

-- KeyStatus.String
unfoldable pub status_text : KeyStatus → Bytes
status_text active = bytes "active"
status_text exhausted = bytes "exhausted"
status_text rate_limited = bytes "rate_limited"
status_text error = bytes "error"

pub record KeyEntry : Type 0 where
  pub label : Bytes
  pub key : Bytes

pub record Options : Type 0 where
  pub switch_threshold : ℤ
  pub rate_limit_cooldown : Duration
  pub error_cooldown : Duration
  pub max_error_count : ℤ

pub record KeyState : Type 0 where
  pub label : Bytes
  pub key : Bytes
  pub daily_limit : ℤ
  pub daily_remaining : ℤ
  pub minute_limit : ℤ
  pub minute_remaining : ℤ
  pub last_updated : Time
  pub status : KeyStatus
  pub cooldown_until : Time
  pub error_count : ℤ
  pub last_error : Bytes

pub record KeyStateView : Type 0 where
  pub label : Bytes
  pub masked_key : Bytes
  pub status : Bytes
  pub daily_limit : ℤ
  pub daily_remaining : ℤ
  pub minute_limit : ℤ
  pub minute_remaining : ℤ
  pub last_updated : Time
  pub cooldown_until : Time
  pub last_error : Bytes

pub record Pool : Type 0 where
  pub keys : List KeyState
  pub opts : Options

unfoldable pub new_key : KeyEntry → KeyState
new_key e = record {
  label = e.label;
  key = e.key;
  daily_limit = pos 0;
  daily_remaining = pos 0;
  minute_limit = pos 0;
  minute_remaining = pos 0;
  last_updated = zero_time;
  status = active;
  cooldown_until = zero_time;
  error_count = pos 0;
  last_error = [];
}

-- New
unfoldable pub new : List KeyEntry → Options → Pool
unfolding new_key
new entries opts = record { keys = map new_key entries; opts = opts }

-- maskKey: four stars and the last four bytes, or the stars alone for a key of at most four bytes.
unfoldable pub mask_key : Bytes → Bytes
mask_key k = if leb (length k) 4 then bytes "****" else bytes "****" ++ drop (length k - 4) k

unfoldable pub view : KeyState → KeyStateView
unfolding mask_key status_text
view k = record {
  label = k.label;
  masked_key = mask_key k.key;
  status = status_text k.status;
  daily_limit = k.daily_limit;
  daily_remaining = k.daily_remaining;
  minute_limit = k.minute_limit;
  minute_remaining = k.minute_remaining;
  last_updated = k.last_updated;
  cooldown_until = k.cooldown_until;
  last_error = k.last_error;
}

-- Snapshot
unfoldable pub snapshot : Pool → List KeyStateView
unfolding view
snapshot p = map view p.keys

abbrev pub is_active : KeyStatus → Bool
is_active active = true
is_active _ = false

cool : Time → KeyState → KeyState
cool now k =
    if not (is_zero k.cooldown_until) && after now k.cooldown_until
    then record k { status = active; error_count = pos 0 }
    else k

next_day : Time → KeyState → KeyState
next_day now k =
    if not (is_zero k.last_updated) && not (same_utc_date k.last_updated now)
    then record k { status = active }
    else k

-- refreshLocked
unfoldable pub refresh : Time → KeyState → KeyState
unfolding cool next_day
refresh now k = elim k.status [
  | active ↦ k
  | exhausted ↦ next_day now k
  | rate_limited ↦ cool now k
  | error ↦ cool now k
]

-- What a handle points to, as it was when the key was acquired. No method changes the label or the
-- key, which are all that is read through a handle.
pub record Handle : Type 0 where
  pub state : KeyState

-- The loop of Acquire: the keys up to the chosen one are refreshed.
unfoldable pub acquire_from : Time → List KeyState → List KeyState × Option Handle
unfolding refresh
acquire_from now [] = ([], none)
acquire_from now (k ∷ ks) =
    let k' = refresh now k in
    let (ks', found) = acquire_from now ks in
    if is_active k'.status then (k' ∷ ks, some (record { state = k' })) else (k' ∷ ks', found)

-- Acquire; `none` is ErrNoKeyAvailable.
unfoldable pub acquire : Time → Pool → Pool × Option Handle
unfolding acquire_from
acquire now p = let (ks, found) = acquire_from now p.keys in (record p { keys = ks }, found)

-- findLocked
unfoldable pub find : Bytes → List KeyState → Option KeyState
find label [] = none
find label (k ∷ ks) = if text_eq k.label label then some k else find label ks

-- A write through the pointer that findLocked returns; with no such key nothing is written.
unfoldable pub at_label : Bytes → (KeyState → KeyState) → List KeyState → List KeyState
at_label label f [] = []
at_label label f (k ∷ ks) = if text_eq k.label label then f k ∷ ks else k ∷ at_label label f ks
