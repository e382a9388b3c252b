-- ===== src/Keypool/MarkTests.antt =====
-- A pool of two keys: what the marks do.
use all2api.Prelude.{◌≡◌, ◌≢◌, ◌⊎◌, refl, inl, inr, some, [], ◌∷◌, arith, pos, increment-pos}
use all2api.Text.{bytes, text_eq}
use all2api.Clock.{same_utc_date, add_duration}
use all2api.Keypool.{rate_limited, error, Pool, Handle, new_key, acquire, snapshot, find}
use all2api.Keypool.Mark.{
  mark_rate_limited, mark_key_invalid, mark_error, update_from_upstream, earliest_recovery_seconds,
}
use all2api.Keypool.Step.{acquires, step, run}
use all2api.Keypool.Blocked.{HasDistinctLabels}
use all2api.Text.Equality.{text_eq-false}
use all2api.Keypool.Cooldown.{
  rate_limited-not_acquired, invalid-not_acquired, exhausted-not_acquired,
}
use all2api.Keypool.Errors.{chosen_label, acquire-mark_error}
use all2api.Keypool.Recovery.{AnyActive, NoneActive}
use all2api.Keypool.Earliest.{IsEarliestWait, earliest_recovery_seconds_lem}
use all2api.Keypool.Wait.{wait, earliest_recovery_seconds-acquire}
use all2api.Keypool.Masking.{snapshot-twins}
use all2api.Keypool.Samples.{opts, first, other, two_keys, at, spent, both_waiting}

abbrev of_other : Handle
of_other = record { state = new_key other }

distinct : HasDistinctLabels two_keys.keys
unfolding new_key text_eq
distinct = ((text_eq-false (bytes "other") (bytes "first") refl, tt), (tt, tt))

rate_limited-acquire :
    (acquire
      (at 20)
      (run (mark_rate_limited (at 2) (bytes "first") two_keys) ((at 10, acquires) ∷ []))).1
    ≡ some of_other
unfolding run step new_key text_eq add_duration
rate_limited-acquire = refl

rate_limited-not_acquired_example : bytes "other" ≢ bytes "first"
unfolding new_key add_duration
rate_limited-not_acquired_example =
    rate_limited-not_acquired two_keys distinct (bytes "first") (at 2) ((at 10, acquires) ∷ [])
      (at 20) of_other ((omega arith, tt), tt) (omega arith) rate_limited-acquire

invalid-acquire :
    (acquire (at 20) (
      run
        (mark_key_invalid (at 2) (bytes "first") (bytes "upstream returned 401") two_keys)
        ((at 10, acquires) ∷ []))).1
    ≡ some of_other
unfolding run step new_key text_eq add_duration
invalid-acquire = refl

invalid-not_acquired_example : bytes "other" ≢ bytes "first"
unfolding new_key add_duration
invalid-not_acquired_example =
    invalid-not_acquired two_keys distinct (bytes "first") (at 2) (bytes "upstream returned 401")
      ((at 10, acquires) ∷ []) (at 20) of_other ((omega arith, tt), tt) (omega arith)
      invalid-acquire

spent-acquire :
    (acquire (at 80000) (
      run
        (update_from_upstream (at 2) (bytes "first") spent two_keys).0
        ((at 10, acquires) ∷ []))).1
    ≡ some of_other
unfolding run step new_key text_eq add_duration same_utc_date
spent-acquire = refl

exhausted-not_acquired_example : bytes "other" ≢ bytes "first"
unfolding new_key
exhausted-not_acquired_example =
    exhausted-not_acquired two_keys distinct (bytes "first") (at 2) spent ((at 10, acquires) ∷ [])
      (at 80000) of_other refl (omega arith) ((refl, tt), tt) refl spent-acquire

find-first : find (bytes "first") two_keys.keys ≡ some (new_key first)
unfolding find new_key text_eq
find-first = refl

acquire-mark_error_example :
    chosen_label (acquire (at 9) (mark_error (at 8) (bytes "first") (bytes "timeout") two_keys)).1
    ≡ chosen_label (acquire (at 9) two_keys).1
unfolding new_key
acquire-mark_error_example =
    acquire-mark_error two_keys (at 9) (at 8) (bytes "first") (bytes "timeout") find-first
      (inr (rw (increment-pos 0 (omega arith)) (omega arith)))

earliest_recovery_seconds_lem_example :
    (AnyActive both_waiting.keys → earliest_recovery_seconds (at 10) both_waiting ≡ pos 0)
    × (NoneActive both_waiting.keys
        → ((both_waiting.keys ≡ []) × (earliest_recovery_seconds (at 10) both_waiting ≡ pos 300))
          ⊎ IsEarliestWait
              (at 10)
              (earliest_recovery_seconds (at 10) both_waiting)
              both_waiting.keys)
unfolding new_key
earliest_recovery_seconds_lem_example =
    earliest_recovery_seconds_lem (at 10) both_waiting (omega arith, (omega arith, tt))

-- The pool with other secrets.
abbrev two_other_keys : Pool
two_other_keys = record {
  keys =
      new_key (record { label = bytes "first"; key = bytes "hidden-0001" })
      ∷ new_key (record { label = bytes "other"; key = bytes "hidden-0002" })
      ∷ [];
  opts = opts;
}

snapshot-twins_example : snapshot two_keys ≡ snapshot two_other_keys
unfolding new_key
snapshot-twins_example = snapshot-twins two_keys two_other_keys (
  (
    refl,
    inr (
      bytes "secret-",
      bytes "hidden-",
      bytes "0001",
      refl,
      omega arith,
      omega arith,
      refl,
      refl,
    ),
  ),
  (
    (
      refl,
      inr (
        bytes "secret-",
        bytes "hidden-",
        bytes "0002",
        refl,
        omega arith,
        omega arith,
        refl,
        refl,
      ),
    ),
    tt,
  ),
)

abbrev cooling_pool : Pool
cooling_pool = record {
  keys =
      record (new_key first) { status = rate_limited; cooldown_until = at 62 }
      ∷ record (new_key other) { status = error; cooldown_until = at 40 }
      ∷ [];
  opts = opts;
}

earliest_recovery_seconds-acquire_example :
    (h : Handle) × ((acquire
        (wait (at 10) (earliest_recovery_seconds (at 10) cooling_pool))
        cooling_pool).1
      ≡ some h)
unfolding new_key
earliest_recovery_seconds-acquire_example =
    earliest_recovery_seconds-acquire (at 10) cooling_pool (λ e. cc)
      ((inl refl, omega arith, omega arith), ((inr refl, omega arith, omega arith), tt))
