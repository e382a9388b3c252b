-- ===== src/Keypool/Tests.antt =====
-- A pool of two keys: which key is next.
use all2api.Prelude.{◌*◌, ◌≡◌, ◌↔◌, refl, none, some, true, [], ◌∷◌, ◌++◌, arith, All}
use all2api.Text.{bytes, text_eq}
use all2api.Clock.{second, add_duration, same_utc_date}
use all2api.Keypool.{Handle, new, new_key, acquire}
use all2api.Keypool.Step.{acquires, step, run}
use all2api.Keypool.Acquire.{Chooses, acquire-Chooses, acquire-eq-none_iff}
use all2api.Keypool.Available.{IsAvailable}
use all2api.Keypool.Invariant.{AllValid, run-new-AllValid}
use all2api.Keypool.Liveness.{handle_identity, acquire-run-new}
use all2api.Keypool.Schedule.{nothing, handed, told, slots_replies}
use all2api.Keypool.Refines.{slots_of, reply, replies, replies-slots_replies}
use all2api.Keypool.Samples.{opts, first, other, two_keys, at, history, both_waiting}

history_lem : run two_keys history ≡ both_waiting
unfolding run step new_key text_eq add_duration
history_lem = refl

abbrev cooled : Handle
cooled = record { state = record (new_key first) { cooldown_until = at 62 } }

acquire-cooled : (acquire (at 63) both_waiting).1 ≡ some cooled
unfolding acquire new_key
acquire-cooled = refl

acquire-Chooses_example :
    Chooses (at 63) both_waiting.keys cooled (acquire (at 63) both_waiting).0.keys
acquire-Chooses_example = acquire-Chooses (at 63) both_waiting cooled acquire-cooled

acquire-eq-none_iff_example :
    ((acquire (at 10) both_waiting).1 ≡ none) ↔ All (λ k. ¬ IsAvailable (at 10) k) both_waiting.keys
acquire-eq-none_iff_example = acquire-eq-none_iff (at 10) both_waiting

run-new-AllValid_example :
    AllValid (at 4) (60 * second) (run (new (first ∷ other ∷ []) opts) history)
run-new-AllValid_example =
    run-new-AllValid (at 4) (60 * second) (first ∷ other ∷ []) opts history
      (record {
        rate = 60 * second;
        failure = 30 * second;
        rate_limit_cooldown = refl;
        error_cooldown = refl;
        rate_le = omega arith;
        failure_le = omega arith;
      })
      (omega arith)

acquire-run-new_example :
    (h : Handle) × ((acquire (at 86500) (run (new (first ∷ other ∷ []) opts) history)).1 ≡ some h)
    × (handle_identity h ≡ (bytes "first", bytes "secret-0001"))
acquire-run-new_example =
    acquire-run-new (at 4) (60 * second) first (other ∷ []) opts history (at 86500)
      (record {
        rate = 60 * second;
        failure = 30 * second;
        rate_limit_cooldown = refl;
        error_cooldown = refl;
        rate_le = omega arith;
        failure_le = omega arith;
      })
      (omega arith) (omega arith) (omega arith)

-- What the requests of `history` see, and the next one in the middle of the first key's cooldown.
replies_test :
    replies two_keys (history ++ (at 5, acquires) ∷ [])
    ≡ handed (some (bytes "first", bytes "secret-0001"))
      ∷ nothing
      ∷ handed (some (bytes "other", bytes "secret-0002"))
      ∷ told true
      ∷ handed none
      ∷ []
unfolding replies step reply new_key text_eq add_duration same_utc_date
replies_test = refl

replies-slots_replies_example :
    replies two_keys history ≡ slots_replies opts (slots_of two_keys) history
replies-slots_replies_example = replies-slots_replies two_keys history
