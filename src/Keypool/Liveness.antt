-- ===== src/Keypool/Liveness.antt =====
-- A pool never locks itself out: a day and a cooldown later its first key serves again.
use all2api.Prelude.{ℕ, ◌+◌, ◌<◌, ◌≤◌, refl, ◌≡◌, ◌∙◌, some, List, [], ◌∷◌, arith, All, map}
use all2api.Text.{Bytes}
use all2api.Clock.{Time, day_number}
use all2api.Keypool.{
  KeyStatus, active, exhausted, rate_limited, error, KeyEntry, Options, KeyState, Handle, new,
  acquire, new_key, acquire_from, refresh,
}
use all2api.Keypool.Identity.{identity, identity-run, label_and_key, label_and_key-refresh}
use all2api.Keypool.Available.{IsAvailable, MayServe, refresh_available}
use all2api.Keypool.Acquire.{acquire_from_found}
use all2api.Keypool.Step.{Call, run}
use all2api.Keypool.Invariant.{HasCooldowns, HasEnd, IsValid, IsCall, run-new-AllValid}

MayServe-of_HasEnd :
    (s : KeyStatus) (now last limit updated cooldown : ℕ)
    → HasEnd s updated cooldown
    → updated ≤ last
    → cooldown ≤ last + limit
    → last + limit < now
    → day_number last < day_number now
    → MayServe s now updated cooldown
MayServe-of_HasEnd active now last limit updated cooldown e u c t d = tt
MayServe-of_HasEnd exhausted now last limit updated cooldown e u c t d = (e, omega arith)
MayServe-of_HasEnd rate_limited now last limit updated cooldown e u c t d = omega arith
MayServe-of_HasEnd error now last limit updated cooldown e u c t d = omega arith

-- A valid key is available on a later day, when its cooldown is over.
IsValid-IsAvailable :
    (now : Time) (last limit : ℕ) (k : KeyState)
    → last + limit < now
    → day_number last < day_number now
    → IsValid last limit k
    → IsAvailable now k
IsValid-IsAvailable now last limit k t d v =
    MayServe-of_HasEnd k.status now last limit _ _ v.has_end v.updated_le v.cooldown_le t d

-- The label and the secret of a handle.
abbrev pub handle_identity : Handle → Bytes × Bytes
handle_identity h = label_and_key h.state

abbrev HandsOut : Time → List KeyState → Bytes × Bytes → Type 0
HandsOut now ks who = (h : Handle) × ((acquire_from now ks).1 ≡ some h) × (handle_identity h ≡ who)

first-HandsOut :
    (now : Time) (last limit : ℕ) (ks : List KeyState) (who : Bytes × Bytes)
    (rest : List (Bytes × Bytes))
    → last + limit < now
    → day_number last < day_number now
    → map label_and_key ks ≡ who ∷ rest
    → All (IsValid last limit) ks
    → HandsOut now ks who
first-HandsOut now last limit [] who rest t d same v = cc
first-HandsOut now last limit (k ∷ ks) who rest t d same v =
    let found = refresh_available now k (IsValid-IsAvailable now last limit k t d v.0) in
    (
      record { state = refresh now k },
      rw (acquire_from_found now k ks found),
      label_and_key-refresh now k ∙ cc,
    )

new-identity :
    (e : KeyEntry) (es : List KeyEntry) (opts : Options)
    → identity (new (e ∷ es) opts) ≡ (e.label, e.key) ∷ map label_and_key (map new_key es)
unfolding new
new-identity e es opts = refl

-- After any history of calls on a new pool, Acquire succeeds at each time that lies on a later day
-- than the last call and behind it by more than the longest cooldown, and hands out the first key
-- of the configuration.
pub acquire-run-new :
    (last limit : ℕ) (e : KeyEntry) (es : List KeyEntry) (opts : Options) (cs : List (Time × Call))
    (now : Time)
    → HasCooldowns limit opts
    → All (IsCall last) cs
    → last + limit < now
    → day_number last < day_number now
    → (h : Handle) × ((acquire now (run (new (e ∷ es) opts) cs)).1 ≡ some h)
      × (handle_identity h ≡ (e.label, e.key))
unfolding acquire
acquire-run-new last limit e es opts cs now cd h t d =
    first-HandsOut now last limit (run (new (e ∷ es) opts) cs).keys _ _ t d
      ((identity-run (new (e ∷ es) opts) cs).0 ∙ new-identity e es opts)
      (run-new-AllValid last limit (e ∷ es) opts cs cd h)
