-- ===== src/Keypool/Identity.antt =====
-- Whatever happens to a pool, its keys keep their labels, their secrets and their order.
use all2api.Prelude.{◌≡◌, refl, ◌∙◌, List, [], ◌∷◌, map, arith}
use all2api.Text.{Bytes}
use all2api.Clock.{Time}
use all2api.Keypool.{Options, KeyState, Pool, refresh}
use all2api.Keypool.Mark.{exhaust, limit_rate, count_error, invalidate, apply_snapshot}
use all2api.Keypool.Fields.{map-at_label, map-acquire_from}
use all2api.Keypool.Step.{
  Call, acquires, exhausts, rate_limits, errors, invalidates, updates, step, run,
}

abbrev pub label_and_key : KeyState → Bytes × Bytes
label_and_key k = (k.label, k.key)

-- The labels and the secrets, in the order in which Acquire tries them.
abbrev pub identity : Pool → List (Bytes × Bytes)
identity p = map label_and_key p.keys

pub label_and_key-refresh :
    (now : Time) (k : KeyState) → label_and_key (refresh now k) ≡ label_and_key k
unfolding refresh
label_and_key-refresh now k = ground arith

pub label-refresh : (now : Time) (k : KeyState) → (refresh now k).label ≡ k.label
unfolding refresh
label-refresh now k = ground arith

count_error-label_and_key :
    (opts : Options) (now : Time) (reason : Bytes) (k : KeyState)
    → label_and_key (count_error opts now reason k) ≡ label_and_key k
unfolding count_error
count_error-label_and_key opts now reason k = ground arith

pub label-count_error :
    (opts : Options) (now : Time) (reason : Bytes) (k : KeyState)
    → (count_error opts now reason k).label ≡ k.label
unfolding count_error
label-count_error opts now reason k = ground arith

pub identity-step : (p : Pool) (c : Time × Call) → identity (step p c) ≡ identity p
unfolding step
identity-step p (now, acquires) =
    map-acquire_from label_and_key now p.keys (label_and_key-refresh now)
identity-step p (now, exhausts label) =
    map-at_label label_and_key label (exhaust now) p.keys (λ k. refl)
identity-step p (now, rate_limits label) =
    map-at_label label_and_key label (limit_rate p.opts now) p.keys (λ k. refl)
identity-step p (now, errors label reason) =
    map-at_label label_and_key label (count_error p.opts now reason) p.keys
      (count_error-label_and_key p.opts now reason)
identity-step p (now, invalidates label reason) =
    map-at_label label_and_key label (invalidate p.opts now reason) p.keys (λ k. refl)
identity-step p (now, updates label snap) =
    map-at_label label_and_key label (apply_snapshot p.opts now snap) p.keys (λ k. refl)

pub opts-step : (p : Pool) (c : Time × Call) → (step p c).opts ≡ p.opts
unfolding step
opts-step p (now, acquires) = refl
opts-step p (now, exhausts label) = refl
opts-step p (now, rate_limits label) = refl
opts-step p (now, errors label reason) = refl
opts-step p (now, invalidates label reason) = refl
opts-step p (now, updates label snap) = refl

-- Any history of calls leaves the labels, the secrets, their order and the options as they were.
pub identity-run :
    (p : Pool) (cs : List (Time × Call))
    → (identity (run p cs) ≡ identity p) × ((run p cs).opts ≡ p.opts)
unfolding run
identity-run p [] = (refl, refl)
identity-run p (c ∷ cs) =
    let (same_keys, same_opts) = identity-run (step p c) cs in
    (same_keys ∙ identity-step p c, same_opts ∙ opts-step p c)
