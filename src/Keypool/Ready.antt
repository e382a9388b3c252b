-- ===== src/Keypool/Ready.antt =====
-- A pool in which Acquire finds a good key before the refused ones are more than the attempts left.
use all2api.Prelude.{suc, ℕ, ◌<◌, ◌≤◌, ◌≡◌, refl, sym, Bool, true, false, some, arith}
use all2api.Text.{Bytes}
use all2api.Clock.{Time, add_duration}
use all2api.Keypool.{KeyState, Options, Handle, Pool, acquire, acquire_from, at_label}
use all2api.Keypool.Mark.{limit_rate, invalidate, mark_rate_limited, mark_key_invalid}
use all2api.Keypool.Blocked.{HasDistinctLabels}
use all2api.Keypool.Fields.{map-at_label, map-acquire_from}
use all2api.Keypool.Identity.{label-refresh}
use all2api.Keypool.Distinct.{label_of, HasDistinctLabels-of_labels}
use all2api.Keypool.Traps.{
  is_cooling, count_traps, HasGood, IsHanded, at_label-HasGood, count_traps-at_label,
}

pub acquire_found :
    (now : Time) (p : Pool) (handle : Handle)
    → (acquire_from now p.keys).1 ≡ some handle
    → (acquire now p).1 ≡ some handle
unfolding acquire
acquire_found now p handle e = e

module _ (opts : Options) (deadline : Time) (good : Bytes → Bool) where
  -- A pool with distinct labels, an active good key, and fewer refused keys than attempts.
  pub record IsReady (left : ℕ) (p : Pool) : Type 0 where
    pub options : p.opts ≡ opts
    pub distinct : HasDistinctLabels p.keys
    pub has_good : HasGood deadline good p.keys
    pub traps : count_traps deadline good p.keys < left

  limit_rate-cools :
      (o : Options) (now : Time) (k : KeyState)
      → o ≡ opts
      → deadline ≤ add_duration now opts.rate_limit_cooldown
      → is_cooling deadline good (limit_rate o now k) ≡ true
  unfolding limit_rate
  limit_rate-cools o now k e h = rw e (ground arith)

  invalidate-cools :
      (o : Options) (now : Time) (reason : Bytes) (k : KeyState)
      → o ≡ opts
      → deadline ≤ add_duration now opts.error_cooldown
      → is_cooling deadline good (invalidate o now reason k) ≡ true
  unfolding invalidate
  invalidate-cools o now reason k e h = rw e (ground arith)

  module _ (p : Pool) (left : ℕ) (ready : IsReady (suc left) p) (now : Time)
      (early : now ≤ deadline) (handle : Handle)
      (handed : IsHanded deadline good now p.keys handle) where
    abbrev after : Pool
    after = (acquire now p).0

    acquire-distinct : HasDistinctLabels after.keys
    unfolding acquire
    acquire-distinct =
        HasDistinctLabels-of_labels p.keys after.keys
          (sym (map-acquire_from label_of now p.keys (label-refresh now))) ready.distinct

    acquire-IsReady : IsReady (suc left) after
    unfolding acquire
    acquire-IsReady = record {
      options = ready.options;
      distinct = acquire-distinct;
      has_good = handed.has_good;
      traps = rw handed.traps ready.traps;
    }

    -- The mark of a refused key uses up one of the refused keys.
    at_label-IsReady :
        (f : KeyState → KeyState)
        → ((k : KeyState) → is_cooling deadline good (f k) ≡ true)
        → ((k : KeyState) → (f k).label ≡ k.label)
        → good handle.state.key ≡ false
        → IsReady left (record after { keys = at_label handle.state.label f after.keys })
    unfolding acquire
    at_label-IsReady f cools same refused = record {
      options = ready.options;
      distinct =
          HasDistinctLabels-of_labels after.keys (at_label handle.state.label f after.keys)
            (sym (map-at_label label_of handle.state.label f after.keys same)) acquire-distinct;
      has_good =
          at_label-HasGood deadline good f cools handle.state refused handed.warm after.keys
            acquire-distinct handed.holds handed.has_good;
      traps =
          let one_less =
            count_traps-at_label deadline good f cools handle.state refused handed.warm after.keys
              acquire-distinct handed.holds in
          omega (arith, one_less, handed.traps, ready.traps);
    }

    pub mark_rate_limited-IsReady :
        (at : Time) (q : Pool)
        → deadline ≤ add_duration at opts.rate_limit_cooldown
        → q ≡ (acquire now p).0
        → good handle.state.key ≡ false
        → IsReady left (mark_rate_limited at handle.state.label q)
    unfolding mark_rate_limited limit_rate
    mark_rate_limited-IsReady at q lasts e refused = rw e (
        at_label-IsReady (limit_rate (acquire now p).0.opts at)
          (λ k. limit_rate-cools _ at k acquire-IsReady.options lasts) (λ k. refl) refused)

    pub mark_key_invalid-IsReady :
        (at : Time) (reason : Bytes) (q : Pool)
        → deadline ≤ add_duration at opts.error_cooldown
        → q ≡ (acquire now p).0
        → good handle.state.key ≡ false
        → IsReady left (mark_key_invalid at handle.state.label reason q)
    unfolding mark_key_invalid invalidate
    mark_key_invalid-IsReady at reason q lasts e refused = rw e (
        at_label-IsReady (invalidate (acquire now p).0.opts at reason)
          (λ k. invalidate-cools _ at reason k acquire-IsReady.options lasts) (λ k. refl) refused)
