-- ===== src/Keypool/Refines.antt =====
-- internal/keypool/keypool.go: the pool keeps the promises of Keypool/Schedule.antt.
use all2api.Prelude.{
  ◌≡◌, refl, sym, ap, ◌∙◌, inl, inr, true, ◌&&◌, Option, none, some, List, [], ◌∷◌, map, arith,
  Bool-cases, is_some,
}
use all2api.Text.{Bytes, text_eq}
use all2api.Clock.{Time, add_duration}
use all2api.Clock.Calendar.{same_utc_date_iff}
use all2api.RateLimit.{RateLimitSnapshot}
use all2api.Keypool.{
  KeyStatus, active, exhausted, rate_limited, error, KeyState, Options, Handle, Pool, is_active,
  refresh, acquire_from, acquire, find, at_label,
}
use all2api.Keypool.Mark.{
  exhaust, limit_rate, count_error, invalidate, apply_snapshot, spends, update_from_upstream,
}
use all2api.Keypool.Available.{refresh_waiting}
use all2api.Keypool.Identity.{opts-step}
use all2api.Keypool.Step.{Call, acquires, exhausts, rate_limits, errors, invalidates, updates, step}
use all2api.Keypool.Schedule.{
  Phase, ready, cools_until, rests_since, Slot, opens, taken, take_open, at_slot, has_slot,
  close_until, close_for_day, fail, report, Reply, nothing, handed, told, slots_step, slots_reply,
  slots_replies,
}

-- What the schedule sees of a key.
abbrev phase_of : KeyStatus → Time → Time → Phase
phase_of active last_updated cooldown_until = ready
phase_of exhausted last_updated cooldown_until = rests_since last_updated
phase_of rate_limited last_updated cooldown_until = cools_until cooldown_until
phase_of error last_updated cooldown_until = cools_until cooldown_until

abbrev pub slot_of : KeyState → Slot
slot_of k = record {
  label = k.label;
  secret = k.key;
  phase = phase_of k.status k.last_updated k.cooldown_until;
  failures = k.error_count;
  updated = k.last_updated;
}

abbrev pub slots_of : Pool → List Slot
slots_of p = map slot_of p.keys

-- What a caller sees of a handle.
abbrev pub shown : Option Handle → Option (Bytes × Bytes)
shown none = none
shown (some h) = some (h.state.label, h.state.key)

-- What a caller sees of a call.
unfoldable pub reply : Pool → Time × Call → Reply
unfolding acquire update_from_upstream
reply p (now, acquires) = handed (shown (acquire now p).1)
reply p (now, exhausts label) = nothing
reply p (now, rate_limits label) = nothing
reply p (now, errors label reason) = nothing
reply p (now, invalidates label reason) = nothing
reply p (now, updates label snap) = told (update_from_upstream now label snap p).1

unfoldable pub replies : Pool → List (Time × Call) → List Reply
unfolding step reply
replies p [] = []
replies p (c ∷ cs) = reply p c ∷ replies (step p c) cs

module _ (now : Time) (k : KeyState) where
  refresh-opens : is_active (refresh now k).status ≡ opens now (slot_of k).phase
  unfolding refresh
  refresh-opens = ground (arith, same_utc_date_iff k.last_updated now)

  refresh-taken :
      is_active (refresh now k).status ≡ true → slot_of (refresh now k) ≡ taken (slot_of k)
  unfolding refresh
  refresh-taken h = ground arith

slots_of-acquire :
    (now : Time) (ks : List KeyState)
    → (map slot_of (acquire_from now ks).0 ≡ (take_open now (map slot_of ks)).0)
      × (shown (acquire_from now ks).1 ≡ (take_open now (map slot_of ks)).1)
unfolding acquire_from take_open
slots_of-acquire now [] = (refl, refl)
slots_of-acquire now (k ∷ ks) = elim (Bool-cases (is_active (refresh now k).status)) [
  | inl found ↦
      let same = refresh-taken now k found in
      let opened = sym (refresh-opens now k) ∙ found in
      rw (found, opened)
        (ap (λ s. s ∷ map slot_of ks) same, ap (λ (s : Slot). some (s.label, s.secret)) same)
  | inr waits ↦
      let same = refresh_waiting now k waits in
      let closed = sym (refresh-opens now k) ∙ waits in
      let (keys, handle) = slots_of-acquire now ks in
      rw (waits, closed) (rw same (ap (λ ss. slot_of k ∷ ss) keys, handle))
]

slots_of-at_label :
    (label : Bytes) (f : KeyState → KeyState) (g : Slot → Slot) (ks : List KeyState)
    → ((k : KeyState) → slot_of (f k) ≡ g (slot_of k))
    → map slot_of (at_label label f ks) ≡ at_slot label g (map slot_of ks)
unfolding at_label at_slot
slots_of-at_label label f g [] h = refl
slots_of-at_label label f g (k ∷ ks) h = elim (Bool-cases (text_eq k.label label)) [
  | inl hit ↦ rw hit (ap (λ s. s ∷ map slot_of ks) (h k))
  | inr miss ↦ rw miss (ap (λ ss. slot_of k ∷ ss) (slots_of-at_label label f g ks h))
]

is_some-find :
    (label : Bytes) (ks : List KeyState) → is_some (find label ks) ≡ has_slot label (map slot_of ks)
unfolding find has_slot
is_some-find label [] = refl
is_some-find label (k ∷ ks) = elim (Bool-cases (text_eq k.label label)) [
  | inl hit ↦ rw hit
  | inr miss ↦ rw miss (is_some-find label ks)
]

module _ (opts : Options) (now : Time) (k : KeyState) where
  slot_of-exhaust : slot_of (exhaust now k) ≡ close_for_day now (slot_of k)
  unfolding exhaust
  slot_of-exhaust = refl

  slot_of-limit_rate :
      slot_of (limit_rate opts now k)
      ≡ close_until (add_duration now opts.rate_limit_cooldown) (slot_of k)
  unfolding limit_rate
  slot_of-limit_rate = refl

  slot_of-invalidate :
      (reason : Bytes)
      → slot_of (invalidate opts now reason k)
        ≡ close_until (add_duration now opts.error_cooldown) (slot_of k)
  unfolding invalidate
  slot_of-invalidate reason = refl

  slot_of-count_error :
      (reason : Bytes) → slot_of (count_error opts now reason k) ≡ fail opts now (slot_of k)
  unfolding count_error
  slot_of-count_error reason = ground arith

  slot_of-apply_snapshot :
      (snap : RateLimitSnapshot)
      → slot_of (apply_snapshot opts now snap k) ≡ report (spends opts snap) now (slot_of k)
  unfolding apply_snapshot
  slot_of-apply_snapshot snap = ground arith

-- One call, on the pool and on its slots.
step-slots_of :
    (p : Pool) (c : Time × Call) → slots_of (step p c) ≡ slots_step p.opts (slots_of p) c
unfolding step slots_step
step-slots_of p (now, acquires) = (slots_of-acquire now p.keys).0
step-slots_of p (now, exhausts label) =
    slots_of-at_label label _ _ p.keys (slot_of-exhaust p.opts now)
step-slots_of p (now, rate_limits label) =
    slots_of-at_label label _ _ p.keys (slot_of-limit_rate p.opts now)
step-slots_of p (now, errors label reason) =
    slots_of-at_label label _ _ p.keys (λ k. slot_of-count_error p.opts now k reason)
step-slots_of p (now, invalidates label reason) =
    slots_of-at_label label _ _ p.keys (λ k. slot_of-invalidate p.opts now k reason)
step-slots_of p (now, updates label snap) =
    slots_of-at_label label _ _ p.keys (λ k. slot_of-apply_snapshot p.opts now k snap)

reply-slots_reply : (p : Pool) (c : Time × Call) → reply p c ≡ slots_reply p.opts (slots_of p) c
unfolding reply slots_reply
reply-slots_reply p (now, acquires) = ap (λ h. handed h) ((slots_of-acquire now p.keys).1)
reply-slots_reply p (now, exhausts label) = refl
reply-slots_reply p (now, rate_limits label) = refl
reply-slots_reply p (now, errors label reason) = refl
reply-slots_reply p (now, invalidates label reason) = refl
reply-slots_reply p (now, updates label snap) =
    ap (λ there. told (there && spends p.opts snap)) (is_some-find label p.keys)

-- Whatever the pool and the calls on it, their order and their times: the replies are those of the
-- schedule that has a slot for each key, which knows no status, no quota and no error text.
pub replies-slots_replies :
    (p : Pool) (cs : List (Time × Call)) → replies p cs ≡ slots_replies p.opts (slots_of p) cs
unfolding replies slots_replies
replies-slots_replies p [] = refl
replies-slots_replies p (c ∷ cs) =
    let rest = replies-slots_replies (step p c) cs in
    rw (reply-slots_reply p c, rest, opts-step p c, step-slots_of p c)
