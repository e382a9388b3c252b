-- ===== src/Keypool/Schedule.antt =====
-- What a pool promises, without its quotas, its texts and its statuses: a key is ready, or it is closed
-- up to an instant or for the rest of a day. Time alone opens it again, and Acquire takes the first
-- that is ready.
use all2api.Prelude.{
  Bool, true, false, not, ◌&&◌, Option, none, some, List, [], ◌∷◌, ltb, ◌==◌, if◌then◌else◌, ℤ, pos,
  leb_ℤ, ltb_ℤ, increment,
}
use all2api.Text.{Bytes, text_eq}
use all2api.Clock.{Time, add_duration, day_number}
use all2api.Keypool.{Options}
use all2api.Keypool.Mark.{spends}
use all2api.Keypool.Step.{Call, acquires, exhausts, rate_limits, errors, invalidates, updates}

pub data Phase : Type 0 where
  ready : Phase
  cools_until : Time → Phase
  rests_since : Time → Phase

pub record Slot : Type 0 where
  pub label : Bytes
  pub secret : Bytes
  pub phase : Phase
  pub failures : ℤ
  pub updated : Time

-- The zero time ends nothing.
abbrev pub opens : Time → Phase → Bool
opens now ready = true
opens now (cools_until t) = ltb 0 t && ltb t now
opens now (rests_since t) = ltb 0 t && not (day_number t == day_number now)

-- The failures in a row are forgotten behind a cooldown, and not behind a rest.
abbrev pub failures_at_opening : Phase → ℤ → ℤ
failures_at_opening ready n = n
failures_at_opening (cools_until t) n = pos 0
failures_at_opening (rests_since t) n = n

abbrev pub taken : Slot → Slot
taken s = record s { phase = ready; failures = failures_at_opening s.phase s.failures }

unfoldable pub take_open : Time → List Slot → List Slot × Option (Bytes × Bytes)
take_open now [] = ([], none)
take_open now (s ∷ ss) =
    let (ss', found) = take_open now ss in
    if opens now s.phase then (taken s ∷ ss, some (s.label, s.secret)) else (s ∷ ss', found)

-- The first slot with the label, if there is one.
unfoldable pub at_slot : Bytes → (Slot → Slot) → List Slot → List Slot
at_slot label f [] = []
at_slot label f (s ∷ ss) = if text_eq s.label label then f s ∷ ss else s ∷ at_slot label f ss

unfoldable pub has_slot : Bytes → List Slot → Bool
has_slot label [] = false
has_slot label (s ∷ ss) = if text_eq s.label label then true else has_slot label ss

abbrev pub close_until : Time → Slot → Slot
close_until t s = record s { phase = cools_until t }

-- The rest began at the last update, or begins now if there was none.
abbrev pub close_for_day : Time → Slot → Slot
close_for_day now s =
    let t = if s.updated == 0 then now else s.updated in
    record s { phase = rests_since t; updated = t }

abbrev pub fail : Options → Time → Slot → Slot
fail opts now s =
    let n = increment s.failures in
    record s {
      failures = n;
      phase =
          if ltb_ℤ (pos 0) opts.max_error_count && leb_ℤ opts.max_error_count n
          then cools_until (add_duration now opts.error_cooldown)
          else s.phase;
    }

abbrev pub report : Bool → Time → Slot → Slot
report spent now s = record s {
  phase = if spent then rests_since now else ready;
  failures = pos 0;
  updated = now;
}

-- What a caller sees of a call: the label and the secret of the key that it gets, and whether the key
-- that it reports on is now exhausted.
pub data Reply : Type 0 where
  nothing : Reply
  handed : Option (Bytes × Bytes) → Reply
  told : Bool → Reply

unfoldable pub slots_step : Options → List Slot → Time × Call → List Slot
unfolding take_open at_slot
slots_step opts ss (now, acquires) = (take_open now ss).0
slots_step opts ss (now, exhausts label) = at_slot label (close_for_day now) ss
slots_step opts ss (now, rate_limits label) =
    at_slot label (close_until (add_duration now opts.rate_limit_cooldown)) ss
slots_step opts ss (now, errors label reason) = at_slot label (fail opts now) ss
slots_step opts ss (now, invalidates label reason) =
    at_slot label (close_until (add_duration now opts.error_cooldown)) ss
slots_step opts ss (now, updates label snap) = at_slot label (report (spends opts snap) now) ss

unfoldable pub slots_reply : Options → List Slot → Time × Call → Reply
unfolding take_open has_slot
slots_reply opts ss (now, acquires) = handed (take_open now ss).1
slots_reply opts ss (now, exhausts label) = nothing
slots_reply opts ss (now, rate_limits label) = nothing
slots_reply opts ss (now, errors label reason) = nothing
slots_reply opts ss (now, invalidates label reason) = nothing
slots_reply opts ss (now, updates label snap) = told (has_slot label ss && spends opts snap)

unfoldable pub slots_replies : Options → List Slot → List (Time × Call) → List Reply
unfolding slots_step slots_reply
slots_replies opts ss [] = []
slots_replies opts ss (c ∷ cs) =
    slots_reply opts ss c ∷ slots_replies opts (slots_step opts ss c) cs
