-- ===== src/Logstore.antt =====
-- internal/logstore/logstore.go: the file of events. The file is its lines, each of which ends with a
-- line feed. The JSON form of an event is a parameter: `encode` is json.Marshal, which writes no
-- line feed, and `decode` is json.Unmarshal. The errors of the file system are parameters as well.
pub mod Window
pub mod Long
mod Tests
use all2api.Prelude.{
  ℕ, suc, ◌-◌, ◌*◌, ◌%◌, ◌^◌, Bool, true, false, ◌&&◌, ◌||◌, Option, none, some, List, [], ◌∷◌,
  ◌++◌, ltb, leb, if◌then◌else◌, is_empty, length, drop, take, ℤ, pos, negsuc, leb_ℤ, ltb_ℤ,
  pos_part, Result, ok, err,
}
use mathlib.Core.List.{reverse}
use all2api.Text.{Bytes, bytes, text_eq, trim_space}
use all2api.Clock.{Time, is_zero}

pub record Event : Type 0 where
  pub time : Time
  pub kind : Bytes
  pub level : Bytes
  pub message : Bytes
  pub platform : Bytes
  pub pool : Bytes
  pub key_label : Bytes
  pub method : Bytes
  pub path : Bytes
  pub status_code : ℕ
  pub duration_ms : ℤ
  pub attempts : ℕ
  pub action : Bytes
  pub actor : Bytes
  pub error : Bytes
  pub remote_addr : Bytes

pub record Query : Type 0 where
  pub limit : ℤ
  pub kind : Bytes
  pub level : Bytes
  pub platform : Bytes

-- The store's file.
pub record Store : Type 0 where
  pub lines : List Bytes

-- A filter that is empty lets everything through.
abbrev pub fits : Bytes → Bytes → Bool
fits wanted value = is_empty wanted || text_eq value wanted

-- matches
unfoldable pub matches : Event → Query → Bool
unfolding text_eq
matches e q = fits q.kind e.kind && (fits q.level e.level && fits q.platform e.platform)

-- `too_long` is bufio.ErrTooLong, and `out_of_range` the panic of a slice expression.
pub data ReadError : Type 0 where
  failed : Bytes → ReadError
  too_long out_of_range : ReadError

-- The bytes that bufio.Scanner holds of a line at most, its line feed included.
abbrev pub max_token : ℕ
max_token = 65536

-- The product of an `int` with 3, which wraps at 64 bits.
abbrev pub times_three : ℕ → ℤ
times_three n = let m = n * 3 % 2 ^ 64 in if ltb m (2 ^ 63) then pos m else negsuc (2 ^ 64 - m - 1)

-- The limit of a query, or 200.
unfoldable pub limit_of : Query → ℕ
limit_of q = if leb_ℤ q.limit (pos 0) then 200 else pos_part q.limit

-- The statement that bounds the events in memory.
unfoldable pub trim_events : ℕ → List Event → Result ReadError (List Event)
trim_events limit events =
    if ltb_ℤ (times_three limit) (pos (length events))
    then (if leb limit (length events)
        then ok (drop (length events - limit) events)
        else err out_of_range)
    else ok events

-- The end of Read: the newest come first.
unfoldable pub newest_first : ℕ → List Event → List Event
newest_first limit events =
    let reversed = reverse events in
    if ltb limit (length reversed) then take limit reversed else reversed

-- The errors of New.
pub data StoreError : Type 0 where
  empty_path : StoreError
  not_created not_opened : Bytes → StoreError

-- New: the errors of os.MkdirAll and of os.OpenFile, and the lines that the file has once it is open.
unfoldable pub new_store :
    Option Bytes → Option Bytes → List Bytes → Bytes → Result StoreError Store
new_store mkdir_error open_error lines path =
    if is_empty path then err empty_path else elim mkdir_error [
      | some e ↦ err (not_created e)
      | none ↦ elim open_error [
        | some e ↦ err (not_opened e)
        | none ↦ ok (record { lines = lines })
      ]
    ]

module _ (decode : Bytes → Option Event) where
  -- The event of a line that is not skipped.
  unfoldable pub line_event : Query → Bytes → Option Event
  unfolding trim_space
  line_event q l =
      let line = trim_space l in
      if is_empty line
      then none
      else elim (decode line) [ none ↦ none | some e ↦ if matches e q then some e else none ]

  -- The loop of Read over the lines that are left.
  unfoldable pub scan : ℕ → Query → List Event → List Bytes → Result ReadError (List Event)
  unfolding line_event trim_events
  scan limit q events [] = ok events
  scan limit q events (l ∷ ls) =
      if leb max_token (length l) then err too_long else elim (line_event q l) [
        | none ↦ scan limit q events ls
        | some e ↦ elim (trim_events limit (events ++ e ∷ [])) [
          | ok kept ↦ scan limit q kept ls
          | err x ↦ err x
        ]
      ]

  -- Read
  unfoldable pub read : Option Bytes → Query → Store → Result ReadError (List Event)
  unfolding limit_of scan newest_first
  read (some x) q s = err (failed x)
  read none q s = elim (scan (limit_of q) q [] s.lines) [
    | ok events ↦ ok (newest_first (limit_of q) events)
    | err x ↦ err x
  ]

module _ (encode : Event → Bytes) where
  -- Append, with the error of the file system, if any, at which nothing is written.
  unfoldable pub append : Option Bytes → Event → Store → Store × Option Bytes
  append (some x) e s = (s, some x)
  append none e s = (record s { lines = s.lines ++ encode e ∷ [] }, none)

  -- Record, at a reading of the clock; it does not report the error.
  unfoldable pub record_event : Option Bytes → Time → Event → Store → Store
  unfolding append
  record_event open_error now e s =
      let timed = if is_zero e.time then record e { time = now } else e in
      let levelled =
        if is_empty timed.level then record timed { level = bytes "info" } else timed in
      (append open_error levelled s).0

-- Clear
unfoldable pub clear : Option Bytes → Store → Store × Option Bytes
clear (some x) s = (s, some x)
clear none s = (record s { lines = [] }, none)
