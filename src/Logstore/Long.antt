-- ===== src/Logstore/Long.antt =====
-- A line that bufio.Scanner cannot hold ends every Read.
use all2api.Prelude.{
  ℕ, ◌≤◌, ◌≡◌, refl, ◌⊎◌, inl, inr, Option, none, List, [], ◌∷◌, ◌++◌, arith, true, Bool-cases,
  Option-cases, leb, length, err,
}
use all2api.Text.{Bytes}
use all2api.Logstore.{
  Event, Query, Store, max_token, too_long, limit_of, line_event, scan, read, append,
}
use all2api.Logstore.Window.{IsLimit, trim_events-newest}

-- Some line is too long.
abbrev pub AnyLong : List Bytes → Type 0
AnyLong [] = ⊥
AnyLong (l ∷ ls) = (max_token ≤ length l) ⊎ AnyLong ls

AnyLong-append :
    (ls : List Bytes) (l : Bytes) → AnyLong ls ⊎ (max_token ≤ length l) → AnyLong (ls ++ l ∷ [])
AnyLong-append [] l (inl h) = absurd h
AnyLong-append [] l (inr h) = inl h
AnyLong-append (k ∷ ls) l (inl (inl h)) = inl h
AnyLong-append (k ∷ ls) l (inl (inr h)) = inr (AnyLong-append ls l (inl h))
AnyLong-append (k ∷ ls) l (inr h) = inr (AnyLong-append ls l (inr h))

module _ (decode : Bytes → Option Event) (q : Query) (n : ℕ) (h : IsLimit n) where
  scan-AnyLong :
      (events : List Event) (ls : List Bytes)
      → AnyLong ls
      → scan decode n q events ls ≡ err too_long
  unfolding scan
  scan-AnyLong events [] long = absurd long
  scan-AnyLong events (l ∷ ls) (inl here) =
      let bad : leb max_token (length l) ≡ true = ground arith in rw (bad, scan)
  scan-AnyLong events (l ∷ ls) (inr there) = elim (Bool-cases (leb max_token (length l))) [
    | inl bad ↦ rw (bad, scan)
    | inr fine ↦ elim (Option-cases (line_event decode q l)) [
      | inl e ↦ rw (fine, scan) (rw (e, scan) (scan-AnyLong events ls there))
      | inr (e, found) ↦
          let (kept, cut, _) = trim_events-newest n h (events ++ e ∷ []) in
          rw (fine, scan) (rw (found, scan) (rw (cut, scan) (scan-AnyLong kept ls there)))
    ]
  ]

read_too_long :
    (decode : Bytes → Option Event) (q : Query) (s : Store)
    → scan decode (limit_of q) q [] s.lines ≡ err too_long
    → read decode none q s ≡ err too_long
unfolding read
read_too_long decode q s e = rw (e, read)

lines-append :
    (encode : Event → Bytes) (e : Event) (s : Store)
    → (append encode none e s).0.lines ≡ s.lines ++ encode e ∷ []
unfolding append
lines-append encode e s = refl

-- After an event whose line reaches 64 KiB has been appended, or any line of the file has that
-- length, Read fails for every query whose limit has an int as its triple.
pub read-append_long :
    (encode : Event → Bytes) (decode : Bytes → Option Event) (e : Event) (q : Query) (s : Store)
    → IsLimit (limit_of q)
    → AnyLong s.lines ⊎ (max_token ≤ length (encode e))
    → read decode none q (append encode none e s).0 ≡ err too_long
read-append_long encode decode e q s h long = read_too_long decode q (append encode none e s).0 (
    rw (lines-append encode e s) (
      scan-AnyLong decode q (limit_of q) h [] (s.lines ++ encode e ∷ [])
        (AnyLong-append s.lines (encode e) long)))
