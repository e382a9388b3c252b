-- ===== src/Logstore/Window.antt =====
-- Read: the events that it drops while it reads do not show in the result.
use all2api.Prelude.{
  ℕ, ◌-◌, ◌*◌, ◌^◌, ◌≤◌, ◌<◌, ◌≡◌, refl, ap, sym, ◌∙◌, ◌⊎◌, inl, inr, Option, none, some, List, [],
  ◌∷◌, ◌++◌, arith, All, false, Option-cases, leb, length, take, drop, length-append,
  length-reverse, length-drop, take-append, take-all, take-append_drop, append_assoc, append-nil,
  ok,
}
use mathlib.Core.List.{reverse, reverse-append}
use all2api.Text.{Bytes}
use all2api.Logstore.{
  Event, Query, Store, max_token, limit_of, trim_events, newest_first, line_event, scan, read,
}

-- The events of a list that come last, in the reverse order.
abbrev pub newest : ℕ → List Event → List Event
newest n xs = take n (reverse xs)

newest_first_lem : (n : ℕ) (xs : List Event) → newest_first n xs ≡ newest n xs
unfolding newest_first
newest_first_lem n xs = ground (arith, take-all n (reverse xs))

-- What is dropped in front, where enough is left, does not show.
newest-drop :
    (n k : ℕ) (xs ys : List Event)
    → n ≤ length (drop k xs)
    → newest n (drop k xs ++ ys) ≡ newest n (xs ++ ys)
newest-drop n k xs ys h =
    let d = drop k xs in
    let whole : reverse (xs ++ ys) ≡ (reverse ys ++ reverse d) ++ reverse (take k xs) =
      reverse-append xs ys
      ∙ ap (λ zs. reverse ys ++ reverse zs) (sym (take-append_drop k xs))
      ∙ ap (λ zs. reverse ys ++ zs) (reverse-append (take k xs) d)
      ∙ sym (append_assoc (reverse ys) (reverse d) (reverse (take k xs))) in
    let part : reverse (d ++ ys) ≡ reverse ys ++ reverse d = reverse-append d ys in
    ap (take n) part
    ∙ sym (
        take-append n (reverse ys ++ reverse d) (reverse (take k xs))
          (omega (arith, length-append (reverse ys) (reverse d), length-reverse d)))
    ∙ sym (ap (take n) whole)

-- A positive limit whose triple is an `int`.
abbrev pub IsLimit : ℕ → Type 0
IsLimit n = (0 < n) × (n * 3 < 2 ^ 63)

module _ (n : ℕ) (h : IsLimit n) where
  -- The events that are kept, if the bound is met and if not.
  trim_events-cases :
      (xs : List Event)
      → (trim_events n xs ≡ ok xs)
        ⊎ ((n ≤ length xs) × (trim_events n xs ≡ ok (drop (length xs - n) xs)))
  unfolding trim_events
  trim_events-cases xs = ground arith

  pub trim_events-newest :
      (xs : List Event)
      → (kept : List Event) × (trim_events n xs ≡ ok kept)
        × ((ys : List Event) → newest n (kept ++ ys) ≡ newest n (xs ++ ys))
  trim_events-newest xs = elim (trim_events-cases xs) [
    | inl e ↦ (xs, e, λ ys. refl)
    | inr (enough, e) ↦ (
      drop (length xs - n) xs,
      e,
      λ ys. newest-drop n (length xs - n) xs ys (omega (arith, length-drop (length xs - n) xs)),
    )
  ]

abbrev pub IsShort : Bytes → Type 0
IsShort l = length l < max_token

module _ (decode : Bytes → Option Event) (q : Query) where
  abbrev pub listed : Option Event → List Event
  listed none = []
  listed (some e) = e ∷ []

  -- The events of all lines that fit the query, in the order of the file.
  abbrev pub selected : List Bytes → List Event
  selected [] = []
  selected (l ∷ ls) = listed (line_event decode q l) ++ selected ls

  module _ (n : ℕ) (h : IsLimit n) where
    scan_nil : (events : List Event) → scan decode n q events [] ≡ ok events
    unfolding scan
    scan_nil events = refl

    scan-skip :
        (events : List Event) (l : Bytes) (ls : List Bytes)
        → IsShort l
        → line_event decode q l ≡ none
        → scan decode n q events (l ∷ ls) ≡ scan decode n q events ls
    unfolding scan
    scan-skip events l ls short e =
        let fine : leb max_token (length l) ≡ false = ground arith in rw (fine, scan) (rw e)

    scan-keep :
        (events : List Event) (l : Bytes) (ls : List Bytes) (e : Event) (kept : List Event)
        → IsShort l
        → line_event decode q l ≡ some e
        → trim_events n (events ++ e ∷ []) ≡ ok kept
        → scan decode n q events (l ∷ ls) ≡ scan decode n q kept ls
    unfolding scan
    scan-keep events l ls e kept short found trimmed =
        let fine : leb max_token (length l) ≡ false = ground arith in
        rw (fine, scan) (rw (found, scan) (rw trimmed))

    scan-newest :
        (events : List Event) (ls : List Bytes)
        → All IsShort ls
        → (kept : List Event) × (scan decode n q events ls ≡ ok kept)
          × (newest n kept ≡ newest n (events ++ selected ls))
    scan-newest events [] s = (events, scan_nil events, ap (newest n) (sym (append-nil events)))
    scan-newest events (l ∷ ls) (short, s) = elim (Option-cases (line_event decode q l)) [
      | inl e ↦
          let (kept, same, newest_same) = scan-newest events ls s in
          (kept, scan-skip events l ls short e ∙ same, rw e newest_same)
      | inr (e, found) ↦
          let (trimmed, cut, keeps) = trim_events-newest n h (events ++ e ∷ []) in
          let (kept, same, newest_same) = scan-newest trimmed ls s in
          (
            kept,
            scan-keep events l ls e trimmed short found cut ∙ same,
            rw found (
                newest_same
                ∙ keeps (selected ls)
                ∙ ap (newest n) (append_assoc events (e ∷ []) (selected ls))),
          )
    ]

read_lem :
    (decode : Bytes → Option Event) (q : Query) (s : Store) (kept : List Event)
    → scan decode (limit_of q) q [] s.lines ≡ ok kept
    → read decode none q s ≡ ok (newest (limit_of q) kept)
unfolding read
read_lem decode q s kept e = rw (e, read) (ap ok (newest_first_lem (limit_of q) kept))

-- If no line reaches 64 KiB and three times the limit of the query is an int, Read returns the
-- last of the events that fit the query, as many as the limit allows, the last one first; what it
-- drops while it reads does not show.
pub read-newest :
    (decode : Bytes → Option Event) (q : Query) (s : Store)
    → IsLimit (limit_of q)
    → All IsShort s.lines
    → read decode none q s ≡ ok (newest (limit_of q) (selected decode q s.lines))
read-newest decode q s h short =
    let (kept, same, newest_same) = scan-newest decode q (limit_of q) h [] s.lines short in
    read_lem decode q s kept same ∙ ap ok newest_same
