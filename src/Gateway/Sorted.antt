-- ===== src/Gateway/Sorted.antt =====
-- sort.Strings on the names of a map: the entries are all there, each once, in the order of their names.
use all2api.Prelude.{
  ◌+◌, ◌≡◌, refl, inl, inr, true, false, List, [], ◌∷◌, All, arith, Bool-cases, ℕ, suc, length,
}
use mathlib.Core.List.{Perm}
use mathlib.Core.List.Perm
use all2api.Text.{Bytes}
use all2api.Table.{names}
use all2api.Gateway.{text_lt, insert_entry, sort_entries}

text_lt-asymm : (s t : Bytes) → text_lt s t ≡ true → text_lt t s ≡ false
unfolding text_lt
text_lt-asymm [] [] h = refl
text_lt-asymm [] (b ∷ t) h = refl
text_lt-asymm (a ∷ s) [] h = cc
text_lt-asymm (a ∷ s) (b ∷ t) h = ground (arith, text_lt-asymm s t)

-- The order is transitive in its negated form, which says "not behind".
text_lt-false_trans :
    (s t u : Bytes) → text_lt t s ≡ false → text_lt u t ≡ false → text_lt u s ≡ false
unfolding text_lt
text_lt-false_trans [] t [] h k = refl
text_lt-false_trans [] t (c ∷ u) h k = refl
text_lt-false_trans (a ∷ s) [] u h k = cc
text_lt-false_trans (a ∷ s) (b ∷ t) [] h k = cc
text_lt-false_trans (a ∷ s) (b ∷ t) (c ∷ u) h k = ground (arith, text_lt-false_trans s t u)

module _ {A : Type 0} where
  -- No entry has a name behind that of a later one.
  abbrev pub IsSorted : List (Bytes × A) → Type 0
  IsSorted [] = Unit
  IsSorted (e ∷ es) = All (λ f. text_lt f.0 e.0 ≡ false) es × IsSorted es

  insert_entry-perm : (e : Bytes × A) (es : List (Bytes × A)) → Perm (insert_entry e es) (e ∷ es)
  unfolding insert_entry
  insert_entry-perm e [] = Perm.refl (e ∷ [])
  insert_entry-perm e (f ∷ fs) = elim (Bool-cases (text_lt f.0 e.0)) [
    | inl before ↦ rw before (Perm.trans (Perm.cons f (insert_entry-perm e fs)) (Perm.swap e f fs))
    | inr behind ↦ rw behind (Perm.refl (e ∷ f ∷ fs))
  ]

  pub sort_entries-perm : (es : List (Bytes × A)) → Perm (sort_entries es) es
  unfolding sort_entries
  sort_entries-perm [] = Perm.refl []
  sort_entries-perm (e ∷ es) =
      Perm.trans (insert_entry-perm e (sort_entries es)) (Perm.cons e (sort_entries-perm es))

  All-behind :
      (n m : Bytes) (es : List (Bytes × A))
      → text_lt m n ≡ false
      → All (λ f. text_lt f.0 m ≡ false) es
      → All (λ f. text_lt f.0 n ≡ false) es
  All-behind n m [] h hs = tt
  All-behind n m (e ∷ es) h (k, ks) = (text_lt-false_trans n m e.0 h k, All-behind n m es h ks)

  insert_entry-All :
      (n : Bytes) (e : Bytes × A) (es : List (Bytes × A))
      → text_lt e.0 n ≡ false
      → All (λ f. text_lt f.0 n ≡ false) es
      → All (λ f. text_lt f.0 n ≡ false) (insert_entry e es)
  unfolding insert_entry
  insert_entry-All n e [] h hs = (h, tt)
  insert_entry-All n e (f ∷ fs) h (k, ks) = elim (Bool-cases (text_lt f.0 e.0)) [
    | inl before ↦ rw before (k, insert_entry-All n e fs h ks)
    | inr behind ↦ rw behind (h, (k, ks))
  ]

  insert_entry-IsSorted :
      (e : Bytes × A) (es : List (Bytes × A)) → IsSorted es → IsSorted (insert_entry e es)
  unfolding insert_entry
  insert_entry-IsSorted e [] h = (tt, tt)
  insert_entry-IsSorted e (f ∷ fs) (k, ks) = elim (Bool-cases (text_lt f.0 e.0)) [
    | inl before ↦
        rw before (
          insert_entry-All f.0 e fs (text_lt-asymm f.0 e.0 before) k,
          insert_entry-IsSorted e fs ks,
        )
    | inr behind ↦ rw behind ((behind, All-behind e.0 f.0 fs behind k), (k, ks))
  ]

  pub sort_entries-IsSorted : (es : List (Bytes × A)) → IsSorted (sort_entries es)
  unfolding sort_entries
  sort_entries-IsSorted [] = tt
  sort_entries-IsSorted (e ∷ es) =
      insert_entry-IsSorted e (sort_entries es) (sort_entries-IsSorted es)

-- No text stands before one that is earlier in the list.
abbrev pub AreSorted : List Bytes → Type 0
AreSorted [] = Unit
AreSorted (n ∷ ns) = All (λ m. text_lt m n ≡ false) ns × AreSorted ns

module _ {A : Type 0} where
  All-names :
      (n : Bytes) (es : List (Bytes × A))
      → All (λ f. text_lt f.0 n ≡ false) es
      → All (λ m. text_lt m n ≡ false) (names es)
  All-names n [] h = tt
  All-names n (e ∷ es) (h, hs) = (h, All-names n es hs)

  pub names-AreSorted : (es : List (Bytes × A)) → IsSorted es → AreSorted (names es)
  names-AreSorted [] h = tt
  names-AreSorted (e ∷ es) (h, hs) = (All-names e.0 es h, names-AreSorted es hs)

  -- What is added up over the entries does not depend on their order.
  abbrev pub total : (A → ℕ) → List (Bytes × A) → ℕ
  total f [] = 0
  total f (e ∷ es) = f e.1 + total f es

  total-insert_entry :
      (f : A → ℕ) (e : Bytes × A) (es : List (Bytes × A))
      → total f (insert_entry e es) ≡ f e.1 + total f es
  unfolding insert_entry
  total-insert_entry f e [] = refl
  total-insert_entry f e (g ∷ es) = elim (Bool-cases (text_lt g.0 e.0)) [
    | inl before ↦ rw before (omega (arith, total-insert_entry f e es))
    | inr behind ↦ rw behind
  ]

  pub total-sort_entries :
      (f : A → ℕ) (es : List (Bytes × A)) → total f (sort_entries es) ≡ total f es
  unfolding sort_entries
  total-sort_entries f [] = refl
  total-sort_entries f (e ∷ es) =
      omega (arith, total-insert_entry f e (sort_entries es), total-sort_entries f es)

  length-insert_entry :
      (e : Bytes × A) (es : List (Bytes × A)) → length (insert_entry e es) ≡ suc (length es)
  unfolding insert_entry
  length-insert_entry e [] = refl
  length-insert_entry e (f ∷ es) = elim (Bool-cases (text_lt f.0 e.0)) [
    | inl before ↦ rw before (omega (arith, length-insert_entry e es))
    | inr behind ↦ rw behind
  ]

  pub length-sort_entries : (es : List (Bytes × A)) → length (sort_entries es) ≡ length es
  unfolding sort_entries
  length-sort_entries [] = refl
  length-sort_entries (e ∷ es) =
      omega (arith, length-insert_entry e (sort_entries es), length-sort_entries es)
