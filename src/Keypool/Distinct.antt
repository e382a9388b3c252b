-- ===== src/Keypool/Distinct.antt =====
-- Keys of a pool whose labels are distinct: a label names one key.
use all2api.Prelude.{◌≡◌, ◌≢◌, ◌⊎◌, inl, inr, List, [], ◌∷◌, map, All}
use all2api.Text.{Bytes}
use all2api.Keypool.{KeyState}
use all2api.Keypool.Blocked.{HasDistinctLabels}

-- The state is one of the list.
abbrev pub Holds : KeyState → List KeyState → Type 0
Holds j [] = ⊥
Holds j (k ∷ ks) = (k ≡ j) ⊎ Holds j ks

abbrev pub label_of : KeyState → Bytes
label_of k = k.label

pub Holds-label :
    (l : Bytes) (j : KeyState) (ks : List KeyState)
    → Holds j ks
    → All (λ k. k.label ≢ l) ks
    → j.label ≢ l
Holds-label l j [] m h = elim m [ ]
Holds-label l j (k ∷ ks) (inl e) (h, hs) = rw (← e) h
Holds-label l j (k ∷ ks) (inr m) (h, hs) = Holds-label l j ks m hs

All-of_labels :
    (l : Bytes) (ks js : List KeyState)
    → map label_of ks ≡ map label_of js
    → All (λ k. k.label ≢ l) ks
    → All (λ k. k.label ≢ l) js
All-of_labels l ks [] e h = tt
All-of_labels l [] (j ∷ js) e h = cc
All-of_labels l (k ∷ ks) (j ∷ js) e (p, h) =
    let same : k.label ≡ j.label = cc in (rw (← same) p, All-of_labels l ks js (cc) h)

pub HasDistinctLabels-of_labels :
    (ks js : List KeyState)
    → map label_of ks ≡ map label_of js
    → HasDistinctLabels ks
    → HasDistinctLabels js
HasDistinctLabels-of_labels ks [] e h = tt
HasDistinctLabels-of_labels [] (j ∷ js) e h = cc
HasDistinctLabels-of_labels (k ∷ ks) (j ∷ js) e (p, h) =
    let same : k.label ≡ j.label = cc in
    let rest : map label_of ks ≡ map label_of js = cc in
    (rw (← same) (All-of_labels k.label ks js rest p), HasDistinctLabels-of_labels ks js rest h)
