-- ===== src/Table.antt =====
-- Go's maps with strings for keys: the list of the entries in the order in which a `range` loop meets
-- them.
use all2api.Prelude.{
  ◌≡◌, refl, ap, Option, none, some, List, [], ◌∷◌, if◌then◌else◌, Bool-cases, inl, inr,
}
use all2api.Text.{Bytes, text_eq}

unfoldable pub map_values {ℓ κ} :
    {A : Type ℓ} {B : Type κ} → (A → B) → List (Bytes × A) → List (Bytes × B)
map_values f [] = []
map_values f ((name, a) ∷ m) = (name, f a) ∷ map_values f m

-- A loop over the entries that replaces each value.
unfoldable pub map_entries {ℓ κ} :
    {A : Type ℓ} {B : Type κ} → (Bytes → A → B) → List (Bytes × A) → List (Bytes × B)
map_entries f [] = []
map_entries f ((name, a) ∷ m) = (name, f name a) ∷ map_entries f m

-- m[name]
unfoldable pub lookup {ℓ} : {A : Type ℓ} → Bytes → List (Bytes × A) → Option A
lookup name [] = none
lookup name ((n, a) ∷ m) = if text_eq n name then some a else lookup name m

-- The names of the entries, in their order.
abbrev pub names {ℓ} : {A : Type ℓ} → List (Bytes × A) → List Bytes
names [] = []
names ((name, a) ∷ m) = name ∷ names m

pub lookup-of_names {ℓ κ} :
    {A : Type ℓ} {B : Type κ} (name : Bytes) (m : List (Bytes × A)) (l : List (Bytes × B))
    → names m ≡ names l
    → lookup name l ≡ none
    → lookup name m ≡ none
unfolding lookup
lookup-of_names name [] l e h = refl
lookup-of_names name ((n, a) ∷ m) [] e h = cc
lookup-of_names name ((n, a) ∷ m) ((k, b) ∷ l) e h =
    let same : n ≡ k = cc in
    let rest : names m ≡ names l = cc in
    elim (Bool-cases (text_eq k name)) [
      | inl hit ↦ cc (rw hit at h)
      | inr miss ↦ rw (same, miss) (lookup-of_names name m l rest (rw miss at h))
    ]

pub names-map_values {ℓ κ} :
    {A : Type ℓ} {B : Type κ} (f : A → B) (m : List (Bytes × A)) → names (map_values f m) ≡ names m
unfolding map_values
names-map_values f [] = refl
names-map_values f ((n, a) ∷ m) = ap (λ l. n ∷ l) (names-map_values f m)
