-- ===== src/Config/Form.antt =====
-- Forms of values that can be read back, whatever follows them.
use all2api.Prelude.{
  ℕ, zero, suc, ◌≡◌, refl, Bool, true, false, Option, none, some, List, [], ◌∷◌, ◌++◌, append_assoc,
  length, ℤ, pos, negsuc,
}
use all2api.Text.{Bytes}

-- What is written can be read, whatever follows it.
pub record Form (A : Type 0) : Type 0 where
  pub write : A → Bytes
  pub read : Bytes → Option (A × Bytes)
  pub read-write : (a : A) (rest : Bytes) → read (write a ++ rest) ≡ some (a, rest)

abbrev pub read_number : Bytes → Option (ℕ × Bytes)
read_number [] = none
read_number (n ∷ s) = some (n, s)

abbrev pub number : Form ℕ
number = record { write = λ n. n ∷ []; read = read_number; read-write = λ n rest. refl }

module _ {A B : Type 0} (f : Form A) (to : B → A) (from : A → B)
    (back : (b : B) → from (to b) ≡ b) where
  unfoldable pub read_via : Bytes → Option (B × Bytes)
  read_via s = elim (f.read s) [ none ↦ none | some (a, r) ↦ some (from a, r) ]

  pub read_via-write : (b : B) (rest : Bytes) → read_via (f.write (to b) ++ rest) ≡ some (b, rest)
  unfolding read_via
  read_via-write b rest = rw (f.read-write (to b) rest, read_via) (rw (back b))

  abbrev pub via : Form B
  via = record { write = λ b. f.write (to b); read = read_via; read-write = read_via-write }

module _ {A B : Type 0} (f : Form A) (g : Form B) where
  unfoldable pub read_pair : Bytes → Option ((A × B) × Bytes)
  read_pair s = elim (f.read s) [
    | none ↦ none
    | some (a, r) ↦ elim (g.read r) [ none ↦ none | some (b, r') ↦ some ((a, b), r') ]
  ]

  pub read_pair-write :
      (p : A × B) (rest : Bytes) → read_pair ((f.write p.0 ++ g.write p.1) ++ rest) ≡ some (p, rest)
  unfolding read_pair
  read_pair-write (a, b) rest =
      rw (append_assoc (f.write a) (g.write b) rest)
        (rw (f.read-write a (g.write b ++ rest), read_pair) (rw (g.read-write b rest)))

  abbrev pub pair : Form (A × B)
  pair = record {
    write = λ p. f.write p.0 ++ g.write p.1;
    read = read_pair;
    read-write = read_pair-write;
  }

module _ {A : Type 0} (f : Form A) where
  unfoldable pub write_all : List A → Bytes
  write_all [] = []
  write_all (x ∷ xs) = f.write x ++ write_all xs

  unfoldable pub read_all : ℕ → Bytes → Option (List A × Bytes)
  read_all zero s = some ([], s)
  read_all (suc n) s = elim (f.read s) [
    | none ↦ none
    | some (x, r) ↦ elim (read_all n r) [ none ↦ none | some (xs, r') ↦ some (x ∷ xs, r') ]
  ]

  read_all-write :
      (xs : List A) (rest : Bytes) → read_all (length xs) (write_all xs ++ rest) ≡ some (xs, rest)
  unfolding read_all write_all
  read_all-write [] rest = refl
  read_all-write (x ∷ xs) rest =
      rw (append_assoc (f.write x) (write_all xs) rest)
        (rw (f.read-write x (write_all xs ++ rest), read_all) (rw (read_all-write xs rest)))

  unfoldable pub read_list : Bytes → Option (List A × Bytes)
  unfolding read_all
  read_list [] = none
  read_list (n ∷ s) = read_all n s

  pub read_list-write :
      (xs : List A) (rest : Bytes)
      → read_list ((length xs ∷ write_all xs) ++ rest) ≡ some (xs, rest)
  unfolding read_list
  read_list-write xs rest = read_all-write xs rest

  abbrev pub list : Form (List A)
  list = record {
    write = λ xs. length xs ∷ write_all xs;
    read = read_list;
    read-write = read_list-write;
  }

abbrev pub signed_of : ℕ × ℕ → ℤ
signed_of (zero, n) = pos n
signed_of (suc s, n) = negsuc n

abbrev pub parts_of : ℤ → ℕ × ℕ
parts_of (pos n) = (0, n)
parts_of (negsuc n) = (1, n)

pub signed_of-parts_of : (z : ℤ) → signed_of (parts_of z) ≡ z
signed_of-parts_of (pos n) = refl
signed_of-parts_of (negsuc n) = refl

abbrev pub bit_of : Bool → ℕ
bit_of true = 1
bit_of false = 0

abbrev pub flag_of : ℕ → Bool
flag_of zero = false
flag_of (suc n) = true

pub flag_of-bit_of : (b : Bool) → flag_of (bit_of b) ≡ b
flag_of-bit_of true = refl
flag_of-bit_of false = refl

abbrev pub int : Form ℤ
int = via (pair number number) parts_of signed_of signed_of-parts_of

abbrev pub flag : Form Bool
flag = via number bit_of flag_of flag_of-bit_of

abbrev pub bytes_form : Form Bytes
bytes_form = list number

abbrev pub pair_of_bytes : Form (Bytes × Bytes)
pair_of_bytes = pair bytes_form bytes_form
