-- ===== src/Text.antt =====
-- Go strings and the functions of package strings and strconv that the gateway calls: a string is
-- the list of its bytes. White space is that of unicode.IsSpace, in UTF-8.
pub mod Equality
pub mod Trim
pub mod Cut
pub mod Utf8
use Prim.Native.Char.{code}
use Prim.Native.String.{String}
use all2api.Prelude.{
  ℕ, zero, suc, ◌+◌, ◌-◌, ◌*◌, ◌/◌, ◌%◌, ◌^◌, Bool, true, false, ◌&&◌, ◌||◌, Option, none, some,
  List, [], ◌∷◌, ◌++◌, ltb, leb, ◌==◌, if◌then◌else◌, length, ℤ, pos, negsuc,
}
use mathlib.Core.List.{reverse}

abbrev pub Bytes : Type 0
Bytes = List ℕ

-- The bytes of an ASCII literal.
abbrev pub bytes : String → Bytes
bytes String.[] = []
bytes (String.◌∷◌ c s) = code c ∷ bytes s

unfoldable pub text_eq : Bytes → Bytes → Bool
text_eq [] [] = true
text_eq [] (b ∷ t) = false
text_eq (a ∷ s) [] = false
text_eq (a ∷ s) (b ∷ t) = a == b && text_eq s t

-- strings.HasPrefix; the rest behind the prefix.
unfoldable pub strip_prefix : Bytes → Bytes → Option Bytes
strip_prefix [] s = some s
strip_prefix (a ∷ p) [] = none
strip_prefix (a ∷ p) (b ∷ s) = if a == b then strip_prefix p s else none

-- The encodings of the white space characters.
abbrev pub spaces : List Bytes
spaces =
    (0x09 ∷ [])
    ∷ (0x0a ∷ [])
    ∷ (0x0b ∷ [])
    ∷ (0x0c ∷ [])
    ∷ (0x0d ∷ [])
    ∷ (0x20 ∷ [])
    ∷ (0xc2 ∷ 0x85 ∷ [])
    ∷ (0xc2 ∷ 0xa0 ∷ [])
    ∷ (0xe1 ∷ 0x9a ∷ 0x80 ∷ [])
    ∷ (0xe2 ∷ 0x80 ∷ 0x80 ∷ [])
    ∷ (0xe2 ∷ 0x80 ∷ 0x81 ∷ [])
    ∷ (0xe2 ∷ 0x80 ∷ 0x82 ∷ [])
    ∷ (0xe2 ∷ 0x80 ∷ 0x83 ∷ [])
    ∷ (0xe2 ∷ 0x80 ∷ 0x84 ∷ [])
    ∷ (0xe2 ∷ 0x80 ∷ 0x85 ∷ [])
    ∷ (0xe2 ∷ 0x80 ∷ 0x86 ∷ [])
    ∷ (0xe2 ∷ 0x80 ∷ 0x87 ∷ [])
    ∷ (0xe2 ∷ 0x80 ∷ 0x88 ∷ [])
    ∷ (0xe2 ∷ 0x80 ∷ 0x89 ∷ [])
    ∷ (0xe2 ∷ 0x80 ∷ 0x8a ∷ [])
    ∷ (0xe2 ∷ 0x80 ∷ 0xa8 ∷ [])
    ∷ (0xe2 ∷ 0x80 ∷ 0xa9 ∷ [])
    ∷ (0xe2 ∷ 0x80 ∷ 0xaf ∷ [])
    ∷ (0xe2 ∷ 0x81 ∷ 0x9f ∷ [])
    ∷ (0xe3 ∷ 0x80 ∷ 0x80 ∷ [])
    ∷ []

-- The text behind the first of the prefixes that fits.
strip_any : List Bytes → Bytes → Option Bytes
unfolding strip_prefix
strip_any [] s = none
strip_any (p ∷ ps) s = elim (strip_prefix p s) [ none ↦ strip_any ps s | some r ↦ some r ]

-- Drops prefixes of the set for as long as one fits. Each is not empty, so the length is enough.
trim_from : List Bytes → ℕ → Bytes → Bytes
unfolding strip_any
trim_from ps zero s = s
trim_from ps (suc fuel) s = elim (strip_any ps s) [ none ↦ s | some r ↦ trim_from ps fuel r ]

trim_left : List Bytes → Bytes → Bytes
unfolding trim_from
trim_left ps s = trim_from ps (length s) s

reverse_all : List Bytes → List Bytes
reverse_all [] = []
reverse_all (p ∷ ps) = reverse p ∷ reverse_all ps

trim_right : List Bytes → Bytes → Bytes
unfolding trim_left reverse_all
trim_right ps s = reverse (trim_left (reverse_all ps) (reverse s))

-- strings.TrimSpace
unfoldable pub trim_space : Bytes → Bytes
unfolding trim_left trim_right
trim_space s = trim_right spaces (trim_left spaces s)

-- strings.TrimRight with one cut byte
unfoldable pub trim_right_byte : ℕ → Bytes → Bytes
unfolding trim_right
trim_right_byte c s = trim_right ((c ∷ []) ∷ []) s

-- strings.IndexByte: what stands before the byte, and what begins with it.
unfoldable pub cut_before : ℕ → Bytes → Option Bytes × Bytes
cut_before c [] = (none, [])
cut_before c (b ∷ s) =
    let (before, rest) = cut_before c s in
    if b == c then (some [], b ∷ s) else (elim before [ none ↦ none | some p ↦ some (b ∷ p) ], rest)

abbrev pub to_lower : ℕ → ℕ
to_lower b = if leb b'A' b && leb b b'Z' then b + 32 else b

abbrev pub to_upper : ℕ → ℕ
to_upper b = if leb b'a' b && leb b b'z' then b - 32 else b

-- strings.EqualFold against an ASCII word without k and s, where only the two cases fold.
unfoldable pub equal_fold : Bytes → Bytes → Bool
equal_fold [] [] = true
equal_fold [] (b ∷ t) = false
equal_fold (a ∷ s) [] = false
equal_fold (a ∷ s) (b ∷ t) = to_lower a == to_lower b && equal_fold s t

-- The digits of strconv.Atoi.
atoi_digits : ℕ → Bytes → Option ℕ
atoi_digits n [] = some n
atoi_digits n (b ∷ s) =
    let rest = atoi_digits (n * 10 + (b - b'0')) s in
    if leb b'0' b && leb b b'9' then rest else none

-- A magnitude below the bound, with its sign.
atoi_signed : Bool → Option ℕ → Option ℤ
atoi_signed negative none = none
atoi_signed false (some n) = if ltb n (2 ^ 63) then some (pos n) else none
atoi_signed true (some n) =
    if n == 0 then some (pos 0) else if leb n (2 ^ 63) then some (negsuc (n - 1)) else none

atoi_body : Bool → Bytes → Option ℤ
unfolding atoi_digits atoi_signed
atoi_body negative [] = none
atoi_body negative (b ∷ s) = atoi_signed negative (atoi_digits 0 (b ∷ s))

-- strconv.Atoi; `none` is its error, for a syntax that is wrong and for a value out of range.
unfoldable pub atoi : Bytes → Option ℤ
unfolding atoi_body
atoi [] = none
atoi (b ∷ s) =
    if b == b'+'
    then atoi_body false s
    else if b == b'-'
    then atoi_body true s
    else atoi_body false (b ∷ s)

-- The decimal digits of a number; the number itself bounds how many there are.
digits : ℕ → ℕ → Bytes
digits zero n = []
digits (suc fuel) n =
    let front = digits fuel (n / 10) in (if ltb n 10 then [] else front) ++ (b'0' + n % 10) ∷ []

-- strconv.Itoa
unfoldable pub itoa : ℤ → Bytes
unfolding digits
itoa (pos n) = digits (suc n) n
itoa (negsuc n) = b'-' ∷ digits (suc (suc n)) (suc n)
