-- ===== src/Text/Utf8.antt =====
-- UTF-8: the bytes of a literal, and the runes that a `range` loop reads from a string.
use Prim.Native.Char.{code}
use Prim.Native.String.{String}
use all2api.Prelude.{
  ℕ, zero, suc, ◌≡◌, refl, ◌+◌, ◌*◌, ◌/◌, ◌%◌, Bool, ◌&&◌, List, [], ◌∷◌, ◌++◌, ltb, leb, ◌==◌,
  if◌then◌else◌, length,
}
use all2api.Text.{Bytes}

abbrev continuation : ℕ → ℕ
continuation c = 128 + c % 64

-- The encoding of one rune.
abbrev encode_rune : ℕ → Bytes
encode_rune c =
    if ltb c 0x80
    then c ∷ []
    else if ltb c 0x800
    then (0xc0 + c / 64) ∷ continuation c ∷ []
    else if ltb c 0x10000
    then (0xe0 + c / 4096) ∷ continuation (c / 64) ∷ continuation c ∷ []
    else (0xf0 + c / 262144) ∷ continuation (c / 4096) ∷ continuation (c / 64) ∷ continuation c ∷ []

-- The bytes of a literal.
unfoldable pub utf8 : String → Bytes
utf8 String.[] = []
utf8 (String.◌∷◌ c s) = encode_rune (code c) ++ utf8 s

abbrev pub rune_error : ℕ
rune_error = 0xfffd

-- The first continuation byte is bounded so that no rune has two encodings and none is a surrogate
-- or too large; the later ones are not.
abbrev low : ℕ → ℕ
low b = if b == 0xe0 then 0xa0 else if b == 0xf0 then 0x90 else 0x80

abbrev high : ℕ → ℕ
high b = if b == 0xed then 0x9f else if b == 0xf4 then 0x8f else 0xbf

abbrev within : ℕ → ℕ → ℕ → Bool
within lo hi c = leb lo c && leb c hi

two_bytes : ℕ → Bytes → ℕ × Bytes
two_bytes b [] = (rune_error, [])
two_bytes b (c ∷ t) = if within 0x80 0xbf c then (b % 32 * 64 + c % 64, t) else (rune_error, c ∷ t)

three_bytes : ℕ → Bytes → ℕ × Bytes
three_bytes b [] = (rune_error, [])
three_bytes b (c ∷ []) = (rune_error, c ∷ [])
three_bytes b (c ∷ d ∷ t) =
    if within (low b) (high b) c && within 0x80 0xbf d
    then (b % 16 * 4096 + c % 64 * 64 + d % 64, t)
    else (rune_error, c ∷ d ∷ t)

four_bytes : ℕ → Bytes → ℕ × Bytes
four_bytes b [] = (rune_error, [])
four_bytes b (c ∷ []) = (rune_error, c ∷ [])
four_bytes b (c ∷ d ∷ []) = (rune_error, c ∷ d ∷ [])
four_bytes b (c ∷ d ∷ e ∷ t) =
    if within (low b) (high b) c && (within 0x80 0xbf d && within 0x80 0xbf e)
    then (b % 8 * 262144 + c % 64 * 4096 + d % 64 * 64 + e % 64, t)
    else (rune_error, c ∷ d ∷ e ∷ t)

-- utf8.DecodeRuneInString: the rune and what stands behind it. A byte that begins no encoding is an
-- error of its own.
unfoldable pub decode_rune : ℕ → Bytes → ℕ × Bytes
unfolding two_bytes three_bytes four_bytes
decode_rune b t =
    if ltb b 0x80
    then (b, t)
    else if ltb b 0xc2
    then (rune_error, t)
    else if ltb b 0xe0
    then two_bytes b t
    else if ltb b 0xf0
    then three_bytes b t
    else if ltb b 0xf5
    then four_bytes b t
    else (rune_error, t)

runes_from : ℕ → Bytes → List ℕ
unfolding decode_rune
runes_from zero s = []
runes_from (suc fuel) [] = []
runes_from (suc fuel) (b ∷ s) = let (r, rest) = decode_rune b s in r ∷ runes_from fuel rest

-- The runes of a string. Each takes a byte at least, so the length is enough.
unfoldable pub runes : Bytes → List ℕ
unfolding runes_from
runes s = runes_from (length s) s

runes_test : runes (utf8 "a£ह😀") ≡ 0x61 ∷ 0xa3 ∷ 0x939 ∷ 0x1f600 ∷ []
unfolding runes utf8
runes_test = refl

runes_error_test :
    runes (0xe0 ∷ 0x80 ∷ 0x41 ∷ 0xc3 ∷ []) ≡ rune_error ∷ rune_error ∷ 0x41 ∷ rune_error ∷ []
unfolding runes
runes_error_test = refl
