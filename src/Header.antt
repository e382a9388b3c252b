-- ===== src/Header.antt =====
-- http.Header of the standard library: a map from canonical names to lists of values, here the
-- list of its entries in the order in which a `range` loop meets them.
pub mod Laws
use all2api.Prelude.{
  ℕ, Bool, true, false, ◌&&◌, ◌||◌, List, [], ◌∷◌, ◌++◌, leb, ◌==◌, if◌then◌else◌,
}
use all2api.Text.{Bytes, bytes, text_eq, to_lower, to_upper}

abbrev pub Header : Type 0
Header = List (Bytes × List Bytes)

abbrev pub is_upper : ℕ → Bool
is_upper b = leb b'A' b && leb b b'Z'

abbrev pub is_lower : ℕ → Bool
is_lower b = leb b'a' b && leb b b'z'

abbrev mem_byte : ℕ → Bytes → Bool
mem_byte b [] = false
mem_byte b (c ∷ s) = b == c || mem_byte b s

-- The bytes of a token: letters, digits and these signs.
unfoldable pub is_token_byte : ℕ → Bool
is_token_byte b =
    is_lower b || is_upper b || leb b'0' b && leb b b'9' || mem_byte b (bytes "!#$%&'*+-.^_`|~")

unfoldable pub is_token : Bytes → Bool
is_token [] = true
is_token (b ∷ s) = is_token_byte b && is_token s

-- A letter at the beginning and behind a dash is upper case, any other is lower case.
unfoldable pub canonical_from : Bool → Bytes → Bytes
canonical_from upper [] = []
canonical_from upper (b ∷ s) =
    let c = if upper then to_upper b else to_lower b in c ∷ canonical_from (c == b'-') s

-- http.CanonicalHeaderKey: a name that is no token is left as it is.
unfoldable pub canonical : Bytes → Bytes
unfolding is_token canonical_from is_token_byte
canonical s = if is_token s then canonical_from true s else s

-- h[name], the values of an entry.
unfoldable pub values : Header → Bytes → List Bytes
values [] name = []
values ((n, vs) ∷ h) name = if text_eq n name then vs else values h name

abbrev first_or_empty : List Bytes → Bytes
first_or_empty [] = []
first_or_empty (v ∷ vs) = v

-- h.Get(name)
unfoldable pub get : Header → Bytes → Bytes
unfolding values canonical
get h name = first_or_empty (values h (canonical name))

unfoldable pub put : Header → Bytes → List Bytes → Header
put [] name vs = (name, vs) ∷ []
put ((n, ws) ∷ h) name vs = if text_eq n name then (n, vs) ∷ h else (n, ws) ∷ put h name vs

-- h.Set(name, v)
unfoldable pub set : Header → Bytes → Bytes → Header
unfolding put canonical
set h name v = put h (canonical name) (v ∷ [])

-- h.Add(name, v)
unfoldable pub add : Header → Bytes → Bytes → Header
unfolding put values canonical
add h name v = put h (canonical name) (values h (canonical name) ++ v ∷ [])

-- A loop that adds values one by one.
unfoldable pub add_all : Header → Bytes → List Bytes → Header
unfolding add
add_all h name [] = h
add_all h name (v ∷ vs) = add_all (add h name v) name vs
