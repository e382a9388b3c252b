-- ===== src/Logstore/Tests.antt =====
-- A file of three events, and a line that is too long.
use all2api.Prelude.{
  ℕ, zero, suc, ◌≤◌, ◌≡◌, refl, inr, Option, none, some, [], ◌∷◌, arith, length, pos, ok, err,
}
use all2api.Text.{Bytes, bytes, text_eq}
use all2api.Logstore.{
  Event, Query, Store, max_token, limit_of, matches, line_event, too_long, append, read,
}
use all2api.Logstore.Window.{read-newest}
use all2api.Logstore.Long.{read-append_long}

-- An event whose JSON form is taken to be its message.
abbrev event : Bytes → Event
event message = record {
  time = 1;
  kind = bytes "proxy";
  level = bytes "info";
  message = message;
  platform = [];
  pool = [];
  key_label = [];
  method = [];
  path = [];
  status_code = 0;
  duration_ms = pos 0;
  attempts = 0;
  action = [];
  actor = [];
  error = [];
  remote_addr = [];
}

abbrev decode_message : Bytes → Option Event
decode_message line = some (event line)

abbrev encode_message : Event → Bytes
encode_message e = e.message

abbrev last_two : Query
last_two = record { limit = pos 2; kind = bytes "proxy"; level = []; platform = [] }

abbrev three_lines : Store
three_lines = record { lines = bytes "a" ∷ bytes "b" ∷ bytes "c" ∷ [] }

read-newest_example :
    read decode_message none last_two three_lines ≡ ok (event (bytes "c") ∷ event (bytes "b") ∷ [])
unfolding limit_of matches line_event text_eq
read-newest_example =
    read-newest decode_message last_two three_lines (omega arith, omega arith) (omega arith)

abbrev repeat : ℕ → Bytes
repeat zero = []
repeat (suc n) = b'x' ∷ repeat n

length-repeat : (n : ℕ) → length (repeat n) ≡ n
length-repeat zero = refl
length-repeat (suc n) = omega (arith, length-repeat n)

-- The message of an event that does not fit into a line.
long_message : Bytes
long_message = repeat 65536

length-long_message : max_token ≤ length long_message
unfolding long_message
length-long_message = omega (arith, length-repeat 65536)

read-append_long_example :
    read decode_message none last_two
      (append encode_message none (event long_message) three_lines).0
    ≡ err too_long
unfolding limit_of
read-append_long_example =
    read-append_long encode_message decode_message (event long_message) last_two three_lines
      (omega arith, omega arith) (inr length-long_message)
