-- ===== src/Ws/Json.antt =====
-- main/portal_ws.c: the JSON of the requests and of the events. The text from a pointer up to `end` is
-- the list of its bytes. The switch over the escapes, the encoding of a code point and the escapes that
-- are written are those of main/timers.c.
pub mod Decode
pub mod Encode
pub mod Find
use mqtt_broker_esp.Prelude.{
  ℕ, zero, suc, ◌+◌, List, [], ◌∷◌, ◌++◌, length, Bool, true, false, ◌&&◌, ◌||◌, ltb, leb, ◌==◌,
  bytes_eq, if◌then◌else◌, Option, none, some, codes,
}
use mqtt_broker_esp.Timers.Json.{escape, one_byte, store_then, escape_of}

abbrev is_json_ws : ℕ → Bool
is_json_ws c = (c == b' ') || (c == 9) || (c == 10) || (c == 13)

unfoldable pub json_skip_ws : List ℕ → List ℕ
json_skip_ws [] = []
json_skip_ws (c ∷ cs) = let rest = json_skip_ws cs in if is_json_ws c then rest else c ∷ cs

abbrev pub keep_byte : ℕ → Option (List ℕ × List ℕ) → Option (List ℕ × List ℕ)
keep_byte c none = none
keep_byte c (some (str, rest)) = some (c ∷ str, rest)

-- A string from behind its opening quote: its raw bytes, and the text behind the closing quote.
unfoldable pub raw_string : List ℕ → Option (List ℕ × List ℕ)
raw_string [] = none
raw_string (c ∷ []) = if c == b'"' then some ([], []) else none
raw_string (c ∷ d ∷ cs) =
    let escaped = keep_byte c (keep_byte d (raw_string cs)) in
    let plain = keep_byte c (raw_string (d ∷ cs)) in
    if c == b'"' then some ([], d ∷ cs) else if c == 92 then escaped else plain

abbrev pub behind_colon : List ℕ → Option (List ℕ)
behind_colon [] = none
behind_colon (c ∷ cs) = if c == b':' then some cs else none

-- The text behind a colon that follows.
unfoldable pub after_colon : List ℕ → Option (List ℕ)
unfolding json_skip_ws
after_colon text = behind_colon (json_skip_ws text)

-- What `after_colon` gives, or else what the search gives further on.
abbrev pub or_else : Option (List ℕ) → Option (List ℕ) → Option (List ℕ)
or_else none other = other
or_else (some found) other = some found

-- The search has met a string: it is over if the string is the key and a colon follows.
abbrev pub met_string :
    (key : List ℕ) (at_key : Bool) (next : List ℕ → Option (List ℕ))
    → Option (List ℕ × List ℕ)
    → Option (List ℕ)
met_string key at_key next none = none
met_string key at_key next (some (str, rest)) =
    or_else (if at_key && bytes_eq str key then after_colon rest else none) (next rest)

-- Each turn takes a byte at least, so that the text's length is enough fuel.
unfoldable pub find_from : (fuel : ℕ) (key : List ℕ) (at_key : Bool) → List ℕ → Option (List ℕ)
unfolding raw_string after_colon
find_from zero key at_key text = none
find_from (suc fuel) key at_key [] = none
find_from (suc fuel) key at_key (c ∷ cs) =
    let found = met_string key at_key (find_from fuel key at_key) (raw_string cs) in
    let rest =
      find_from fuel key
        (if (c == b'{') || (c == b',') then true else if c == b':' then false else at_key) cs in
    if c == b'"' then found else rest

-- The text behind the key and its colon.
unfoldable pub json_find_key : List ℕ → (key : List ℕ) → Option (List ℕ)
unfolding find_from
json_find_key text key = find_from (length text) key false text

-- The loop; every turn takes a byte of the text at least.
unfoldable pub decode_loop : (fuel out_size : ℕ) → List ℕ → (o : ℕ) → Option (List ℕ × List ℕ)
unfolding escape
decode_loop zero out_size text o = none
decode_loop (suc fuel) out_size [] o = none
decode_loop (suc fuel) out_size (c ∷ t) o =
    let escaped = store_then (decode_loop fuel out_size) o out_size (escape t) in
    let plain = store_then (decode_loop fuel out_size) o out_size (one_byte c t) in
    if c == b'"'
    then some ([], t)
    else if leb out_size (o + 1)
    then none
    else if c == 92
    then escaped
    else plain

-- The decoded bytes and the text behind the closing quote, or `none` for -1.
unfoldable pub json_decode_string : List ℕ → (out_size : ℕ) → Option (List ℕ × List ℕ)
unfolding decode_loop
json_decode_string [] out_size = none
json_decode_string (c ∷ t) out_size =
    let body = decode_loop (suc (length t)) out_size t 0 in if c == b'"' then body else none

-- `strncmp(p, word, strlen(word)) == 0`, with as many bytes left.
unfoldable pub starts_with : List ℕ → (word : List ℕ) → Bool
starts_with text [] = true
starts_with [] (w ∷ word) = false
starts_with (c ∷ text) (w ∷ word) = (c == w) && starts_with text word

unfoldable pub json_parse_bool : List ℕ → Option Bool
unfolding json_skip_ws starts_with
json_parse_bool text =
    if starts_with (json_skip_ws text) (codes "true")
    then some true
    else if starts_with (json_skip_ws text) (codes "false")
    then some false
    else none

-- Writes behind what the buffer holds; `%04x` never meets the end, since eight bytes are free.
unfoldable pub encode_from : (out_size : ℕ) → (out text : List ℕ) → Option (List ℕ)
encode_from out_size out [] = if leb out_size (length out) then none else some out
encode_from out_size out (c ∷ cs) =
    let rest = encode_from out_size (out ++ escape_of c) cs in
    if leb out_size (length out + 7) then none else rest

unfoldable pub json_encode_string : List ℕ → (out_size : ℕ) → Option (List ℕ)
unfolding encode_from
json_encode_string text out_size = encode_from out_size [] text
