-- ===== src/Timers/Json.antt =====
-- main/timers.c: the JSON strings and integers of the stored timers, as they are read and written. A
-- text is the list of its bytes; its end is the NUL.
pub mod Strings
pub mod Put
pub mod Shrinks
use mqtt_broker_esp.Prelude.{
  ℕ, zero, suc, ◌+◌, ◌-◌, ◌*◌, ◌/◌, ◌%◌, ◌^◌, ◌≤◌, List, [], ◌∷◌, ◌++◌, length, Bool, true, false,
  ◌&&◌, ◌||◌, not, ltb, leb, ◌==◌, if◌then◌else◌, Option, none, some, ℤ, pos, neg_ℕ, bit_and,
  bit_or,
}

infixl 5 ◌>>=◌ ◌>>◌
abbrev pub ◌>>=◌ {ℓ κ} : {A : Type ℓ} {B : Type κ} → Option A → (A → Option B) → Option B
none >>= f = none
some a >>= f = f a

abbrev pub ◌>>◌ {ℓ} : {B : Type ℓ} → Option (Unit {0}) → Option B → Option B
m >> k = m >>= λ _. k

abbrev pub require : Bool → Option (Unit {0})
require true = some tt
require false = none

abbrev pub is_ws : ℕ → Bool
is_ws c = (c == b' ') || (c == 9) || (c == 10) || (c == 13)

unfoldable pub skip_ws : List ℕ → List ℕ
skip_ws [] = []
skip_ws (c ∷ cs) = let rest = skip_ws cs in if is_ws c then rest else c ∷ cs

unfoldable pub hex_digit : ℕ → Option ℕ
hex_digit h =
    if leb b'0' h && leb h b'9'
    then some (h - b'0')
    else if leb b'a' h && leb h b'f'
    then some (h - b'a' + 10)
    else if leb b'A' h && leb h b'F'
    then some (h - b'A' + 10)
    else none

unfoldable pub utf8_bytes : (cp : ℕ) → List ℕ
utf8_bytes cp =
    if ltb cp 0x80
    then cp ∷ []
    else if ltb cp 0x800
    then bit_or 0xC0 (cp / 2 ^ 6) ∷ bit_or 0x80 (bit_and cp 0x3F) ∷ []
    else bit_or 0xE0 (cp / 2 ^ 12)
      ∷ bit_or 0x80 (bit_and (cp / 2 ^ 6) 0x3F)
      ∷ bit_or 0x80 (bit_and cp 0x3F)
      ∷ []

-- `\uXXXX`, from the first digit on.
unfoldable pub unicode_escape : List ℕ → Option (List ℕ × List ℕ)
unfolding hex_digit utf8_bytes
unicode_escape (a ∷ b ∷ c ∷ d ∷ rest) = do
  x ← hex_digit a
  y ← hex_digit b
  z ← hex_digit c
  w ← hex_digit d
  some (utf8_bytes (x * 2 ^ 12 + y * 2 ^ 8 + z * 2 ^ 4 + w), rest)
unicode_escape _ = none

abbrev pub one_byte : ℕ → List ℕ → Option (List ℕ × List ℕ)
one_byte dec rest = some (dec ∷ [], rest)

-- What follows a backslash: the bytes it stands for, and the text behind it.
unfoldable pub escape : List ℕ → Option (List ℕ × List ℕ)
unfolding unicode_escape
escape [] = none
escape (e ∷ t) =
    let unicode = unicode_escape t in
    if e == b'"'
    then one_byte b'"' t
    else if e == 92
    then one_byte 92 t
    else if e == b'/'
    then one_byte b'/' t
    else if e == b'n'
    then one_byte 10 t
    else if e == b'r'
    then one_byte 13 t
    else if e == b't'
    then one_byte 9 t
    else if e == b'b'
    then one_byte 8 t
    else if e == b'f'
    then one_byte 12 t
    else if e == b'u'
    then unicode
    else none

-- Stores decoded bytes at offset `o` and goes on behind them.
abbrev pub store_then :
    (next : List ℕ → ℕ → Option (List ℕ × List ℕ)) (o out_size : ℕ)
    → Option (List ℕ × List ℕ)
    → Option (List ℕ × List ℕ)
store_then next o out_size decoded = do
  (bytes, rest) ← decoded
  require (ltb (o + length bytes) out_size)
  (more, rest) ← next rest (o + length bytes)
  some (bytes ++ more, rest)

-- The loop, which a NUL ends without a closing quote; every turn takes a byte of the text at least, so that the text's length is enough fuel.
unfoldable pub string_loop : (fuel out_size : ℕ) → List ℕ → (o : ℕ) → Option (List ℕ × List ℕ)
unfolding escape
string_loop zero out_size text o = none
string_loop (suc fuel) out_size [] o = none
string_loop (suc fuel) out_size (c ∷ t) o =
    let escaped = store_then (string_loop fuel out_size) o out_size (escape t) in
    let plain = store_then (string_loop fuel out_size) o out_size (one_byte c t) in
    if c == b'"' then some ([], t) else if c == 0 then none else if c == 92 then escaped else plain

-- The string and the text behind its closing quote, or `none` for -1.
unfoldable pub parse_json_string : (text : List ℕ) (out_size : ℕ) → Option (List ℕ × List ℕ)
unfolding string_loop
parse_json_string [] out_size = none
parse_json_string (c ∷ t) out_size =
    let body = string_loop (suc (length t)) out_size t 0 in if c == b'"' then body else none

abbrev pub is_digit : ℕ → Bool
is_digit c = leb b'0' c && leb c b'9'

-- The value of the digits in front, and the text behind them.
unfoldable pub read_digits : List ℕ → (acc : ℕ) → ℕ × List ℕ
read_digits [] acc = (acc, [])
read_digits (c ∷ cs) acc =
    let rest = read_digits cs (acc * 10 + (c - b'0')) in if is_digit c then rest else (acc, c ∷ cs)

abbrev pub starts_with_digit : List ℕ → Bool
starts_with_digit [] = false
starts_with_digit (c ∷ cs) = is_digit c

-- The `strtol` of a text behind its sign; `long` has 32 bits.
abbrev pub unsigned_part : (limit : ℕ) → (ℕ → ℤ) → List ℕ → Option (ℤ × List ℕ)
unsigned_part limit sign text =
    let r = read_digits text 0 in
    if starts_with_digit text then if ltb limit r.0 then none else some (sign r.0, r.1) else none

unfoldable pub parse_signed : List ℕ → Option (ℤ × List ℕ)
unfolding read_digits
parse_signed [] = none
parse_signed (c ∷ cs) =
    let negative = unsigned_part (2 ^ 31) neg_ℕ cs in
    let positive = unsigned_part (2 ^ 31 - 1) pos cs in
    let plain = unsigned_part (2 ^ 31 - 1) pos (c ∷ cs) in
    if c == b'-' then negative else if c == b'+' then positive else plain

-- `isspace`, which `strtol` skips.
abbrev pub is_space : ℕ → Bool
is_space c = (c == b' ') || leb 9 c && leb c 13

unfoldable pub skip_space : List ℕ → List ℕ
skip_space [] = []
skip_space (c ∷ cs) = let rest = skip_space cs in if is_space c then rest else c ∷ cs

unfoldable pub parse_json_int : List ℕ → Option (ℤ × List ℕ)
unfolding skip_space parse_signed
parse_json_int text = parse_signed (skip_space text)

-- The loop over a string of `skip_json_value`: it stops at the closing quote or at the end.
unfoldable pub skip_chars : List ℕ → List ℕ
skip_chars [] = []
skip_chars (c ∷ []) = if c == b'"' then c ∷ [] else []
skip_chars (c ∷ d ∷ cs) =
    let escaped = skip_chars cs in
    let plain = skip_chars (d ∷ cs) in
    if c == b'"' then c ∷ d ∷ cs else if c == 92 then escaped else plain

abbrev pub is_open : ℕ → Bool
is_open c = (c == b'{') || (c == b'[')

abbrev pub is_close : ℕ → Bool
is_close c = (c == b'}') || (c == b']')

abbrev pub after_one : List ℕ → List ℕ
after_one [] = []
after_one (c ∷ cs) = cs

-- The loop over an object or an array; every turn takes a byte at least. A closing bracket at depth 1
-- ends it, whichever it is.
unfoldable pub skip_nested : (fuel : ℕ) → List ℕ → (depth : ℕ) → List ℕ
unfolding skip_chars
skip_nested zero text depth = text
skip_nested (suc fuel) [] depth = []
skip_nested (suc fuel) (c ∷ cs) depth =
    let behind_string = skip_nested fuel (after_one (skip_chars cs)) depth in
    let deeper = skip_nested fuel cs (depth + 1) in
    let shallower = skip_nested fuel cs (depth - 1) in
    let same = skip_nested fuel cs depth in
    if depth == 0
    then c ∷ cs
    else if c == b'"'
    then behind_string
    else if is_open c
    then deeper
    else if is_close c
    then shallower
    else same

unfoldable pub skip_scalar : List ℕ → List ℕ
skip_scalar [] = []
skip_scalar (c ∷ cs) =
    let rest = skip_scalar cs in if (c == b',') || is_close c || is_ws c then c ∷ cs else rest

abbrev pub closed_string : List ℕ → Option (List ℕ)
closed_string [] = none
closed_string (c ∷ cs) = some cs

abbrev pub skip_value_at : List ℕ → Option (List ℕ)
skip_value_at [] = some []
skip_value_at (c ∷ cs) =
    let string = closed_string (skip_chars cs) in
    let nested = some (skip_nested (length cs) cs 1) in
    let scalar = some (skip_scalar (c ∷ cs)) in
    if c == b'"' then string else if is_open c then nested else scalar

unfoldable pub skip_json_value : List ℕ → Option (List ℕ)
unfolding skip_ws skip_chars skip_nested skip_scalar
skip_json_value text = skip_value_at (skip_ws text)

-- What follows an optional escape: "\uXXXX" for the other control characters.
abbrev pub hex_char : ℕ → ℕ
hex_char x = if ltb x 10 then b'0' + x else b'a' + (x - 10)

abbrev pub escape_of : ℕ → List ℕ
escape_of c =
    if c == b'"'
    then 92 ∷ b'"' ∷ []
    else if c == 92
    then 92 ∷ 92 ∷ []
    else if c == 10
    then 92 ∷ b'n' ∷ []
    else if c == 13
    then 92 ∷ b'r' ∷ []
    else if c == 9
    then 92 ∷ b't' ∷ []
    else if c == 8
    then 92 ∷ b'b' ∷ []
    else if c == 12
    then 92 ∷ b'f' ∷ []
    else if ltb c 0x20
    then 92 ∷ b'u' ∷ b'0' ∷ b'0' ∷ hex_char (c / 16) ∷ hex_char (c % 16) ∷ []
    else c ∷ []

-- Writes a piece behind what the buffer holds, if a byte stays free.
abbrev pub put : (bufsz : ℕ) → (buf piece : List ℕ) → Option (List ℕ)
put bufsz buf piece = if ltb (length buf + length piece) bufsz then some (buf ++ piece) else none

unfoldable pub put_escaped : (bufsz : ℕ) → (buf s : List ℕ) → Option (List ℕ)
put_escaped bufsz buf [] = some buf
put_escaped bufsz buf (c ∷ cs) = put bufsz buf (escape_of c) >>= λ buf. put_escaped bufsz buf cs

unfoldable pub append_json_string : (bufsz : ℕ) → (buf s : List ℕ) → Option (List ℕ)
unfolding put_escaped
append_json_string bufsz buf s = do
  buf ← put bufsz buf (b'"' ∷ [])
  buf ← put_escaped bufsz buf s
  put bufsz buf (b'"' ∷ [])

-- `%u`: the digits of a number below 10 ^ fuel, before a text.
unfoldable pub decimal : (fuel n : ℕ) → List ℕ → List ℕ
decimal zero n text = text
decimal (suc fuel) n text =
    let more = decimal fuel (n / 10) ((b'0' + n % 10) ∷ text) in
    if ltb n 10 then (b'0' + n) ∷ text else more
