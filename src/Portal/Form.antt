-- ===== src/Portal/Form.antt =====
-- main/portal_berry.c: the fields of a form of any size, the tokens of a request, and the escaping of
-- text for a page; `urldecode_param` of main/portal.c for the short forms. `strtol` is that of the C
-- library, on the two characters behind a '%'.
pub mod RoundTrip
pub mod Escape
pub mod Fields
use mqtt_broker_esp.Prelude.{
  ℕ, zero, suc, ◌+◌, ◌-◌, ◌*◌, ◌%◌, List, [], ◌∷◌, ◌++◌, length, take, drop, get_or, Bool, true,
  false, ◌&&◌, ◌||◌, ltb, leb, ◌==◌, bytes_eq, if◌then◌else◌, Option, none, some, codes,
}
use mqtt_broker_esp.Timers.Json.{hex_digit, is_space}
use mqtt_broker_esp.Portal.Http.{cons_first}

-- The digit that follows blanks or a sign, or 0.
abbrev pub digit_or_zero : Option ℕ → ℕ
digit_or_zero none = 0
digit_or_zero (some y) = y

abbrev pub two_digits : (x : ℕ) → Option ℕ → ℕ
two_digits x none = x
two_digits x (some y) = x * 16 + y

-- `(char)strtol(h, NULL, 16)` of two characters, as a byte.
unfoldable pub strtol_hex : (a b : ℕ) → ℕ
unfolding hex_digit
strtol_hex a b = elim (hex_digit a) [
  | some x ↦ two_digits x (hex_digit b)
  | none ↦
      if is_space a || (a == b'+')
      then digit_or_zero (hex_digit b)
      else if a == b'-'
      then (256 - digit_or_zero (hex_digit b)) % 256
      else 0
]

-- `room` bytes are free, the last of them for the NUL.
unfoldable pub urldecode_loop : (room : ℕ) → List ℕ → List ℕ
unfolding strtol_hex
urldecode_loop zero enc = []
urldecode_loop (suc zero) enc = []
urldecode_loop (suc (suc room)) [] = []
urldecode_loop (suc (suc room)) (c ∷ []) = (if c == b'+' then b' ' else c) ∷ []
urldecode_loop (suc (suc room)) (c ∷ d ∷ []) =
    (if c == b'+' then b' ' else c) ∷ urldecode_loop (suc room) (d ∷ [])
urldecode_loop (suc (suc room)) (c ∷ d ∷ e ∷ enc) =
    let escaped = strtol_hex d e ∷ urldecode_loop (suc room) enc in
    let plain = (if c == b'+' then b' ' else c) ∷ urldecode_loop (suc room) (d ∷ e ∷ enc) in
    if c == b'%' then escaped else plain

unfoldable pub urldecode_into : (enc : List ℕ) (outsz : ℕ) → List ℕ
unfolding urldecode_loop
urldecode_into enc outsz = urldecode_loop outsz enc

-- The bytes up to the next '&'.
unfoldable pub to_ampersand : List ℕ → List ℕ
to_ampersand [] = []
to_ampersand (c ∷ cs) = let rest = to_ampersand cs in if c == b'&' then [] else c ∷ rest

-- `key=` stands here: the text behind it.
unfoldable pub behind_key : (key : List ℕ) → List ℕ → Option (List ℕ)
behind_key [] [] = none
behind_key [] (c ∷ text) = if c == b'=' then some text else none
behind_key (k ∷ key) [] = none
behind_key (k ∷ key) (c ∷ text) = if c == k then behind_key key text else none

abbrev pub value_or : Option (List ℕ) → (other : List ℕ) (outsz : ℕ) → List ℕ
value_or none other outsz = other
value_or (some text) other outsz = urldecode_into (to_ampersand text) outsz

-- The walk over the body; `at_start` says that it is the body or that a '&' stands before it.
unfoldable pub find_field : (at_start : Bool) (body key : List ℕ) (outsz : ℕ) → List ℕ
unfolding behind_key to_ampersand urldecode_into
find_field at_start [] key outsz = []
find_field at_start (c ∷ body) key outsz =
    let later = find_field (c == b'&') body key outsz in
    if at_start then value_or (behind_key key (c ∷ body)) later outsz else later

unfoldable pub form_get_field : (body key : List ℕ) (outsz : ℕ) → List ℕ
unfolding find_field
form_get_field body key outsz = if outsz == 0 then [] else find_field true body key outsz

-- The tokens between separators, as `strtok` has them: none is empty.
abbrev pub flush : (token : List ℕ) → List (List ℕ) → List (List ℕ)
flush [] tokens = tokens
flush (c ∷ token) tokens = (c ∷ token) ∷ tokens

unfoldable pub tokens : (token : List ℕ) → List ℕ → List (List ℕ)
tokens token [] = flush token []
tokens token (c ∷ cs) =
    let over = flush token (tokens [] cs) in
    let longer = tokens (token ++ (c ∷ [])) cs in if c == b'&' then over else longer

-- A token at its first '='.
unfoldable pub split_equals : List ℕ → Option (List ℕ × List ℕ)
split_equals [] = none
split_equals (c ∷ cs) =
    let rest = cons_first c (split_equals cs) in if c == b'=' then some ([], cs) else rest

abbrev pub value_of_token :
    (key : List ℕ) (out_size : ℕ) → Option (List ℕ × List ℕ) → Option (List ℕ) → Option (List ℕ)
value_of_token key out_size none later = later
value_of_token key out_size (some (k, value)) later =
    if bytes_eq k key then some (urldecode_loop out_size value) else later

unfoldable pub find_token : (key : List ℕ) (out_size : ℕ) → List (List ℕ) → Option (List ℕ)
unfolding split_equals urldecode_loop
find_token key out_size [] = none
find_token key out_size (token ∷ rest) =
    value_of_token key out_size (split_equals token) (find_token key out_size rest)

-- `none` is NULL.
unfoldable pub urldecode_param : (body key : List ℕ) (out_size : ℕ) → Option (List ℕ)
unfolding find_token tokens
urldecode_param body key out_size =
    if out_size == 0 then none else find_token key out_size (tokens [] (take 511 body))

abbrev pub escape_byte : ℕ → List ℕ
escape_byte c =
    if c == b'<'
    then codes "&lt;"
    else if c == b'>'
    then codes "&gt;"
    else if c == b'&'
    then codes "&amp;"
    else if c == b'"'
    then codes "&quot;"
    else c ∷ []

-- The loop, with what is written; six bytes and the NUL must fit for the next turn.
unfoldable pub escape_loop : (outsz : ℕ) (out text : List ℕ) → List ℕ
escape_loop outsz out [] = out
escape_loop outsz out (c ∷ cs) =
    let rest = escape_loop outsz (out ++ escape_byte c) cs in
    if ltb (length out + 6) outsz then rest else out

unfoldable pub html_escape : (text : List ℕ) (outsz : ℕ) → List ℕ
unfolding escape_loop
html_escape text outsz = if outsz == 0 then [] else escape_loop outsz [] text
