-- ===== src/Csrf.antt =====
-- main/csrf.c: the token against cross-site requests. A C string is the list of its bytes before the
-- NUL, and NULL is `none`.
pub mod Verify
pub mod Form
pub mod Accepted
mod Tests
use mqtt_broker_esp.Prelude.{
  ℕ, zero, suc, ◌+◌, ◌/◌, List, [], ◌∷◌, Bool, true, false, ◌&&◌, length, drop, bit_and, bit_or,
  bit_xor, ltb, leb, ◌==◌, if◌then◌else◌, Option, none, some,
}

-- `hex_chars[n]`
abbrev pub hex_char : ℕ → ℕ
hex_char n = if ltb n 10 then b'0' + n else 87 + n

unfoldable pub bytes_to_hex : List ℕ → List ℕ
bytes_to_hex [] = []
bytes_to_hex (b ∷ bs) =
    hex_char (bit_and (b / 16) 0x0F) ∷ hex_char (bit_and b 0x0F) ∷ bytes_to_hex bs

-- The loop of `ct_streq` over strings of one length.
unfoldable pub diff_loop : (a b : List ℕ) (diff : ℕ) → ℕ
diff_loop (x ∷ xs) (y ∷ ys) diff = diff_loop xs ys (bit_or diff (bit_xor x y))
diff_loop [] ys diff = diff
diff_loop (x ∷ xs) [] diff = diff

unfoldable pub ct_streq : List ℕ → List ℕ → Bool
unfolding diff_loop
ct_streq a b = if length a == length b then diff_loop a b 0 == 0 else false

abbrev pub token_buf_size : ℕ
token_buf_size = 33

abbrev pub parameter_name : List ℕ
parameter_name = b'c' ∷ b's' ∷ b'r' ∷ b'f' ∷ b'=' ∷ []

abbrev pub starts_with : List ℕ → List ℕ → Bool
starts_with [] text = true
starts_with (c ∷ cs) [] = false
starts_with (c ∷ cs) (t ∷ text) = (c == t) && starts_with cs text

-- The bytes up to the next '&' or the end.
unfoldable pub parameter_value : List ℕ → List ℕ
parameter_value [] = []
parameter_value (c ∷ cs) = if c == b'&' then [] else c ∷ parameter_value cs

-- A value that does not fit the scratch buffer of `token_buf_size + 4` bytes is refused.
unfoldable pub fitting : List ℕ → Option (List ℕ)
fitting value = if leb (token_buf_size + 4) (length value) then none else some value

-- The walk over the body. `at_start` says that the text is the body or stands behind a '&'.
unfoldable pub find_from : (at_start : Bool) → List ℕ → Option (List ℕ)
unfolding parameter_value fitting
find_from at_start [] = none
find_from at_start (c ∷ cs) =
    let later = find_from (c == b'&') cs in
    if at_start && starts_with parameter_name (c ∷ cs)
    then fitting (parameter_value (drop 5 (c ∷ cs)))
    else later

unfoldable pub find_csrf_form_param : List ℕ → Option (List ℕ)
unfolding find_from
find_csrf_form_param body = find_from true body

abbrev pub verify_form : (token : List ℕ) → Option (List ℕ) → Bool
verify_form token none = false
verify_form token (some form_token) = ct_streq form_token token

abbrev pub form_of : Option (List ℕ) → Option (List ℕ)
form_of none = none
form_of (some body) = find_csrf_form_param body

-- `token` is `s_token_hex`.
unfoldable pub csrf_verify : (token : List ℕ) → (header_token body : Option (List ℕ)) → Bool
unfolding ct_streq find_csrf_form_param
csrf_verify token (some (c ∷ cs)) body = ct_streq (c ∷ cs) token
csrf_verify token (some []) body = verify_form token (form_of body)
csrf_verify token none body = verify_form token (form_of body)
