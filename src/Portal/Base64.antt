-- ===== src/Portal/Base64.antt =====
-- main/portal.c: `base64_decode`, which reads the credentials of a request.
pub mod RoundTrip
use mqtt_broker_esp.Prelude.{
  ℕ, zero, suc, ◌+◌, ◌-◌, ◌*◌, ◌/◌, ◌%◌, ◌^◌, List, [], ◌∷◌, ◌++◌, length, Bool, true, false, ◌&&◌,
  ltb, leb, ◌==◌, if◌then◌else◌,
}

-- The table, with 0 for the characters that are not in it, as the loop takes them.
unfoldable pub sextet : ℕ → ℕ
sextet c =
    if leb b'A' c && leb c b'Z'
    then c - b'A'
    else if leb b'a' c && leb c b'z'
    then c - b'a' + 26
    else if leb b'0' c && leb c b'9'
    then c - b'0' + 52
    else if c == b'+'
    then 62
    else if c == b'/'
    then 63
    else 0

-- A character of a group: the six low bits of `n << 6` are free, so that `|` adds.
unfoldable pub take_char : (state : ℕ × ℕ) → ℕ → ℕ × ℕ
unfolding sextet
take_char (n, pad) c = if c == b'=' then (n * 2 ^ 6, pad + 1) else (n * 2 ^ 6 + sextet c, pad)

unfoldable pub take_chars : (state : ℕ × ℕ) → List ℕ → ℕ × ℕ
unfolding take_char
take_chars state [] = state
take_chars state (c ∷ cs) = take_chars (take_char state c) cs

-- `if (o < out_size && wanted) out[o++] = b;`
abbrev pub put_byte : (out_size : ℕ) → List ℕ → (wanted : Bool) → ℕ → List ℕ
put_byte out_size out wanted b =
    if ltb (length out) out_size && wanted then out ++ (b ∷ []) else out

abbrev pub put_group : (out_size : ℕ) → List ℕ → (state : ℕ × ℕ) → List ℕ
put_group out_size out (n, pad) =
    let out1 = put_byte out_size out true (n / 2 ^ 16 % 256) in
    let out2 = put_byte out_size out1 (ltb pad 2) (n / 2 ^ 8 % 256) in
    put_byte out_size out2 (ltb pad 1) (n % 256)

-- A group of four characters, or of fewer at the end.
unfoldable pub decode_groups : (out_size : ℕ) → (out text : List ℕ) → List ℕ
unfolding take_chars
decode_groups out_size out [] = out
decode_groups out_size out (a ∷ []) = put_group out_size out (take_chars (0, 0) (a ∷ []))
decode_groups out_size out (a ∷ b ∷ []) = put_group out_size out (take_chars (0, 0) (a ∷ b ∷ []))
decode_groups out_size out (a ∷ b ∷ c ∷ []) =
    put_group out_size out (take_chars (0, 0) (a ∷ b ∷ c ∷ []))
decode_groups out_size out (a ∷ b ∷ c ∷ d ∷ text) =
    decode_groups out_size (put_group out_size out (take_chars (0, 0) (a ∷ b ∷ c ∷ d ∷ []))) text

-- The bytes that are written. A NUL follows them if they are fewer than `out_size`.
unfoldable pub base64_decode : (text : List ℕ) (out_size : ℕ) → List ℕ
unfolding decode_groups
base64_decode text out_size = decode_groups out_size [] text
