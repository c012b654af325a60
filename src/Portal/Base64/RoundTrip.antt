-- ===== src/Portal/Base64/RoundTrip.antt =====
-- `base64_decode` of main/portal.c decodes the base64 of RFC 4648.
use mqtt_broker_esp.Prelude.{
  ℕ, ◌+◌, ◌-◌, ◌*◌, ◌/◌, ◌%◌, ◌≤◌, ◌<◌, ◌≡◌, refl, sym, ap, ◌∙◌, List, [], ◌∷◌, ◌++◌, length, All,
  true, false, ◌&&◌, not, ltb, ◌==◌, if◌then◌else◌, arith, every_below, every_below→at,
  append_assoc, length-append, append-nil, Bool-cases, inl, inr,
}
use mqtt_broker_esp.Portal.Base64.{
  sextet, take_char, take_chars, put_byte, put_group, decode_groups, base64_decode,
}

abbrev pub IsByte : ℕ → Type 0
IsByte b = b < 256

-- The character of six bits.
unfoldable pub char64 : ℕ → ℕ
char64 v =
    if ltb v 26
    then b'A' + v
    else if ltb v 52
    then b'a' + (v - 26)
    else if ltb v 62
    then b'0' + (v - 52)
    else if v == 62
    then b'+'
    else b'/'

-- Base64 with padding.
unfoldable pub base64_encode : List ℕ → List ℕ
unfolding char64
base64_encode [] = []
base64_encode (x ∷ []) = char64 (x / 4) ∷ char64 (x % 4 * 16) ∷ b'=' ∷ b'=' ∷ []
base64_encode (x ∷ y ∷ []) =
    char64 (x / 4) ∷ char64 (x % 4 * 16 + y / 16) ∷ char64 (y % 16 * 4) ∷ b'=' ∷ []
base64_encode (x ∷ y ∷ z ∷ bytes) =
    char64 (x / 4)
    ∷ char64 (x % 4 * 16 + y / 16)
    ∷ char64 (y % 16 * 4 + z / 64)
    ∷ char64 (z % 64)
    ∷ base64_encode bytes

char64_table : every_below 64 (λ v. (sextet (char64 v) == v) && not (char64 v == b'=')) ≡ true
unfolding every_below sextet char64
char64_table = refl

take_char-char64 : (n pad v : ℕ) → v < 64 → take_char (n, pad) (char64 v) ≡ (n * 64 + v, pad)
unfolding take_char
take_char-char64 n pad v h =
    let row : (sextet (char64 v) == v) && not (char64 v == b'=') ≡ true =
      every_below→at 64 (λ v. (sextet (char64 v) == v) && not (char64 v == b'=')) v char64_table
        h in
    let plain : (char64 v == b'=') ≡ false = ground arith in
    let value : sextet (char64 v) ≡ v = ground arith in rw (plain, value) refl

put_byte-room :
    (size : ℕ) (out : List ℕ) (b x : ℕ)
    → length out < size
    → b ≡ x
    → put_byte size out true b ≡ out ++ (x ∷ [])
put_byte-room size out b x h e =
    let room : ltb (length out) size ≡ true = ground arith in rw (room, e) refl

put_byte-idle : (size : ℕ) (out : List ℕ) (b : ℕ) → put_byte size out false b ≡ out
put_byte-idle size out b = elim (Bool-cases (ltb (length out) size)) [
  | inl room ↦ rw room refl
  | inr full ↦ rw full refl
]

-- What a group of characters puts, by its padding.
module _ (size n x : ℕ) (out : List ℕ) (e : n / 65536 % 256 ≡ x) where
  abbrev one : List ℕ
  one = put_byte size out true (n / 65536 % 256)

  abbrev two : List ℕ
  two = put_byte size one true (n / 256 % 256)

  put_one : length out < size → one ≡ out ++ (x ∷ [])
  put_one h = put_byte-room size out (n / 65536 % 256) x h e

  put_group-one : length out < size → put_group size out (n, 2) ≡ out ++ (x ∷ [])
  put_group-one h =
      put_byte-idle size (put_byte size one false (n / 256 % 256)) (n % 256)
      ∙ put_byte-idle size one (n / 256 % 256)
      ∙ put_one h

  put_two : (y : ℕ) → n / 256 % 256 ≡ y → length out + 1 < size → two ≡ out ++ (x ∷ y ∷ [])
  put_two y f h =
      ap (λ o. put_byte size o true (n / 256 % 256)) (put_one (omega arith))
      ∙ put_byte-room size (out ++ (x ∷ [])) (n / 256 % 256) y
          (omega (arith, length-append out (x ∷ []))) f
      ∙ append_assoc out (x ∷ []) (y ∷ [])

  put_group-two :
      (y : ℕ)
      → n / 256 % 256 ≡ y
      → length out + 1 < size
      → put_group size out (n, 1) ≡ out ++ (x ∷ y ∷ [])
  put_group-two y f h = put_byte-idle size two (n % 256) ∙ put_two y f h

  put_group-three :
      (y z : ℕ)
      → n / 256 % 256 ≡ y
      → n % 256 ≡ z
      → length out + 2 < size
      → put_group size out (n, 0) ≡ out ++ (x ∷ y ∷ z ∷ [])
  put_group-three y z f g h =
      ap (λ o. put_byte size o true (n % 256)) (put_two y f (omega arith))
      ∙ put_byte-room size (out ++ (x ∷ y ∷ [])) (n % 256) z
          (omega (arith, length-append out (x ∷ y ∷ []))) g
      ∙ append_assoc out (x ∷ y ∷ []) (z ∷ [])

chars_two :
    (u v : ℕ)
    → u < 64
    → v < 64
    → take_chars (0, 0) (char64 u ∷ char64 v ∷ []) ≡ ((0 * 64 + u) * 64 + v, 0)
unfolding take_chars
chars_two u v hu hv =
    ap (λ s. take_char s (char64 v)) (take_char-char64 0 0 u hu)
    ∙ take_char-char64 (0 * 64 + u) 0 v hv

-- Two characters more.
take_chars-append :
    (state : ℕ × ℕ) (xs ys : List ℕ)
    → take_chars state (xs ++ ys) ≡ take_chars (take_chars state xs) ys
unfolding take_chars
take_chars-append state [] ys = refl
take_chars-append state (x ∷ xs) ys = take_chars-append (take_char state x) xs ys

abbrev upper : (u v : ℕ) → ℕ
upper u v = (0 * 64 + u) * 64 + v

module _ (u v : ℕ) (hu : u < 64) (hv : v < 64) where
  chars_padded_two :
      take_chars (0, 0) (char64 u ∷ char64 v ∷ b'=' ∷ b'=' ∷ []) ≡ (upper u v * 64 * 64, 2)
  unfolding take_chars take_char
  chars_padded_two =
      take_chars-append (0, 0) (char64 u ∷ char64 v ∷ []) (b'=' ∷ b'=' ∷ [])
      ∙ ap (λ s. take_chars s (b'=' ∷ b'=' ∷ [])) (chars_two u v hu hv)

  chars_padded_one :
      (w : ℕ)
      → w < 64
      → take_chars (0, 0) (char64 u ∷ char64 v ∷ char64 w ∷ b'=' ∷ [])
        ≡ ((upper u v * 64 + w) * 64, 1)
  unfolding take_chars
  chars_padded_one w hw =
      take_chars-append (0, 0) (char64 u ∷ char64 v ∷ []) (char64 w ∷ b'=' ∷ [])
      ∙ ap (λ s. take_chars s (char64 w ∷ b'=' ∷ [])) (chars_two u v hu hv)
      ∙ ap (λ s. take_char s b'=') (take_char-char64 (upper u v) 0 w hw)
      ∙ padded ((upper u v * 64) + w)
    where
      padded : (n : ℕ) → take_char (n, 0) b'=' ≡ (n * 64, 1)
      padded n = unfold take_char in refl

  chars_four :
      (w z : ℕ)
      → w < 64
      → z < 64
      → take_chars (0, 0) (char64 u ∷ char64 v ∷ char64 w ∷ char64 z ∷ [])
        ≡ ((upper u v * 64 + w) * 64 + z, 0)
  unfolding take_chars
  chars_four w z hw hz =
      take_chars-append (0, 0) (char64 u ∷ char64 v ∷ []) (char64 w ∷ char64 z ∷ [])
      ∙ ap (λ s. take_chars s (char64 w ∷ char64 z ∷ [])) (chars_two u v hu hv)
      ∙ ap (λ s. take_char s (char64 z)) (take_char-char64 (upper u v) 0 w hw)
      ∙ take_char-char64 (upper u v * 64 + w) 0 z hz

module _ (size : ℕ) where
  decode_groups-base64_encode :
      (bytes out : List ℕ)
      → All IsByte bytes
      → length out + length bytes ≤ size
      → decode_groups size out (base64_encode bytes) ≡ out ++ bytes
  unfolding decode_groups base64_encode
  decode_groups-base64_encode [] out hb h = sym (append-nil out)
  decode_groups-base64_encode (x ∷ []) out hb h =
      ap (put_group size out)
        (chars_padded_two (x / 4) (x % 4 * 16) (omega (arith, hb.0)) (omega arith))
      ∙ put_group-one size (upper (x / 4) (x % 4 * 16) * 64 * 64) x out (omega (arith, hb.0))
          (omega arith)
  decode_groups-base64_encode (x ∷ y ∷ []) out hb h =
      let u : ℕ = x / 4 in
      let v : ℕ = x % 4 * 16 + y / 16 in
      let w : ℕ = y % 16 * 4 in
      ap (put_group size out)
        (chars_padded_one u v (omega (arith, hb.0)) (omega (arith, hb.1.0)) w (omega arith))
      ∙ put_group-two size ((upper u v * 64 + w) * 64) x out (omega (arith, hb.0, hb.1.0)) y
          (omega (arith, hb.0, hb.1.0)) (omega arith)
  decode_groups-base64_encode (x ∷ y ∷ z ∷ bytes) out hb h =
      let u : ℕ = x / 4 in
      let v : ℕ = x % 4 * 16 + y / 16 in
      let w : ℕ = y % 16 * 4 + z / 64 in
      let n : ℕ = (upper u v * 64 + w) * 64 + z % 64 in
      let chars =
        chars_four u v (omega (arith, hb.0)) (omega (arith, hb.1.0)) w (z % 64)
          (omega (arith, hb.1.1.0)) (omega arith) in
      let group =
        put_group-three size n x out (omega (arith, hb.0, hb.1.0, hb.1.1.0)) y z
          (omega (arith, hb.0, hb.1.0, hb.1.1.0)) (omega (arith, hb.0, hb.1.0, hb.1.1.0))
          (omega arith) in
      ap (λ o. decode_groups size o (base64_encode bytes)) (ap (put_group size out) chars ∙ group)
      ∙ decode_groups-base64_encode bytes (out ++ (x ∷ y ∷ z ∷ [])) hb.1.1.1
          (omega (arith, length-append out (x ∷ y ∷ z ∷ [])))
      ∙ append_assoc out (x ∷ y ∷ z ∷ []) bytes

-- What was encoded by RFC 4648 is decoded, if the array has room for it.
pub base64_decode-base64_encode :
    (bytes : List ℕ) (out_size : ℕ)
    → All IsByte bytes
    → length bytes ≤ out_size
    → base64_decode (base64_encode bytes) out_size ≡ bytes
unfolding base64_decode
base64_decode-base64_encode bytes out_size hb h =
    decode_groups-base64_encode out_size bytes [] hb (omega arith)
