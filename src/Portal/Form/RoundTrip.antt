-- ===== src/Portal/Form/RoundTrip.antt =====
-- main/portal_berry.c: a field of a form that a browser encodes is decoded.
use mqtt_broker_esp.Prelude.{
  ℕ, zero, suc, ◌+◌, ◌-◌, ◌/◌, ◌%◌, ◌<◌, ◌≡◌, ◌≢◌, refl, ap, ◌∙◌, List, [], ◌∷◌, ◌++◌, take, All,
  Bool, true, false, ◌&&◌, ◌||◌, ltb, leb, ◌==◌, ==_iff, if◌then◌else◌, if-holds, arith,
  every_below, every_below→at,
}
use mqtt_broker_esp.Portal.Form.{strtol_hex, urldecode_loop}

-- A byte that a browser sends as it is: a letter, a digit, or one of `-._*`.
unfoldable pub is_unreserved : ℕ → Bool
is_unreserved c =
    leb b'a' c && leb c b'z'
    || (leb b'A' c && leb c b'Z'
        || (leb b'0' c && leb c b'9'
            || ((c == b'-') || ((c == b'.') || ((c == b'_') || (c == b'*'))))))

abbrev pub upper_hex : ℕ → ℕ
upper_hex x = if ltb x 10 then b'0' + x else b'A' + (x - 10)

-- `application/x-www-form-urlencoded`
abbrev pub encode_byte : ℕ → List ℕ
encode_byte c =
    if is_unreserved c
    then c ∷ []
    else if c == b' '
    then b'+' ∷ []
    else b'%' ∷ upper_hex (c / 16) ∷ upper_hex (c % 16) ∷ []

unfoldable pub form_encode : List ℕ → List ℕ
form_encode [] = []
form_encode (c ∷ cs) = encode_byte c ++ form_encode cs

strtol_table :
    every_below 256 (λ c. strtol_hex (upper_hex (c / 16)) (upper_hex (c % 16)) == c) ≡ true
unfolding every_below strtol_hex
strtol_table = refl

strtol_hex-upper_hex : (c : ℕ) → c < 256 → strtol_hex (upper_hex (c / 16)) (upper_hex (c % 16)) ≡ c
strtol_hex-upper_hex c h = (==_iff (strtol_hex (upper_hex (c / 16)) (upper_hex (c % 16))) c).0 (
    every_below→at 256 (λ c. strtol_hex (upper_hex (c / 16)) (upper_hex (c % 16)) == c) c
      strtol_table h)

-- A byte that stands for itself.
urldecode_loop-plain :
    (room c : ℕ) (enc : List ℕ)
    → c ≢ b'%'
    → urldecode_loop (suc (suc room)) (c ∷ enc)
      ≡ (if c == b'+' then b' ' else c) ∷ urldecode_loop (suc room) enc
unfolding urldecode_loop
urldecode_loop-plain zero c [] h = refl
urldecode_loop-plain (suc room) c [] h = refl
urldecode_loop-plain room c (d ∷ []) h = refl
urldecode_loop-plain room c (d ∷ e ∷ enc) h =
    let other : (c == b'%') ≡ false = ground arith in rw other refl

-- The bytes are decoded as the byte `c`.
abbrev Decodes : (room c : ℕ) (enc bytes : List ℕ) → Type 0
Decodes room c enc bytes =
    urldecode_loop (suc (suc room)) (bytes ++ enc) ≡ c ∷ urldecode_loop (suc room) enc

Decodes-encode_byte : (room c : ℕ) (enc : List ℕ) → c < 256 → Decodes room c enc (encode_byte c)
unfolding is_unreserved urldecode_loop
Decodes-encode_byte room c enc h =
    if-holds (Decodes room c enc) (is_unreserved c)
      (λ e.
        let other : (c == b'+') ≡ false = ground arith in
        urldecode_loop-plain room c enc (ground arith) ∙ rw other refl)
      λ _.
        if-holds (Decodes room c enc) (c == b' ')
          (λ e.
            urldecode_loop-plain room b'+' enc (omega arith)
            ∙ ap (λ x. x ∷ urldecode_loop (suc room) enc) {x = b' '} {y = c} (ground arith))
          λ _. ap (λ x. x ∷ urldecode_loop (suc room) enc) (strtol_hex-upper_hex c h)

-- What is decoded is cut to the room less the NUL.
pub urldecode_loop-form_encode :
    (room : ℕ) (s : List ℕ)
    → All (λ c. c < 256) s
    → urldecode_loop room (form_encode s) ≡ take (room - 1) s
unfolding form_encode
urldecode_loop-form_encode zero s h = unfold urldecode_loop in refl
urldecode_loop-form_encode (suc zero) s h = unfold urldecode_loop in refl
urldecode_loop-form_encode (suc (suc room)) [] h =
    unfold urldecode_loop in
    ap (λ k. take {A = ℕ} k []) {x = suc room} {y = suc (suc room) - 1} (omega arith)
urldecode_loop-form_encode (suc (suc room)) (c ∷ s) h =
    Decodes-encode_byte room c (form_encode s) h.0
    ∙ ap (λ t. c ∷ t) (urldecode_loop-form_encode (suc room) s h.1)
    ∙ ap (λ k. take k (c ∷ s)) {x = suc (suc room - 1)} {y = suc (suc room) - 1} (omega arith)
