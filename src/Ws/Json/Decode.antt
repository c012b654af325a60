-- ===== src/Ws/Json/Decode.antt =====
-- `json_decode_string` of main/portal_ws.c beside `parse_json_string` of main/timers.c, which is written
-- apart.
use mqtt_broker_esp.Prelude.{
  Option-cases, Bool, ℕ, zero, suc, ◌+◌, ◌*◌, ◌^◌, ◌≤◌, ◌<◌, ◌≡◌, refl, List, [], ◌∷◌, ◌++◌, length,
  true, false, ltb, leb, ◌==◌, if◌then◌else◌, if-holds, Option, none, some, arith, Bool-cases, inl,
  inr,
}
use mqtt_broker_esp.Timers.Json.{
  hex_digit, utf8_bytes, unicode_escape, escape, one_byte, store_then, string_loop,
  parse_json_string, ◌>>=◌,
}
use mqtt_broker_esp.Timers.Json.Strings.{quoted, parse_json_string-quoted}
use mqtt_broker_esp.Ws.Json.{decode_loop, json_decode_string}

-- An escape that is decoded gives a byte at least.
abbrev Gives : Option (List ℕ × List ℕ) → Type 0
Gives none = Unit {0}
Gives (some (bytes, rest)) = 0 < length bytes

Gives-bind :
    {A : Type 0} (m : Option A) (f : A → Option (List ℕ × List ℕ))
    → ((a : A) → Gives (f a))
    → Gives (m >>= f)
Gives-bind none f k = tt
Gives-bind (some a) f k = k a

length-utf8_bytes : (cp : ℕ) → 0 < length (utf8_bytes cp)
unfolding utf8_bytes
length-utf8_bytes cp = ground arith

Gives-unicode_escape : (t : List ℕ) → Gives (unicode_escape t)
unfolding unicode_escape
Gives-unicode_escape [] = tt
Gives-unicode_escape (a ∷ []) = tt
Gives-unicode_escape (a ∷ b ∷ []) = tt
Gives-unicode_escape (a ∷ b ∷ c ∷ []) = tt
Gives-unicode_escape (a ∷ b ∷ c ∷ d ∷ rest) = Gives-bind (hex_digit a) _ λ x.
    Gives-bind (hex_digit b) _ λ y. Gives-bind (hex_digit c) _ λ z.
      Gives-bind (hex_digit d) _ λ w. length-utf8_bytes (x * 2 ^ 12 + y * 2 ^ 8 + z * 2 ^ 4 + w)

Gives-escape : (t : List ℕ) → Gives (escape t)
unfolding escape
Gives-escape [] = tt
Gives-escape (e ∷ t) =
    let one : 0 < 1 = omega arith in
    if-holds Gives (e == b'"') (λ _. one)
      λ _.
        if-holds Gives (e == 92) (λ _. one)
          λ _.
            if-holds Gives (e == b'/') (λ _. one)
              λ _.
                if-holds Gives (e == b'n') (λ _. one)
                  λ _.
                    if-holds Gives (e == b'r') (λ _. one)
                      λ _.
                        if-holds Gives (e == b't') (λ _. one)
                          λ _.
                            if-holds Gives (e == b'b') (λ _. one)
                              λ _.
                                if-holds Gives (e == b'f') (λ _. one)
                                  λ _.
                                    if-holds Gives (e == b'u') (λ _. Gives-unicode_escape t) λ _. tt

-- In a full buffer nothing is stored.
store_then-full :
    (next : List ℕ → ℕ → Option (List ℕ × List ℕ)) (o size : ℕ) (decoded : Option (List ℕ × List ℕ))
    → size ≤ o + 1
    → Gives decoded
    → store_then next o size decoded ≡ none
store_then-full next o size none h g = refl
store_then-full next o size (some (bytes, rest)) h g =
    let full : ltb (o + length bytes) size ≡ false = ground arith in rw full refl

-- What one loop makes of the rest, the other makes of it too.
store_then-some :
    (next next' : List ℕ → ℕ → Option (List ℕ × List ℕ)) (o size : ℕ)
    (decoded : Option (List ℕ × List ℕ)) (r : List ℕ × List ℕ)
    → ((t : List ℕ) (o : ℕ) (q : List ℕ × List ℕ) → next t o ≡ some q → next' t o ≡ some q)
    → store_then next o size decoded ≡ some r
    → store_then next' o size decoded ≡ some r
store_then-some next next' o size none r same e = absurd (cc)
store_then-some next next' o size (some (bytes, rest)) r same e =
    elim (Bool-cases (ltb (o + length bytes) size)) [
      | inr full ↦ absurd (nothing (rw full at e))
      | inl fits ↦ elim (Option-cases (next rest (o + length bytes))) [
        | inl fails ↦ absurd (nothing (rw (fits, fails) at e))
        | inr (q, gives) ↦ rw (fits, same rest (o + length bytes) q gives) (rw (fits, gives) at e)
      ]
    ]
  where
    nothing : {A : Type 0} {a : A} → none ≡ some a → ⊥
    nothing h = cc

le_of_leb : (m n : ℕ) → leb m n ≡ true → m ≤ n
le_of_leb m n h = ground arith

decode_loop-string_loop :
    (fuel size : ℕ) (text : List ℕ) (o : ℕ) (r : List ℕ × List ℕ)
    → string_loop fuel size text o ≡ some r
    → decode_loop fuel size text o ≡ some r
unfolding decode_loop string_loop
decode_loop-string_loop zero size text o r e = e
decode_loop-string_loop (suc fuel) size [] o r e = e
decode_loop-string_loop (suc fuel) size (c ∷ t) o r e = elim (Bool-cases (c == b'"')) [
  | inl quote ↦ rw quote (rw quote at e)
  | inr other ↦ elim (Bool-cases (c == 0)) [
    | inl nul ↦ absurd (nothing (rw (other, nul) at e))
    | inr byte ↦ elim (Bool-cases (leb size (o + 1))) [
      | inl full ↦
          let wide = le_of_leb size (o + 1) full in
          let escaped =
            store_then-full (string_loop fuel size) o size (escape t) wide (Gives-escape t) in
          let plain =
            store_then-full (string_loop fuel size) o size (one_byte c t) wide (omega arith) in
          absurd (stuck (c == 92) _ _ escaped plain (rw (other, byte) at e))
      | inr free ↦ elim (Bool-cases (c == 92)) [
        | inl backslash ↦
            rw (other, free, backslash)
              (store_then-some (string_loop fuel size) (decode_loop fuel size) o size (escape t) r
                (decode_loop-string_loop fuel size) (rw (other, byte, backslash) at e))
        | inr plain ↦
            rw (other, free, plain)
              (store_then-some (string_loop fuel size) (decode_loop fuel size) o size (one_byte c t)
                r (decode_loop-string_loop fuel size) (rw (other, byte, plain) at e))
      ]
    ]
  ]
]
  where
    nothing : {A : Type 0} {a : A} → none ≡ some a → ⊥
    nothing h = cc

    stuck :
        {A : Type 0} {a : A} (b : Bool) (x y : Option A)
        → x ≡ none
        → y ≡ none
        → (if b then x else y) ≡ some a
        → ⊥
    stuck true x y p q h = cc
    stuck false x y p q h = cc

-- What `parse_json_string` reads, `json_decode_string` reads alike. The converse does not hold: it
-- goes on behind a NUL in the text.
json_decode_string-parse_json_string :
    (text : List ℕ) (out_size : ℕ) (r : List ℕ × List ℕ)
    → parse_json_string text out_size ≡ some r
    → json_decode_string text out_size ≡ some r
unfolding json_decode_string parse_json_string
json_decode_string-parse_json_string [] out_size r e = e
json_decode_string-parse_json_string (c ∷ t) out_size r e = elim (Bool-cases (c == b'"')) [
  | inl quote ↦ rw quote (decode_loop-string_loop (suc (length t)) out_size t 0 r (rw quote at e))
  | inr other ↦ rw other (rw other at e)
]

-- A quoted string is decoded.
pub json_decode_string-quoted :
    (size : ℕ) (s rest : List ℕ)
    → length s < size
    → json_decode_string (quoted s ++ rest) size ≡ some (s, rest)
json_decode_string-quoted size s rest h =
    json_decode_string-parse_json_string (quoted s ++ rest) size (s, rest)
      (parse_json_string-quoted size s rest h)
