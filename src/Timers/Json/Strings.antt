-- ===== src/Timers/Json/Strings.antt =====
-- The JSON strings and numbers that main/timers.c writes are read back.
use mqtt_broker_esp.Prelude.{
  ℕ, zero, suc, ◌+◌, ◌-◌, ◌*◌, ◌/◌, ◌%◌, ◌^◌, ◌≤◌, ◌<◌, ◌≡◌, ◌≢◌, refl, ap, ◌∙◌, List, [], ◌∷◌,
  ◌++◌, length, true, false, ltb, ◌==◌, if-holds, some, pos, arith, Bool-cases, inl, inr,
  length-append, append_assoc,
}
use mqtt_broker_esp.Timers.Json.{
  hex_digit, hex_char, utf8_bytes, unicode_escape, escape, one_byte, store_then, string_loop,
  parse_json_string, is_digit, read_digits, starts_with_digit, unsigned_part, parse_signed,
  is_space, skip_space, parse_json_int, escape_of, decimal,
}

-- The bytes of a string as they are written between quotes.
unfoldable pub escape_all : List ℕ → List ℕ
escape_all [] = []
escape_all (c ∷ cs) = escape_of c ++ escape_all cs

abbrev pub quoted : List ℕ → List ℕ
quoted s = b'"' ∷ (escape_all s ++ (b'"' ∷ []))

hex_digit-hex_char : (x : ℕ) → x < 16 → hex_digit (hex_char x) ≡ some x
unfolding hex_digit
hex_digit-hex_char x h = elim (Bool-cases (ltb x 10)) [
  | inl small ↦ rw small (ground arith)
  | inr large ↦ rw large (ground arith)
]

utf8_bytes_small : (c : ℕ) → c < 128 → utf8_bytes c ≡ c ∷ []
unfolding utf8_bytes
utf8_bytes_small c h = ground arith

unicode_escape-control :
    (c : ℕ) (t : List ℕ)
    → c < 32
    → unicode_escape (b'0' ∷ b'0' ∷ hex_char (c / 16) ∷ hex_char (c % 16) ∷ t) ≡ some (c ∷ [], t)
unfolding unicode_escape
unicode_escape-control c t h =
    let hi = hex_digit-hex_char (c / 16) (omega arith) in
    let lo = hex_digit-hex_char (c % 16) (omega arith) in
    let whole : 0 + c / 16 * 16 + c % 16 ≡ c = omega arith in
    rw (hi, lo) (rw (whole, utf8_bytes_small c (omega arith)) refl)

module _ (fuel size o : ℕ) (tail : List ℕ) where
  -- The bytes are read as the byte `c`.
  abbrev Reads : ℕ → List ℕ → Type 0
  Reads c bytes =
      string_loop (suc fuel) size (bytes ++ tail) o
      ≡ store_then (string_loop fuel size) o size (one_byte c tail)

  Reads-other : (c : ℕ) → c ≢ b'"' → c ≢ 0 → c ≢ 92 → Reads c (c ∷ [])
  unfolding string_loop
  Reads-other c h z k = ground arith

  Reads-control :
      (c : ℕ)
      → c < 32
      → Reads c (92 ∷ b'u' ∷ b'0' ∷ b'0' ∷ hex_char (c / 16) ∷ hex_char (c % 16) ∷ [])
  unfolding string_loop escape
  Reads-control c h = rw (unicode_escape-control c tail h) refl

  same :
      (x c : ℕ)
      → x ≡ c
      → store_then (string_loop fuel size) o size (one_byte x tail)
        ≡ store_then (string_loop fuel size) o size (one_byte c tail)
  same x c e = ap (λ d. store_then (string_loop fuel size) o size (one_byte d tail)) e

  Reads-escape_of : (c : ℕ) → Reads c (escape_of c)
  unfolding string_loop escape
  Reads-escape_of c =
      if-holds (Reads c) (c == b'"') (λ e. same b'"' c (ground arith))
        λ quote.
          if-holds (Reads c) (c == 92) (λ e. same 92 c (ground arith))
            λ backslash.
              if-holds (Reads c) (c == 10) (λ e. same 10 c (ground arith))
                λ _.
                  if-holds (Reads c) (c == 13) (λ e. same 13 c (ground arith))
                    λ _.
                      if-holds (Reads c) (c == 9) (λ e. same 9 c (ground arith))
                        λ _.
                          if-holds (Reads c) (c == 8) (λ e. same 8 c (ground arith))
                            λ _.
                              if-holds (Reads c) (c == 12) (λ e. same 12 c (ground arith))
                                λ _.
                                  if-holds (Reads c) (ltb c 32)
                                    (λ e. Reads-control c (ground arith))
                                    λ printed.
                                      Reads-other c (ground arith) (ground arith) (ground arith)

string_loop-escape_all :
    (fuel size : ℕ) (s rest : List ℕ) (o : ℕ)
    → length s < fuel
    → o + length s < size
    → string_loop fuel size (escape_all s ++ (b'"' ∷ rest)) o ≡ some (s, rest)
unfolding escape_all string_loop
string_loop-escape_all zero size s rest o h k = absurd (omega arith)
string_loop-escape_all (suc fuel) size [] rest o h k = refl
string_loop-escape_all (suc fuel) size (c ∷ s) rest o h k =
    ap (λ t. string_loop (suc fuel) size t o)
      (append_assoc (escape_of c) (escape_all s) (b'"' ∷ rest))
    ∙ Reads-escape_of fuel size o (escape_all s ++ (b'"' ∷ rest)) c
    ∙ (let fits : ltb (o + 1) size ≡ true = ground arith in
        rw (fits, string_loop-escape_all fuel size s rest (o + 1) (omega arith) (omega arith)) refl)

length-escape_of : (c : ℕ) → 0 < length (escape_of c)
length-escape_of c = ground arith

length-escape_all : (s : List ℕ) → length s ≤ length (escape_all s)
unfolding escape_all
length-escape_all [] = omega arith
length-escape_all (c ∷ s) =
    omega
      (arith, length-append (escape_of c) (escape_all s), length-escape_of c, length-escape_all s)

-- A quoted string is read back.
pub parse_json_string-quoted :
    (size : ℕ) (s rest : List ℕ)
    → length s < size
    → parse_json_string (quoted s ++ rest) size ≡ some (s, rest)
unfolding parse_json_string
parse_json_string-quoted size s rest h =
    ap (λ t. string_loop (suc (length (escape_all s ++ (b'"' ∷ []) ++ rest))) size t 0)
      (append_assoc (escape_all s) (b'"' ∷ []) rest)
    ∙ string_loop-escape_all (suc (length (escape_all s ++ (b'"' ∷ []) ++ rest))) size s rest 0
        (omega (
          arith,
          length-append (escape_all s ++ (b'"' ∷ [])) rest,
          length-append (escape_all s) (b'"' ∷ []),
          length-escape_all s,
        ))
        (omega arith)

is_digit-digit : (d : ℕ) → d < 10 → is_digit (b'0' + d) ≡ true
is_digit-digit d h = ground arith

next_digit :
    (d acc : ℕ) (text : List ℕ)
    → d < 10
    → read_digits ((b'0' + d) ∷ text) acc ≡ read_digits text (acc * 10 + d)
unfolding read_digits
next_digit d acc text h = rw (is_digit-digit d h) (ap (read_digits text) (omega arith))

pub read_digits-decimal :
    (fuel n : ℕ) (text : List ℕ)
    → n < 10 ^ suc fuel
    → read_digits (decimal (suc fuel) n text) 0 ≡ read_digits text n
unfolding decimal
read_digits-decimal zero n text h =
    let small : ltb n 10 ≡ true = ground arith in
    rw small (next_digit n 0 text (omega arith) ∙ ap (read_digits text) {y = n} (omega arith))
read_digits-decimal (suc fuel) n text h = elim (Bool-cases (ltb n 10)) [
  | inl small ↦
      rw small (next_digit n 0 text (ground arith) ∙ ap (read_digits text) {y = n} (omega arith))
  | inr large ↦ rw large (
      read_digits-decimal fuel (n / 10) ((b'0' + n % 10) ∷ text) (omega arith)
      ∙ next_digit (n % 10) (n / 10) text (omega arith)
      ∙ ap (read_digits text) (omega arith))
]

pub starts-decimal :
    (fuel n : ℕ) (text : List ℕ)
    → n < 10 ^ suc fuel
    → starts_with_digit (decimal (suc fuel) n text) ≡ true
unfolding decimal
starts-decimal zero n text h =
    let small : ltb n 10 ≡ true = ground arith in rw small (is_digit-digit n (omega arith))
starts-decimal (suc fuel) n text h = elim (Bool-cases (ltb n 10)) [
  | inl small ↦ rw small (is_digit-digit n (ground arith))
  | inr large ↦ rw large (starts-decimal fuel (n / 10) ((b'0' + n % 10) ∷ text) (omega arith))
]

read_digits-end :
    (text : List ℕ) (n : ℕ) → starts_with_digit text ≡ false → read_digits text n ≡ (n, text)
unfolding read_digits
read_digits-end [] n h = refl
read_digits-end (c ∷ cs) n h = rw h refl

parse_json_int-digit :
    (text : List ℕ)
    → starts_with_digit text ≡ true
    → parse_json_int text ≡ unsigned_part (2 ^ 31 - 1) pos text
unfolding parse_json_int skip_space parse_signed
parse_json_int-digit [] h = absurd (ground arith)
parse_json_int-digit (c ∷ cs) h =
    let space : is_space c ≡ false = ground arith in
    let minus : (c == b'-') ≡ false = ground arith in
    let plus : (c == b'+') ≡ false = ground arith in rw (space, minus, plus) refl

-- A number that is written in decimal is read back.
pub parse_json_int-decimal :
    (fuel n : ℕ) (text : List ℕ)
    → n < 10 ^ suc fuel
    → n < 2 ^ 31
    → starts_with_digit text ≡ false
    → parse_json_int (decimal (suc fuel) n text) ≡ some (pos n, text)
parse_json_int-decimal fuel n text h k e =
    let start = starts-decimal fuel n text h in
    let fits : ltb (2 ^ 31 - 1) n ≡ false = ground arith in
    parse_json_int-digit (decimal (suc fuel) n text) start
    ∙ rw (start, read_digits-decimal fuel n text h, read_digits-end text n e, fits) refl
