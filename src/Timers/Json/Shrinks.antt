-- ===== src/Timers/Json/Shrinks.antt =====
-- What the JSON readers of main/timers.c leave of a text is no longer than the text, so that their
-- loops end by themselves.
use mqtt_broker_esp.Prelude.{
  ℕ, zero, suc, ◌+◌, ◌-◌, ◌*◌, ◌^◌, ◌≤◌, List, [], ◌∷◌, length, Bool, true, false, ◌||◌, ltb, ◌==◌,
  if-holds, Option, none, some, arith, ℤ, pos, neg_ℕ,
}
use native.Mathlib.Nat.{le_refl}
use mqtt_broker_esp.Timers.Json.{
  ◌>>=◌, ◌>>◌, require, is_ws, skip_ws, hex_digit, unicode_escape, escape, one_byte, store_then,
  string_loop, parse_json_string, is_digit, read_digits, starts_with_digit, unsigned_part,
  parse_signed, is_space, skip_space, parse_json_int, skip_chars, is_open, is_close, after_one,
  skip_nested, skip_scalar, closed_string, skip_value_at, skip_json_value,
}

-- What is left, if anything was read, has at most `n` bytes.
abbrev pub Shrinks {ℓ} : {A : Type ℓ} → ℕ → Option (A × List ℕ) → Type 0
Shrinks n none = Unit
Shrinks n (some r) = length r.1 ≤ n

pub bind-Shrinks {ℓ κ} :
    {A : Type ℓ} {B : Type κ} (n k : ℕ) (m : Option (A × List ℕ))
    (f : A × List ℕ → Option (B × List ℕ))
    → Shrinks n m
    → ((a : A) (rest : List ℕ) → length rest ≤ n → Shrinks k (f (a, rest)))
    → Shrinks k (m >>= f)
bind-Shrinks n k none f h g = tt
bind-Shrinks n k (some (a, rest)) f h g = g a rest h

pub any-Shrinks {ℓ κ} :
    {A : Type ℓ} {B : Type κ} (k : ℕ) (m : Option A) (f : A → Option (B × List ℕ))
    → ((a : A) → Shrinks k (f a))
    → Shrinks k (m >>= f)
any-Shrinks k none f g = tt
any-Shrinks k (some a) f g = g a

pub require-Shrinks {ℓ} :
    {B : Type ℓ} (k : ℕ) (b : Bool) (m : Option (B × List ℕ))
    → Shrinks k m
    → Shrinks k (require b >> m)
require-Shrinks k true m h = h
require-Shrinks k false m h = tt

pub length-skip_ws : (text : List ℕ) → length (skip_ws text) ≤ length text
unfolding skip_ws
length-skip_ws [] = omega arith
length-skip_ws (c ∷ cs) =
    let ih : length (skip_ws cs) ≤ suc (length cs) = omega (arith, length-skip_ws cs) in
    if-holds (λ (t : List ℕ). length t ≤ suc (length cs)) (is_ws c) {x = skip_ws cs} {y = c ∷ cs}
      (λ _. ih) (λ _. le_refl (suc (length cs)))

pub weaken-Shrinks {ℓ} :
    {A : Type ℓ} (n k : ℕ) (m : Option (A × List ℕ)) → n ≤ k → Shrinks n m → Shrinks k m
weaken-Shrinks n k none h s = tt
weaken-Shrinks n k (some r) h s = omega arith

unicode_escape-Shrinks : (t : List ℕ) → Shrinks (length t) (unicode_escape t)
unfolding unicode_escape
unicode_escape-Shrinks [] = tt
unicode_escape-Shrinks (a ∷ []) = tt
unicode_escape-Shrinks (a ∷ b ∷ []) = tt
unicode_escape-Shrinks (a ∷ b ∷ c ∷ []) = tt
unicode_escape-Shrinks (a ∷ b ∷ c ∷ d ∷ rest) =
    let n = length (a ∷ b ∷ c ∷ d ∷ rest) in
    any-Shrinks n (hex_digit a) _ λ x.
      any-Shrinks n (hex_digit b) _
        λ y. any-Shrinks n (hex_digit c) _ λ z. any-Shrinks n (hex_digit d) _ λ w. omega arith

escape-Shrinks : (t : List ℕ) → Shrinks (length t) (escape t)
unfolding escape
escape-Shrinks [] = tt
escape-Shrinks (e ∷ t) =
    let P : Option (List ℕ × List ℕ) → Type 0 = Shrinks (suc (length t)) in
    let here : length t ≤ suc (length t) = omega arith in
    if-holds P (e == b'"') (λ _. here)
      λ _.
        if-holds P (e == 92) (λ _. here)
          λ _.
            if-holds P (e == b'/') (λ _. here)
              λ _.
                if-holds P (e == b'n') (λ _. here)
                  λ _.
                    if-holds P (e == b'r') (λ _. here)
                      λ _.
                        if-holds P (e == b't') (λ _. here)
                          λ _.
                            if-holds P (e == b'b') (λ _. here)
                              λ _.
                                if-holds P (e == b'f') (λ _. here)
                                  λ _.
                                    if-holds P (e == b'u')
                                      (λ _.
                                        weaken-Shrinks (length t) (suc (length t))
                                          (unicode_escape t) here (unicode_escape-Shrinks t))
                                      λ _. tt

store_then-Shrinks :
    (next : List ℕ → ℕ → Option (List ℕ × List ℕ)) (o size n : ℕ) (m : Option (List ℕ × List ℕ))
    → Shrinks n m
    → ((rest : List ℕ) (o' : ℕ) → length rest ≤ n → Shrinks n (next rest o'))
    → Shrinks n (store_then next o size m)
store_then-Shrinks next o size n none h g = tt
store_then-Shrinks next o size n (some (bytes, rest)) h g =
    require-Shrinks n (ltb (o + length bytes) size) _ (
      bind-Shrinks n n (next rest (o + length bytes)) _ (g rest (o + length bytes) h)
        (λ more rest' k. k))

string_loop-Shrinks :
    (fuel size : ℕ) (text : List ℕ) (n o : ℕ)
    → length text ≤ n
    → Shrinks n (string_loop fuel size text o)
unfolding string_loop
string_loop-Shrinks zero size text n o h = tt
string_loop-Shrinks (suc fuel) size [] n o h = tt
string_loop-Shrinks (suc fuel) size (c ∷ t) n o h =
    let next =
      λ (rest : List ℕ) (o' : ℕ) (k : length rest ≤ n). string_loop-Shrinks fuel size rest n o' k in
    if-holds (Shrinks n) (c == b'"') (λ _. omega arith)
      λ _.
        if-holds (Shrinks n) (c == 0) (λ _. tt)
          λ _.
            if-holds (Shrinks n) (c == 92)
              (λ _.
                store_then-Shrinks (string_loop fuel size) o size n (escape t)
                  (weaken-Shrinks (length t) n (escape t) (omega arith) (escape-Shrinks t)) next)
              (λ _.
                store_then-Shrinks (string_loop fuel size) o size n (one_byte c t) (omega arith)
                  next)

-- A string takes its opening quote at least.
pub parse_json_string-Shrinks :
    (text : List ℕ) (size n : ℕ) → length text ≤ n → Shrinks n (parse_json_string text size)
unfolding parse_json_string
parse_json_string-Shrinks [] size n h = tt
parse_json_string-Shrinks (c ∷ t) size n h =
    if-holds (Shrinks n) (c == b'"')
      (λ _. string_loop-Shrinks (suc (length t)) size t n 0 (omega arith)) (λ _. tt)

length-read_digits : (text : List ℕ) (acc : ℕ) → length (read_digits text acc).1 ≤ length text
unfolding read_digits
length-read_digits [] acc = omega arith
length-read_digits (c ∷ cs) acc =
    let ih = length-read_digits cs (acc * 10 + (c - b'0')) in
    if-holds (λ r. length r.1 ≤ suc (length cs)) (is_digit c)
      {x = read_digits cs (acc * 10 + (c - b'0'))} {y = (acc, c ∷ cs)} (λ _. omega (arith, ih))
      (λ _. le_refl (suc (length cs)))

unsigned_part-Shrinks :
    (limit : ℕ) (sign : ℕ → ℤ) (text : List ℕ) (n : ℕ)
    → length text ≤ n
    → Shrinks n (unsigned_part limit sign text)
unsigned_part-Shrinks limit sign text n h =
    let digits = length-read_digits text 0 in
    if-holds (Shrinks n) (starts_with_digit text)
      (λ _.
        if-holds (Shrinks n) (ltb limit (read_digits text 0).0) (λ _. tt)
          (λ _. omega (arith, digits)))
      (λ _. tt)

parse_signed-Shrinks : (text : List ℕ) (n : ℕ) → length text ≤ n → Shrinks n (parse_signed text)
unfolding parse_signed
parse_signed-Shrinks [] n h = tt
parse_signed-Shrinks (c ∷ cs) n h =
    if-holds (Shrinks n) (c == b'-') (λ _. unsigned_part-Shrinks (2 ^ 31) neg_ℕ cs n (omega arith))
      λ _.
        if-holds (Shrinks n) (c == b'+')
          (λ _. unsigned_part-Shrinks (2 ^ 31 - 1) pos cs n (omega arith))
          λ _. unsigned_part-Shrinks (2 ^ 31 - 1) pos (c ∷ cs) n h

length-skip_space : (text : List ℕ) → length (skip_space text) ≤ length text
unfolding skip_space
length-skip_space [] = omega arith
length-skip_space (c ∷ cs) =
    let ih : length (skip_space cs) ≤ suc (length cs) = omega (arith, length-skip_space cs) in
    if-holds (λ (t : List ℕ). length t ≤ suc (length cs)) (is_space c) {x = skip_space cs}
      {y = c ∷ cs} (λ _. ih) (λ _. le_refl (suc (length cs)))

pub parse_json_int-Shrinks :
    (text : List ℕ) (n : ℕ) → length text ≤ n → Shrinks n (parse_json_int text)
unfolding parse_json_int
parse_json_int-Shrinks text n h =
    parse_signed-Shrinks (skip_space text) n (omega (arith, length-skip_space text))

length-skip_chars : (text : List ℕ) → length (skip_chars text) ≤ length text
unfolding skip_chars
length-skip_chars [] = omega arith
length-skip_chars (c ∷ []) =
    if-holds (λ (t : List ℕ). length t ≤ 1) (c == b'"') (λ _. omega arith) (λ _. omega arith)
length-skip_chars (c ∷ d ∷ cs) =
    let n = suc (suc (length cs)) in
    let escaped : length (skip_chars cs) ≤ n = omega (arith, length-skip_chars cs) in
    let plain : length (skip_chars (d ∷ cs)) ≤ n = omega (arith, length-skip_chars (d ∷ cs)) in
    if-holds (λ (t : List ℕ). length t ≤ n) (c == b'"') {x = c ∷ d ∷ cs} (λ _. le_refl n)
      λ _. if-holds (λ (t : List ℕ). length t ≤ n) (c == 92) (λ _. escaped) (λ _. plain)

length-after_one : (text : List ℕ) → length (after_one text) ≤ length text
length-after_one [] = omega arith
length-after_one (c ∷ cs) = omega arith

length-skip_nested :
    (fuel depth : ℕ) (text : List ℕ) (n : ℕ)
    → length text ≤ n
    → length (skip_nested fuel text depth) ≤ n
unfolding skip_nested
length-skip_nested zero depth text n h = h
length-skip_nested (suc fuel) depth [] n h = h
length-skip_nested (suc fuel) depth (c ∷ cs) n h =
    let P : List ℕ → Type 0 = λ t. length t ≤ n in
    let string : length (after_one (skip_chars cs)) ≤ n =
      omega (arith, length-after_one (skip_chars cs), length-skip_chars cs) in
    let behind : length cs ≤ n = omega arith in
    if-holds P (depth == 0) (λ _. h)
      λ _.
        if-holds P (c == b'"')
          (λ _. length-skip_nested fuel depth (after_one (skip_chars cs)) n string)
          λ _.
            if-holds P (is_open c) (λ _. length-skip_nested fuel (depth + 1) cs n behind)
              λ _.
                if-holds P (is_close c) (λ _. length-skip_nested fuel (depth - 1) cs n behind)
                  λ _. length-skip_nested fuel depth cs n behind

length-skip_scalar : (text : List ℕ) → length (skip_scalar text) ≤ length text
unfolding skip_scalar
length-skip_scalar [] = omega arith
length-skip_scalar (c ∷ cs) =
    let ih : length (skip_scalar cs) ≤ suc (length cs) = omega (arith, length-skip_scalar cs) in
    if-holds (λ (t : List ℕ). length t ≤ suc (length cs)) ((c == b',') || is_close c || is_ws c)
      {x = c ∷ cs} {y = skip_scalar cs} (λ _. le_refl (suc (length cs))) (λ _. ih)

-- The text behind a value, if there is one, has at most `n` bytes.
abbrev pub Leaves : ℕ → Option (List ℕ) → Type 0
Leaves n none = Unit
Leaves n (some t) = length t ≤ n

closed_string-Leaves : (t : List ℕ) (n : ℕ) → length t ≤ n → Leaves n (closed_string t)
closed_string-Leaves [] n h = tt
closed_string-Leaves (c ∷ cs) n h = omega arith

skip_value_at-Leaves : (text : List ℕ) (n : ℕ) → length text ≤ n → Leaves n (skip_value_at text)
skip_value_at-Leaves [] n h = h
skip_value_at-Leaves (c ∷ cs) n h =
    if-holds (Leaves n) (c == b'"')
      (λ _. closed_string-Leaves (skip_chars cs) n (omega (arith, length-skip_chars cs)))
      λ _.
        if-holds (Leaves n) (is_open c) (λ _. length-skip_nested (length cs) 1 cs n (omega arith))
          λ _. omega (arith, length-skip_scalar (c ∷ cs))

pub skip_json_value-Leaves :
    (text : List ℕ) (n : ℕ) → length text ≤ n → Leaves n (skip_json_value text)
unfolding skip_json_value
skip_json_value-Leaves text n h =
    skip_value_at-Leaves (skip_ws text) n (omega (arith, length-skip_ws text))

pub after-Leaves {ℓ} :
    {B : Type ℓ} (n k : ℕ) (m : Option (List ℕ)) (f : List ℕ → Option (B × List ℕ))
    → Leaves n m
    → ((t : List ℕ) → length t ≤ n → Shrinks k (f t))
    → Shrinks k (m >>= f)
after-Leaves n k none f h g = tt
after-Leaves n k (some t) f h g = g t h
