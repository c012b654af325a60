-- ===== src/Portal/Http/Short.antt =====
-- main/portal.c: a short header of credentials is read within its array.
use mqtt_broker_esp.Prelude.{
  ℕ, zero, suc, ◌+◌, ◌*◌, ◌/◌, ◌%◌, ◌≤◌, ◌<◌, ◌≡◌, refl, sym, subst, List, [], ◌∷◌, ◌++◌, length,
  take, Bool, true, ◌&&◌, ltb, ◌==◌, if-holds, Option, none, some, arith, length-append,
}
use mqtt_broker_esp.Wire.Read.Safe.{Safe, returns, Safe-bind}
use mqtt_broker_esp.Portal.Base64.{put_byte, put_group, take_chars, decode_groups, base64_decode}
use mqtt_broker_esp.Portal.Http.{cons_first, split_colon, copy_string, two_strings, credentials}

length-put_byte :
    (size : ℕ) (out : List ℕ) (wanted : Bool) (b : ℕ)
    → length (put_byte size out wanted b) ≤ length out + 1
length-put_byte size out wanted b =
    if-holds (λ (o : List ℕ). length o ≤ length out + 1) (ltb (length out) size && wanted)
      (λ _. omega (arith, length-append out (b ∷ []))) (λ _. omega arith)

length-put_group :
    (size : ℕ) (out : List ℕ) (s : ℕ × ℕ) → length (put_group size out s) ≤ length out + 3
length-put_group size out (n, pad) =
    let out1 : List ℕ = put_byte size out true (n / 65536 % 256) in
    let out2 : List ℕ = put_byte size out1 (ltb pad 2) (n / 256 % 256) in
    omega (
      arith,
      length-put_byte size out true (n / 65536 % 256),
      length-put_byte size out1 (ltb pad 2) (n / 256 % 256),
      length-put_byte size out2 (ltb pad 1) (n % 256),
    )

length-decode_groups :
    (size : ℕ) (out text : List ℕ)
    → length (decode_groups size out text) ≤ length out + (length text + 3) / 4 * 3
unfolding decode_groups
length-decode_groups size out [] = omega arith
length-decode_groups size out (a ∷ []) =
    omega (arith, length-put_group size out (take_chars (0, 0) (a ∷ [])))
length-decode_groups size out (a ∷ b ∷ []) =
    omega (arith, length-put_group size out (take_chars (0, 0) (a ∷ b ∷ [])))
length-decode_groups size out (a ∷ b ∷ c ∷ []) =
    omega (arith, length-put_group size out (take_chars (0, 0) (a ∷ b ∷ c ∷ [])))
length-decode_groups size out (a ∷ b ∷ c ∷ d ∷ text) =
    let chars : ℕ × ℕ = take_chars (0, 0) (a ∷ b ∷ c ∷ d ∷ []) in
    omega (
      arith,
      length-put_group size out chars,
      length-decode_groups size (put_group size out chars) text,
    )

-- A list that a NUL ends.
abbrev IsEnded : List ℕ → Type 0
IsEnded bytes = (front : List ℕ) × (bytes ≡ front ++ (0 ∷ []))

abbrev EndsBehind : Option (List ℕ × List ℕ) → Type 0
EndsBehind none = Unit {0}
EndsBehind (some (before, after)) = IsEnded after

cons_first-EndsBehind :
    (c : ℕ) (o : Option (List ℕ × List ℕ)) → EndsBehind o → EndsBehind (cons_first c o)
cons_first-EndsBehind c none h = h
cons_first-EndsBehind c (some (before, after)) h = h

Safe-split_colon : (front : List ℕ) → Safe EndsBehind (split_colon (front ++ (0 ∷ [])))
unfolding split_colon
Safe-split_colon [] = returns tt
Safe-split_colon (c ∷ front) =
    if-holds (Safe EndsBehind) (c == b':') (λ _. returns (front, refl))
      λ _.
        if-holds (Safe EndsBehind) (c == 0) (λ _. returns tt)
          λ _. Safe-bind (Safe-split_colon front) λ o h. returns (cons_first-EndsBehind c o h)

Safe-copy_string :
    (n : ℕ) (front : List ℕ) → Safe (λ out. length out ≤ n) (copy_string n (front ++ (0 ∷ [])))
unfolding copy_string
Safe-copy_string zero front = returns (omega arith)
Safe-copy_string (suc n) [] = returns (omega arith)
Safe-copy_string (suc n) (c ∷ front) =
    if-holds (Safe (λ out. length out ≤ suc n)) (c == 0) (λ _. returns (omega arith))
      λ _. Safe-bind (Safe-copy_string n front) λ out h. returns (omega arith)

abbrev pub FitsFields : List ℕ × List ℕ → Type 0
FitsFields c = (length c.0 ≤ 64) × (length c.1 ≤ 64)

length-take_le : (n : ℕ) (xs : List ℕ) → length (take n xs) ≤ n
length-take_le zero xs = omega arith
length-take_le (suc n) [] = omega arith
length-take_le (suc n) (x ∷ xs) = omega (arith, length-take_le n xs)

Safe-two_strings : (o : Option (List ℕ × List ℕ)) → EndsBehind o → Safe FitsFields (two_strings o)
Safe-two_strings none h = returns (omega arith, omega arith)
Safe-two_strings (some (user, rest)) (front, e) =
    Safe-bind
      (subst (λ r. Safe (λ out. length out ≤ 64) (copy_string 64 r)) (sym e)
        (Safe-copy_string 64 front))
      λ pass h. returns (length-take_le 64 user, h)

-- A header value of at most 172 characters, whatever they are, is decoded and split without a read
-- outside the array of 132 bytes, into a name and a password that fit their fields.
pub credentials-Safe : (b64 : List ℕ) → length b64 ≤ 172 → Safe FitsFields (credentials b64)
unfolding credentials base64_decode
credentials-Safe b64 h =
    let out : List ℕ = decode_groups 132 [] b64 in
    let room : ltb (length out) 132 ≡ true =
      fits (length out) (omega (arith, length-decode_groups 132 [] b64)) in
    rw room (Safe-bind (Safe-split_colon out) (λ o k. Safe-two_strings o k))
  where
    fits : (n : ℕ) → n < 132 → ltb n 132 ≡ true
    fits n k = ground arith
